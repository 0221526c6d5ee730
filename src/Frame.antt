-- ===== src/Frame.antt =====
-- internal/edns/doq.go and dot.go: messages with a two-byte length in front, and the loop that
-- writes them; internal/edns/proxy.go: the reading of the answer to CONNECT.
pub mod Writing
pub mod RoundTrip
pub mod Connect
pub mod Progress
use encrypted_dns_skill.Base.{
  ℕ, zero, suc, ◌+◌, ◌-◌, ◌*◌, ◌/◌, ◌%◌, Bool, true, false, ◌||◌, List, [], ◌∷◌, ◌++◌, Option, none,
  some, ltb, leb, ◌==◌, if◌then◌else◌, length, take, drop,
}
use encrypted_dns_skill.Errors.{
  Error, invalid_message_length, short_write, read_length, read_message, empty_message,
  connect_headers_too_long, unexpected_eof, end_of_file, Fallible, ok, err, ◌>>=◌, ◌>>◌,
}
use encrypted_dns_skill.Text.{Bytes, has_suffix}

abbrev pub max_dns_message_size : ℕ
max_dns_message_size = 65535

-- An `io.Writer`: what its call of this number returns for a payload of this length, the count
-- of bytes written, and an error where it failed, which may be after some bytes.
abbrev pub Writer : Type 0
Writer = ℕ → ℕ → ℕ × Option Error

-- The bytes that were written, and the error that ended the writing.
pub record Written : Type 0 where
  pub sent : Bytes
  pub error : Option Error

-- `writeAll`, with one unit of fuel for each round; every round writes a byte at least.
unfoldable pub write_loop : Writer → ℕ → ℕ → Bytes → Bytes → Written
write_loop w fuel call [] sent = record { sent = sent; error = none }
write_loop w zero call (c ∷ p) sent = record { sent = sent; error = some short_write }
write_loop w (suc fuel) call (c ∷ p) sent =
    let (n, failed) = w call (length (c ∷ p)) in
    let rest = write_loop w fuel (call + 1) (drop n (c ∷ p)) (sent ++ take n (c ∷ p)) in
    elim failed [
      | some e ↦ record { sent = sent ++ take n (c ∷ p); error = some e }
      | none ↦ if n == 0 then record { sent = sent; error = some short_write } else rest
    ]

unfoldable pub write_all : Writer → Bytes → Written
write_all w payload = write_loop w (length payload) 0 payload []

-- `binary.BigEndian.PutUint16`, and the message behind it.
unfoldable pub frame_of : Bytes → Bytes
frame_of wire = length wire % 65536 / 256 ∷ length wire % 256 ∷ wire

-- `writeDNSFrame`
unfoldable pub write_dns_frame : Writer → Bytes → Written
write_dns_frame w wire =
    if length wire == 0 || ltb max_dns_message_size (length wire)
    then record { sent = []; error = some (invalid_message_length (length wire)) }
    else write_all w (frame_of wire)

-- An `io.Reader`: the bytes that it gives, and the error at their end.
pub record Reader : Type 0 where
  pub bytes : Bytes
  pub stop : Error

-- An end in the middle of what is read is an unexpected one.
unfoldable pub short_read : Bytes → Error → Error
short_read [] e = e
short_read (c ∷ s) end_of_file = unexpected_eof
short_read (c ∷ s) e = e

-- `io.ReadFull`
unfoldable pub read_full : ℕ → Reader → Fallible (Bytes × Reader)
read_full n r =
    if leb n (length r.bytes)
    then ok (take n r.bytes, record r { bytes = drop n r.bytes })
    else err (short_read r.bytes r.stop)

-- An error with a text in front of it.
abbrev pub wrap {ℓ} : {A : Type ℓ} → (Error → Error) → Fallible A → Fallible A
wrap f (ok a) = ok a
wrap f (err e) = err (f e)

-- `binary.BigEndian.Uint16`
abbrev pub uint16_of : Bytes → ℕ
uint16_of (high ∷ low ∷ _) = high * 256 + low
uint16_of _ = 0

-- `readDNSFrame`, with what is left to read.
unfoldable pub read_dns_frame : Reader → Fallible (Bytes × Reader)
read_dns_frame r = do
  (length_bytes, r') ← wrap read_length (read_full 2 r)
  if uint16_of length_bytes == 0
      then err empty_message
      else wrap read_message (read_full (uint16_of length_bytes) r')

abbrev pub max_header_size : ℕ
max_header_size = 32 * 1024

abbrev pub header_end : Bytes
header_end = 13 ∷ 10 ∷ 13 ∷ 10 ∷ []

-- The loop of `readCONNECTResponse`, a byte at a time: the header that is handed to
-- `http.ReadResponse`, and what is left to read.
unfoldable pub read_header : Bytes → Error → Bytes → Fallible (Bytes × Bytes)
read_header [] stop header =
    if ltb (length header) max_header_size then err stop else err connect_headers_too_long
read_header (c ∷ s) stop header =
    let more = read_header s stop (header ++ c ∷ []) in
    if ltb (length header) max_header_size
    then if has_suffix (header ++ c ∷ []) header_end then ok (header ++ c ∷ [], s) else more
    else err connect_headers_too_long

unfoldable pub read_connect_response : Reader → Fallible (Bytes × Bytes)
read_connect_response r = read_header r.bytes r.stop []
