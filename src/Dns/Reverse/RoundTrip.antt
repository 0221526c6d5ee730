-- ===== src/Dns/Reverse/RoundTrip.antt =====
-- The address can be read back from the name that `reverseName` gives it.
use encrypted_dns_skill.Base.{
  ℕ, zero, suc, ◌+◌, ◌*◌, ◌-◌, ◌/◌, ◌%◌, ◌<◌, ◌≤◌, Bool, true, not, ◌&&◌, List, [], ◌∷◌, ◌++◌, ◌≡◌,
  refl, ap, ◌∙◌, All, arith, ltb, leb, ◌==◌, length, length-append, all_below, all_below_sound,
  Option, none, some, inl, inr, Bool-cases, Option-cases, if◌then◌else◌, append_assoc, append-nil,
}
use encrypted_dns_skill.Dns.Reverse.{nibbles, reverse_nibbles, reverse_name}
use encrypted_dns_skill.Platform.{Addr, v4, v6}
use encrypted_dns_skill.Text.{Text, Bytes, codes, decimal, digits, hex_digit, split, text_eq}
use encrypted_dns_skill.Text.Equality.{text_eq_sound}
use encrypted_dns_skill.Text.Split.{Lacks, join, split-join}

-- An address as `netip` holds it: bytes, and sixteen of them for IPv6.
abbrev pub IsAddr : Addr → Type 0
IsAddr (v4 a b c d) = (a < 256) × (b < 256) × (c < 256) × (d < 256)
IsAddr (v6 bytes zone) = (length bytes ≡ 16) × All (λ b. b < 256) bytes

abbrev pub without_zone : Addr → Addr
without_zone (v4 a b c d) = v4 a b c d
without_zone (v6 bytes zone) = v6 bytes []

-- Reading a hexadecimal digit in small letters.
abbrev hex_value : ℕ → ℕ
hex_value c = if ltb c 58 then c - 48 else c - 87

-- Reading a name of RFC 3596: for each of so many bytes, from the last to the first, a label with
-- its low nibble and a label with its high one, and `ip6.arpa` behind them.
unfoldable pub read_ip6 : ℕ → Text → Bytes → Option Bytes
read_ip6 zero s bytes = if text_eq s (codes "ip6.arpa") then some bytes else none
read_ip6 (suc n) (low ∷ dot ∷ high ∷ dot' ∷ s) bytes =
    let rest = read_ip6 n s ((hex_value high * 16 + hex_value low) ∷ bytes) in
    if dot == b'.' && dot' == b'.' then rest else none
read_ip6 (suc n) s bytes = none

-- Reading decimal digits.
unfoldable pub value_from : ℕ → Text → ℕ
value_from n [] = n
value_from n (c ∷ s) = value_from (n * 10 + (c - 48)) s

-- Reading the labels of a name of RFC 1035: the bytes of the address in decimal, from the last to
-- the first.
unfoldable pub read_in_addr : List Text → Option Addr
read_in_addr (d ∷ c ∷ b ∷ a ∷ zone ∷ top ∷ []) =
    if text_eq zone (codes "in-addr") && text_eq top (codes "arpa")
    then some (v4 (value_from 0 a) (value_from 0 b) (value_from 0 c) (value_from 0 d))
    else none
read_in_addr labels = none

-- The address that a reverse name stands for.
unfoldable pub read_reverse : Text → Option Addr
read_reverse name = elim (read_ip6 16 name []) [
  | some bytes ↦ some (v6 bytes [])
  | none ↦ read_in_addr (split name b'.')
]

lacks_dot : Text → Bool
lacks_dot [] = true
lacks_dot (c ∷ s) = not (c == b'.') && lacks_dot s

lacks_dot_sound : (s : Text) → lacks_dot s ≡ true → Lacks b'.' s
unfolding lacks_dot
lacks_dot_sound [] h = tt
lacks_dot_sound (c ∷ s) h = (ground arith, lacks_dot_sound s (ground arith))

-- What the digits of a byte satisfy.
good_byte : ℕ → Bool
good_byte n =
    (value_from 0 (decimal n) == n) && (lacks_dot (decimal n) && leb (length (decimal n)) 3)

bytes_good : all_below 256 good_byte ≡ true
unfolding all_below good_byte value_from decimal digits lacks_dot
bytes_good = refl

byte_good : (n : ℕ) → n < 256 → good_byte n ≡ true
byte_good n h = all_below_sound 256 good_byte n bytes_good h

decimal-Lacks : (n : ℕ) → n < 256 → Lacks b'.' (decimal n)
unfolding good_byte
decimal-Lacks n h = let g = byte_good n h in lacks_dot_sound (decimal n) (ground arith)

length-decimal : (n : ℕ) → n < 256 → length (decimal n) ≤ 3
unfolding good_byte
length-decimal n h = let g = byte_good n h in ground arith

value_from-decimal : (n : ℕ) → n < 256 → value_from 0 (decimal n) ≡ n
unfolding good_byte
value_from-decimal n h = let g = byte_good n h in ground arith

abbrev v4_labels : ℕ → ℕ → ℕ → ℕ → List Text
v4_labels a b c d =
    decimal d ∷ decimal c ∷ decimal b ∷ decimal a ∷ codes "in-addr" ∷ codes "arpa" ∷ []

-- The labels of the name of an IPv4 address.
split-reverse_v4 :
    (a b c d : ℕ) → IsAddr (v4 a b c d) → split (reverse_name (v4 a b c d)) b'.' ≡ v4_labels a b c d
unfolding reverse_name join lacks_dot
split-reverse_v4 a b c d (ha, hb, hc, hd) =
    split-join (decimal d) (decimal c ∷ decimal b ∷ decimal a ∷ codes "in-addr" ∷ codes "arpa" ∷ [])
      b'.'
      (
        decimal-Lacks d hd,
        (
          decimal-Lacks c hc,
          (
            decimal-Lacks b hb,
            (
              decimal-Lacks a ha,
              (lacks_dot_sound (codes "in-addr") refl, (lacks_dot_sound (codes "arpa") refl, tt)),
            ),
          ),
        ),
      )

length-reverse_v4 : (a b c d : ℕ) → IsAddr (v4 a b c d) → length (reverse_name (v4 a b c d)) ≤ 28
unfolding reverse_name
length-reverse_v4 a b c d (ha, hb, hc, hd) = omega (
  arith,
  length-decimal a ha,
  length-decimal b hb,
  length-decimal c hc,
  length-decimal d hd,
  length-append {0} (decimal a) (codes ".in-addr.arpa"),
  length-append {0} (decimal b) (b'.' ∷ (decimal a ++ codes ".in-addr.arpa")),
  length-append {0} (decimal c) (b'.' ∷ (decimal b ++ b'.' ∷ (decimal a ++ codes ".in-addr.arpa"))),
  length-append {0} (decimal d)
      (b'.' ∷ (decimal c ++ b'.' ∷ (decimal b ++ b'.' ∷ (decimal a ++ codes ".in-addr.arpa")))),
)

length-read_ip6 :
    (n : ℕ) (s acc : Text) {bytes : Bytes} → read_ip6 n s acc ≡ some bytes → length s ≡ 4 * n + 8
unfolding read_ip6
length-read_ip6 zero s acc h =
    ap (λ t. length t) (text_eq_sound s (codes "ip6.arpa") (ground arith))
length-read_ip6 (suc n) (low ∷ dot ∷ high ∷ dot' ∷ s) acc h =
    elim (Bool-cases (dot == b'.' && dot' == b'.')) [
      | inr q ↦ let bad = rw (q, read_ip6) at h in cc
      | inl q ↦ omega (arith, length-read_ip6 n s _ (rw (q, read_ip6) at h))
    ]
length-read_ip6 (suc n) [] acc h = cc
length-read_ip6 (suc n) (low ∷ []) acc h = cc
length-read_ip6 (suc n) (low ∷ dot ∷ []) acc h = cc
length-read_ip6 (suc n) (low ∷ dot ∷ high ∷ []) acc h = cc

byte_of_nibbles :
    (b : ℕ) → b < 256 → hex_value (hex_digit (b / 16)) * 16 + hex_value (hex_digit (b % 16)) ≡ b
unfolding hex_digit
byte_of_nibbles b h = ground arith

read_ip6-reverse_nibbles :
    (l : Bytes) (m n : ℕ) (s acc : Text)
    → All (λ b. b < 256) l
    → m ≡ length l + n
    → read_ip6 m (reverse_nibbles l ++ s) acc ≡ read_ip6 n s (l ++ acc)
unfolding reverse_nibbles nibbles read_ip6
read_ip6-reverse_nibbles [] m n s acc h e = ap (λ k. read_ip6 k s acc) (e ∙ omega arith)
read_ip6-reverse_nibbles (b ∷ l) m n s acc (hb, hl) e =
    rw (append_assoc (reverse_nibbles l) (nibbles b) s) (
      read_ip6-reverse_nibbles l m (suc n) (nibbles b ++ s) acc hl (e ∙ omega arith)
      ∙ ap (λ x. read_ip6 n s (x ∷ (l ++ acc))) (byte_of_nibbles b hb))

read_in_addr-labels :
    (a b c d : ℕ) → IsAddr (v4 a b c d) → read_in_addr (v4_labels a b c d) ≡ some (v4 a b c d)
unfolding read_in_addr text_eq
read_in_addr-labels a b c d (ha, hb, hc, hd) =
    rw
      (
        value_from-decimal a ha,
        value_from-decimal b hb,
        value_from-decimal c hc,
        value_from-decimal d hd,
      )
      refl

read_ip6-reverse_v6 :
    (l : Bytes) (zone : Text)
    → IsAddr (v6 l zone)
    → read_ip6 16 (reverse_name (v6 l zone)) [] ≡ some l
unfolding read_ip6 text_eq reverse_name
read_ip6-reverse_v6 l zone (n, hl) =
    read_ip6-reverse_nibbles l 16 0 (codes "ip6.arpa") [] hl (omega (arith, n))
    ∙ ap some (append-nil l)

-- The name of an address, whose bytes are below 256 and sixteen of them for IPv6, reads back as
-- the address, without its zone: for IPv4 by the rules of RFC 1035, the bytes in decimal from the
-- last to the first under `in-addr.arpa`; for IPv6 by those of RFC 3596, the nibbles from the
-- lowest to the highest under `ip6.arpa`. The zone of an address is not in its name.
pub read_reverse-reverse_name :
    (x : Addr) → IsAddr x → read_reverse (reverse_name x) ≡ some (without_zone x)
unfolding read_reverse
read_reverse-reverse_name (v4 a b c d) h =
    elim (Option-cases (read_ip6 16 (reverse_name (v4 a b c d)) [])) [
      | inr (bytes, q) ↦
          absurd (omega (arith, length-read_ip6 16 _ [] q, length-reverse_v4 a b c d h))
      | inl q ↦
          rw (q, read_reverse)
            (ap read_in_addr (split-reverse_v4 a b c d h) ∙ read_in_addr-labels a b c d h)
    ]
read_reverse-reverse_name (v6 l zone) h = rw (read_ip6-reverse_v6 l zone h, read_reverse) refl
