-- ===== src/Tests/Frame.antt =====
-- Messages that are written in parts and read back, and the answer to CONNECT.
use encrypted_dns_skill.Base.{
  ◌≤◌, ◌<◌, [], ◌∷◌, ◌++◌, true, none, some, ◌≡◌, refl, arith, All, length,
}
use encrypted_dns_skill.Errors.{ok, unexpected_eof}
use encrypted_dns_skill.Frame.{
  Writer, Reader, write_loop, write_all, write_dns_frame, frame_of, read_dns_frame, header_end,
  read_connect_response, read_full, read_header,
}
use encrypted_dns_skill.Frame.Connect.{read_connect_response_sound}
use encrypted_dns_skill.Frame.Progress.{IsWilling, write_dns_frame-whole}
use encrypted_dns_skill.Frame.RoundTrip.{read_dns_frame-frame_of, read_dns_frame_sound}
use encrypted_dns_skill.Text.{Bytes, has_suffix, text_eq}

-- A writer that takes two bytes at each call.
abbrev two_at_once : Writer
two_at_once call size = (2, none)

abbrev message : Bytes
message = 7 ∷ 8 ∷ 9 ∷ []

-- The frame in a stream with a byte behind it.
abbrev stream : Reader
stream = record { bytes = 0 ∷ 3 ∷ 7 ∷ 8 ∷ 9 ∷ 1 ∷ []; stop = unexpected_eof }

abbrev behind : Reader
behind = record { bytes = 1 ∷ []; stop = unexpected_eof }

stream-read : read_dns_frame stream ≡ ok (message, behind)
unfolding write_loop write_all frame_of write_dns_frame read_full read_dns_frame read_header
    read_connect_response has_suffix text_eq
stream-read = refl

stream-bytes : All (λ c. c < 256) stream.bytes
stream-bytes =
    (omega arith, (omega arith, (omega arith, (omega arith, (omega arith, (omega arith, tt))))))

read_dns_frame-frame_of_example :
    read_dns_frame (record { bytes = frame_of message ++ 1 ∷ []; stop = unexpected_eof })
    ≡ ok (message, behind)
read_dns_frame-frame_of_example =
    read_dns_frame-frame_of message (1 ∷ []) unexpected_eof (omega arith) (omega arith)

read_dns_frame_sound_example :
    (1 ≤ length message)
    × (length message ≤ 65535)
    × (stream.bytes ≡ frame_of message ++ behind.bytes)
read_dns_frame_sound_example = read_dns_frame_sound stream message behind stream-bytes stream-read

-- A header line `OK`, the empty line, and a byte of the tunnel.
abbrev tunnel : Reader
tunnel = record { bytes = 79 ∷ 75 ∷ 13 ∷ 10 ∷ 13 ∷ 10 ∷ 22 ∷ []; stop = unexpected_eof }

abbrev header : Bytes
header = 79 ∷ 75 ∷ 13 ∷ 10 ∷ 13 ∷ 10 ∷ []

tunnel-read : read_connect_response tunnel ≡ ok (header, 22 ∷ [])
unfolding write_loop write_all frame_of write_dns_frame read_full read_dns_frame read_header
    read_connect_response has_suffix text_eq
tunnel-read = refl

read_connect_response_sound_example :
    (tunnel.bytes ≡ header ++ 22 ∷ [])
    × (has_suffix header header_end ≡ true)
    × (length header ≤ 32768)
read_connect_response_sound_example =
    read_connect_response_sound tunnel header (22 ∷ []) tunnel-read

-- A writer that fails after two bytes.
abbrev broken : Writer
broken call size = (2, some unexpected_eof)

test-broken :
    write_dns_frame broken message ≡ record { sent = 0 ∷ 3 ∷ []; error = some unexpected_eof }
unfolding write_loop write_all frame_of write_dns_frame
test-broken = refl

-- A writer that takes one byte at each call.
abbrev one_at_once : Writer
one_at_once call n = (1, none)

one_at_once-IsWilling : IsWilling one_at_once
one_at_once-IsWilling call n h = (1, refl, omega arith, h)

write_dns_frame-whole_example :
    write_dns_frame one_at_once message ≡ record { sent = frame_of message; error = none }
write_dns_frame-whole_example =
    write_dns_frame-whole one_at_once message one_at_once-IsWilling (omega arith) (omega arith)
