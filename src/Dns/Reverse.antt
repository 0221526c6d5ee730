-- ===== src/Dns/Reverse.antt =====
-- internal/edns/dns.go: `reverseName`, and `netip.Addr.Unmap`, which is applied before it.
pub mod RoundTrip
use encrypted_dns_skill.Base.{
  ℕ, ◌+◌, ◌/◌, ◌%◌, Bool, List, [], ◌∷◌, ◌++◌, if◌then◌else◌, replicate, take, drop,
}
use encrypted_dns_skill.Platform.{Addr, v4, v6}
use encrypted_dns_skill.Text.{Text, Bytes, codes, text_eq, decimal, hex_digit}

-- The first twelve bytes of an IPv4-mapped IPv6 address.
abbrev pub mapped_prefix : Bytes
mapped_prefix = replicate 10 0 ++ 255 ∷ 255 ∷ []

abbrev pub v4_of : Bytes → Addr
v4_of (a ∷ b ∷ c ∷ d ∷ []) = v4 a b c d
v4_of bytes = v6 bytes []

-- `netip.Addr.Unmap`; an IPv4 address has no zone.
unfoldable pub unmap : Addr → Addr
unmap (v4 a b c d) = v4 a b c d
unmap (v6 bytes zone) =
    if text_eq (take 12 bytes) mapped_prefix then v4_of (drop 12 bytes) else v6 bytes zone

-- `fmt.Fprintf(&builder, "%x.%x.", b&0x0f, b>>4)`
unfoldable pub nibbles : ℕ → Text
nibbles b = hex_digit (b % 16) ∷ b'.' ∷ hex_digit (b / 16) ∷ b'.' ∷ []

-- The loop over the sixteen bytes, from the last to the first.
unfoldable pub reverse_nibbles : Bytes → Text
reverse_nibbles [] = []
reverse_nibbles (b ∷ bytes) = reverse_nibbles bytes ++ nibbles b

unfoldable pub reverse_name : Addr → Text
reverse_name (v4 a b c d) =
    decimal d
    ++ b'.' ∷ (decimal c ++ b'.' ∷ (decimal b ++ b'.' ∷ (decimal a ++ codes ".in-addr.arpa")))
reverse_name (v6 bytes zone) = reverse_nibbles bytes ++ codes "ip6.arpa"
