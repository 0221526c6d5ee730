-- ===== src/Base64.antt =====
-- `base64.StdEncoding.EncodeToString`, by which SVCB parameters and proxy credentials are written.
use encrypted_dns_skill.Base.{
  ℕ, ◌+◌, ◌-◌, ◌*◌, ◌/◌, ◌%◌, [], ◌∷◌, ◌==◌, ltb, if◌then◌else◌, map, ◌≡◌, refl,
}
use encrypted_dns_skill.Text.{Text, Bytes, codes}

-- The digit of a value below 64.
unfoldable pub base64_digit : ℕ → ℕ
base64_digit n =
    if ltb n 26
    then 65 + n
    else if ltb n 52
    then 71 + n
    else if ltb n 62
    then n - 4
    else if n == 62
    then b'+'
    else b'/'

-- Three bytes are four digits; a rest of one or two bytes is padded.
unfoldable pub base64 : Bytes → Text
unfolding base64_digit
base64 [] = []
base64 (a ∷ []) = base64_digit (a / 4) ∷ base64_digit (a % 4 * 16) ∷ b'=' ∷ b'=' ∷ []
base64 (a ∷ b ∷ []) =
    base64_digit (a / 4)
    ∷ base64_digit (a % 4 * 16 + b / 16)
    ∷ base64_digit (b % 16 * 4)
    ∷ b'='
    ∷ []
base64 (a ∷ b ∷ c ∷ rest) =
    base64_digit (a / 4)
    ∷ base64_digit (a % 4 * 16 + b / 16)
    ∷ base64_digit (b % 16 * 4 + c / 64)
    ∷ base64_digit (c % 64)
    ∷ base64 rest

base64_text : base64 (codes "user:pass") ≡ codes "dXNlcjpwYXNz"
unfolding base64
base64_text = refl

-- The digits of the alphabet for URLs.
unfoldable pub url_digit : ℕ → ℕ
url_digit c = if c == b'+' then b'-' else if c == b'/' then b'_' else c

unfoldable pub unpadded : Text → Text
unpadded [] = []
unpadded (c ∷ s) = let rest = unpadded s in if c == b'=' then rest else c ∷ rest

-- `base64.RawURLEncoding.EncodeToString`
unfoldable pub base64_url : Bytes → Text
base64_url bytes = map url_digit (unpadded (base64 bytes))
