-- ===== src/Dns/Name/Accepts.antt =====
-- `canonicalName`: the names that it accepts.
use encrypted_dns_skill.Base.{false, ◌||◌, List, [], ◌∷◌, some, ◌≡◌, refl, arith, All, length, ltb}
use encrypted_dns_skill.Dns.Name.{
  has_bad_label, matches_suffix, from_option, check_ascii, canonical_name,
}
use encrypted_dns_skill.Dns.Name.Laws.{IsLabel, Avoids, IsPublicName}
use encrypted_dns_skill.Errors.{ok}
use encrypted_dns_skill.Platform.{Platform, to_lower, trim_space}
use encrypted_dns_skill.Text.{Text, codes, is_empty, trim_suffix}

-- An input that is neither empty nor an IP literal, without its surrounding space and its final
-- dot, and that IDNA converts to a public name.
pub record IsAcceptableName (P : Platform) (input ascii : Text) : Type 0 where
  pub raw : Text
  pub not_empty : is_empty (trim_suffix (trim_space P input) (codes ".")) ≡ false
  pub not_ip : P.is_ip (trim_suffix (trim_space P input) (codes ".")) ≡ false
  pub converted : P.to_ascii (trim_suffix (trim_space P input) (codes ".")) ≡ some raw
  pub lowered : to_lower P raw ≡ ascii
  pub public : IsPublicName ascii

label-accepted : (l : Text) → IsLabel l → (is_empty l || ltb 63 (length l)) ≡ false
label-accepted [] (low, high) = absurd (omega arith)
label-accepted (c ∷ l) (low, high) = ground arith

labels-accepted : (l : List Text) → All IsLabel l → has_bad_label l ≡ false
unfolding has_bad_label
labels-accepted [] h = refl
labels-accepted (x ∷ l) (hx, h) = rw (label-accepted x hx, labels-accepted l h) refl

suffixes-accepted : (s : Text) (l : List Text) → All (Avoids s) l → matches_suffix s l ≡ false
unfolding matches_suffix
suffixes-accepted s [] h = refl
suffixes-accepted s (x ∷ l) ((same, ends), h) = rw (same, ends, suffixes-accepted s l h) refl

check_ascii-accepted : (ascii : Text) → IsPublicName ascii → check_ascii ascii ≡ ok ascii
unfolding check_ascii
check_ascii-accepted ascii h =
    let short : ltb 253 (length ascii) ≡ false = (let k = h.total in ground arith) in
    rw (short, labels-accepted _ h.labels, suffixes-accepted ascii _ h.public, check_ascii) refl

pub canonical_name-accepted :
    (P : Platform) (input ascii : Text)
    → IsAcceptableName P input ascii
    → canonical_name P input ≡ ok ascii
unfolding canonical_name from_option
canonical_name-accepted P input ascii h =
    simp (h.not_empty, h.not_ip, h.converted, h.lowered, canonical_name, from_option)
      (check_ascii-accepted ascii h.public)
