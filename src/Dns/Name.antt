-- ===== src/Dns/Name.antt =====
-- internal/edns/dns.go: `canonicalName`.
pub mod Laws
pub mod Accepts
use encrypted_dns_skill.Base.{
  ℕ, Bool, true, false, ◌||◌, List, [], ◌∷◌, ◌++◌, Option, none, some, ltb, if◌then◌else◌, length,
}
use encrypted_dns_skill.Errors.{
  Error, empty_domain_name, ip_literal, convert_idna, name_too_long, invalid_label, blocked_name,
  Fallible, ok, err, ◌>>=◌, ◌>>◌, refuse_if,
}
use encrypted_dns_skill.Platform.{Platform, to_lower, trim_space}
use encrypted_dns_skill.Text.{
  Text, codes, text_eq, is_empty, split, has_suffix, trim_prefix, trim_suffix,
}

-- The loop over the labels: whether one of them is refused.
unfoldable pub has_bad_label : List Text → Bool
has_bad_label [] = false
has_bad_label (label ∷ labels) = (is_empty label || ltb 63 (length label)) || has_bad_label labels

unfoldable pub blocked_suffixes : List Text
blocked_suffixes =
    codes "localhost" ∷ codes ".local" ∷ codes ".internal" ∷ codes ".lan" ∷ codes ".arpa" ∷ []

-- The loop over `blocked`.
unfoldable pub matches_suffix : Text → List Text → Bool
matches_suffix ascii [] = false
matches_suffix ascii (suffix ∷ suffixes) =
    (text_eq ascii (trim_prefix suffix (codes ".")) || has_suffix ascii suffix)
    || matches_suffix ascii suffixes

unfoldable pub from_option {ℓ} : {A : Type ℓ} → Option A → Error → Fallible A
from_option none e = err e
from_option (some a) e = ok a

-- The checks of the converted name.
unfoldable pub check_ascii : Text → Fallible Text
check_ascii ascii = do
  refuse_if (ltb 253 (length ascii)) name_too_long
  refuse_if (has_bad_label (split ascii b'.')) invalid_label
  refuse_if (matches_suffix ascii blocked_suffixes) blocked_name
  ok ascii

module _ (P : Platform) where
  unfoldable pub canonical_name : Text → Fallible Text
  canonical_name input = do
    let name = trim_suffix (trim_space P input) (codes ".")
    refuse_if (is_empty name) empty_domain_name
    refuse_if (P.is_ip name) ip_literal
    ascii ← from_option (P.to_ascii name) convert_idna
    check_ascii (to_lower P ascii)
