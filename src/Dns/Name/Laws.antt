-- ===== src/Dns/Name/Laws.antt =====
-- `canonicalName`: what the canonical name of an accepted name is.
use encrypted_dns_skill.Base.{
  ◌≤◌, false, ◌||◌, List, [], ◌∷◌, some, ◌≡◌, sym, arith, All, length, ltb,
}
use encrypted_dns_skill.Dns.Name.{
  has_bad_label, blocked_suffixes, matches_suffix, check_ascii, canonical_name,
}
use encrypted_dns_skill.Dns.Query.Laws.{from_option-eq-ok}
use encrypted_dns_skill.Errors.{ok}
use encrypted_dns_skill.Errors.Laws.{refuse_if-eq-ok, >>=-eq-ok, ok-injective}
use encrypted_dns_skill.Platform.{Platform, to_lower, trim_space}
use encrypted_dns_skill.Text.{
  Text, codes, text_eq, is_empty, split, has_suffix, trim_prefix, trim_suffix,
}

abbrev pub IsLabel : Text → Type 0
IsLabel label = (1 ≤ length label) × (length label ≤ 63)

abbrev pub Avoids : Text → Text → Type 0
Avoids ascii suffix =
    (text_eq ascii (trim_prefix suffix (codes ".")) ≡ false) × (has_suffix ascii suffix ≡ false)

-- The limits of DNS, and none of the names that are kept for local use.
pub record IsPublicName (ascii : Text) : Type 0 where
  pub total : length ascii ≤ 253
  pub labels : All IsLabel (split ascii b'.')
  pub public : All (Avoids ascii) blocked_suffixes

IsLabel-length : (l : Text) → (is_empty l || ltb 63 (length l)) ≡ false → IsLabel l
IsLabel-length [] h = cc
IsLabel-length (c ∷ l) h = (omega arith, ground arith)

has_bad_label-false : (l : List Text) → has_bad_label l ≡ false → All IsLabel l
unfolding has_bad_label
has_bad_label-false [] h = tt
has_bad_label-false (x ∷ l) h =
    let p : (is_empty x || ltb 63 (length x)) ≡ false = ground arith in
    (IsLabel-length x p, has_bad_label-false l (ground arith))

matches_suffix-false : (s : Text) (l : List Text) → matches_suffix s l ≡ false → All (Avoids s) l
unfolding matches_suffix
matches_suffix-false s [] h = tt
matches_suffix-false s (x ∷ l) h =
    ((ground arith, ground arith), matches_suffix-false s l (ground arith))

check_ascii-IsPublicName : (s t : Text) → check_ascii s ≡ ok t → (t ≡ s) × IsPublicName s
unfolding check_ascii
check_ascii-IsPublicName s t h =
    let (p1, h1) = refuse_if-eq-ok _ _ _ h in
    let (p2, h2) = refuse_if-eq-ok _ _ _ h1 in
    let (p3, h3) = refuse_if-eq-ok _ _ _ h2 in
    (
      sym (ok-injective h3),
      record {
        total = ground arith;
        labels = has_bad_label-false _ p2;
        public = matches_suffix-false _ _ p3;
      },
    )

module _ (P : Platform) where
  -- An accepted name, without its surrounding space and its final dot, is not empty and not an IP
  -- literal. Its canonical name is what IDNA converts it to, in lower case: at most 253 bytes, in
  -- labels of 1 to 63 bytes, none of the blocked names and with none of the blocked suffixes.
  pub canonical_name-IsPublicName :
      (input ascii : Text)
      → canonical_name P input ≡ ok ascii
      → let name = trim_suffix (trim_space P input) (codes ".") in
        (is_empty name ≡ false)
        × (P.is_ip name ≡ false)
        × ((raw : Text) × (P.to_ascii name ≡ some raw) × (ascii ≡ to_lower P raw))
        × IsPublicName ascii
  unfolding canonical_name
  canonical_name-IsPublicName input ascii h =
      let (p1, h1) = refuse_if-eq-ok _ _ _ h in
      let (p2, h2) = refuse_if-eq-ok _ _ _ h1 in
      let (raw, q, h3) = >>=-eq-ok _ _ h2 in
      let (e, public) = check_ascii-IsPublicName (to_lower P raw) ascii h3 in
      (p1, p2, (raw, from_option-eq-ok _ _ q, e), rw e public)
