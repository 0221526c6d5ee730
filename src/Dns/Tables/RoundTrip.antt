-- ===== src/Dns/Tables/RoundTrip.antt =====
-- The table of record types, read in both directions.
use encrypted_dns_skill.Base.{
  ℕ, Bool, true, false, not, ◌&&◌, List, [], ◌∷◌, some, ◌≡◌, refl, arith, ◌==◌, Bool-cases, inl,
  inr,
}
use encrypted_dns_skill.Dns.Tables.{record_types, lookup_type, record_type, type_name_in, type_name}
use encrypted_dns_skill.Text.{Text, text_eq}
use encrypted_dns_skill.Text.Equality.{text_eq_sound}

-- No entry has the number.
lacks_type : List (Text × ℕ) → ℕ → Bool
lacks_type [] t = true
lacks_type ((name, value) ∷ m) t = not (value == t) && lacks_type m t

-- No number stands twice.
distinct_types : List (Text × ℕ) → Bool
distinct_types [] = true
distinct_types ((name, value) ∷ m) = lacks_type m value && distinct_types m

lacks-lookup :
    (k : Text) (m : List (Text × ℕ)) (t : ℕ) → lookup_type k m ≡ some t → lacks_type m t ≡ false
unfolding lookup_type lacks_type
lacks-lookup k [] t h = cc
lacks-lookup k ((name, value) ∷ m) t h = elim (Bool-cases (text_eq k name)) [
  | inl q ↦ ground arith
  | inr q ↦ ground (arith, lacks-lookup k m t)
]

type_name-lookup :
    (k : Text) (m : List (Text × ℕ)) (t : ℕ)
    → distinct_types m ≡ true
    → lookup_type k m ≡ some t
    → type_name_in m t ≡ k
unfolding lookup_type type_name_in distinct_types
type_name-lookup k [] t d h = cc
type_name-lookup k ((name, value) ∷ m) t d h = elim (Bool-cases (text_eq k name)) [
  | inl q ↦ ground (arith, text_eq_sound k name q)
  | inr q ↦ ground (arith, lacks-lookup k m t, type_name-lookup k m t)
]

-- The name of the number of a supported record type is that type: `typeName` undoes the map
-- `recordTypes`.
pub type_name-record_type : (k : Text) (t : ℕ) → record_type k ≡ some t → type_name t ≡ k
unfolding record_type type_name record_types distinct_types lacks_type
type_name-record_type k t h = type_name-lookup k record_types t refl h
