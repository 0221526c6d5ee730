-- ===== src/Compare/Laws.antt =====
-- The class that a comparison reports.
use encrypted_dns_skill.Base.{
  true, false, List, [], ◌∷◌, ◌++◌, ◌≡◌, refl, ap, inl, inr, Bool-cases, All, arith,
}
use encrypted_dns_skill.Compare.{
  has_class, any_class, first_class, precedence, compare_failure_class,
}
use encrypted_dns_skill.Model.{Result}
use encrypted_dns_skill.Text.{Text, codes}

-- Some attempt has the class of an error.
pub data Occurs (class : Text) : List Result → Type 0 where
  here : {r : Result} {l : List Result} → has_class class r.error ≡ true → Occurs class (r ∷ l)
  there : {r : Result} {l : List Result} → Occurs class l → Occurs class (r ∷ l)

-- The class that is reported is the first one in the order that occurs, and `internal` where none
-- does.
pub data IsFirst (classes : List Text) (l : List Result) (class : Text) : Type 0 where
  found :
      (before after : List Text)
      → classes ≡ before ++ class ∷ after
      → All (λ c. Occurs c l → ⊥) before
      → Occurs class l
      → IsFirst classes l class
  not_found : All (λ c. Occurs c l → ⊥) classes → class ≡ codes "internal" → IsFirst classes l class

pub any_class_sound : (class : Text) (l : List Result) → any_class class l ≡ true → Occurs class l
unfolding any_class
any_class_sound class [] h = cc
any_class_sound class (r ∷ l) h = elim (Bool-cases (has_class class r.error)) [
  | inl q ↦ here q
  | inr q ↦ there (any_class_sound class l (rw q at h))
]

pub any_class_complete :
    (class : Text) (l : List Result) → Occurs class l → any_class class l ≡ true
unfolding any_class
any_class_complete class [] o = elim o [ ]
any_class_complete class (r ∷ l) (here q) = rw q
any_class_complete class (r ∷ l) (there o) = ground (arith, any_class_complete class l o)

never : (class : Text) (l : List Result) → any_class class l ≡ false → Occurs class l → ⊥
never class l q o = let e = any_class_complete class l o in ground arith

later :
    {c : Text} {classes : List Text} {l : List Result} {class : Text}
    → any_class c l ≡ false
    → IsFirst classes l class
    → IsFirst (c ∷ classes) l class
later {c} {l = l} q (found before after e none_before o) =
    found (c ∷ before) after (ap (◌∷◌ c) e) (never c l q, none_before) o
later {c} {l = l} q (not_found none_here e) = not_found (never c l q, none_here) e

first_class-IsFirst :
    (classes : List Text) (l : List Result) → IsFirst classes l (first_class classes l)
unfolding first_class
first_class-IsFirst [] l = not_found tt refl
first_class-IsFirst (c ∷ classes) l = elim (Bool-cases (any_class c l)) [
  | inl q ↦ rw (q, first_class) (found [] classes refl tt (any_class_sound c l q))
  | inr q ↦ rw (q, first_class) (later q (first_class-IsFirst classes l))
]

-- The class of the error of a comparison is the first of `internal`, `input`, `transport`,
-- `protocol` and `unsupported` that the error of some attempt has; it is `internal` where no
-- attempt has one of these.
pub failure_class-IsFirst :
    (attempts : List Result) → IsFirst precedence attempts (compare_failure_class attempts)
unfolding compare_failure_class
failure_class-IsFirst attempts = first_class-IsFirst precedence attempts
