-- ===== src/Skill/Name.antt =====
-- The names that the pattern of scripts/validate_skill.py accepts.
use encrypted_dns_skill.Base.{
  ℕ, Bool, true, false, [], ◌∷◌, ◌++◌, append-nil, ◌==◌, ==_iff, ◌≡◌, ◌↔◌, refl, sym, inl, inr,
  arith, Bool-cases,
}
use encrypted_dns_skill.Skill.{is_name_char, match_name}
use encrypted_dns_skill.Text.{Text}

-- One or more small letters and digits.
pub data IsGroup : Text → Type 0 where
  last : (c : ℕ) → is_name_char c ≡ true → IsGroup (c ∷ [])
  more : {s : Text} (c : ℕ) → is_name_char c ≡ true → IsGroup s → IsGroup (c ∷ s)

-- Groups with one hyphen between two.
pub data IsName : Text → Type 0 where
  single : {group : Text} → IsGroup group → IsName group
  hyphen : {group name : Text} → IsGroup group → IsName name → IsName (group ++ b'-' ∷ name)

-- What may follow a character of a group.
data IsRest : Text → Type 0 where
  stop : IsRest []
  char : {s : Text} (c : ℕ) → is_name_char c ≡ true → IsRest s → IsRest (c ∷ s)
  dash : {name : Text} → IsName name → IsRest (b'-' ∷ name)

cons-IsName : {name : Text} (c : ℕ) → is_name_char c ≡ true → IsName name → IsName (c ∷ name)
cons-IsName c h (single group) = single (more c h group)
cons-IsName c h (hyphen group name) = hyphen (more c h group) name

begin-IsName : {s : Text} (c : ℕ) → is_name_char c ≡ true → IsRest s → IsName (c ∷ s)
begin-IsName c h stop = single (last c h)
begin-IsName c h (char d k rest) = cons-IsName c h (begin-IsName d k rest)
begin-IsName c h (dash name) = hyphen (last c h) name

match_name_sound :
    (s : Text) → (match_name true s ≡ true → IsRest s) × (match_name false s ≡ true → IsName s)
unfolding match_name
match_name_sound [] = (λ h. stop, λ h. absurd (ground arith))
match_name_sound (c ∷ s) =
    let (rest, name) = match_name_sound s in
    elim (Bool-cases (is_name_char c)) [
      | inl q ↦ (
        λ h. char c q (rest (rw (q, match_name) at h)),
        λ h. begin-IsName c q (rest (rw (q, match_name) at h)),
      )
      | inr q ↦ elim (Bool-cases (c == b'-')) [
        | inl k ↦ (
          λ h. rw ((==_iff c b'-').0 k) (dash (name (rw (q, k, match_name) at h))),
          λ h. absurd (ground arith),
        )
        | inr k ↦ (λ h. absurd (ground arith), λ h. absurd (ground arith))
      ]
    ]

match_name-append :
    {group : Text} (begun : Bool) (rest : Text)
    → IsGroup group
    → match_name true rest ≡ true
    → match_name begun (group ++ rest) ≡ true
unfolding match_name
match_name-append begun rest (last c q) h = rw q h
match_name-append begun rest (more c q group) h = rw q (match_name-append true rest group h)

match_name_complete : {name : Text} → IsName name → match_name false name ≡ true
unfolding match_name
match_name_complete (single {group} g) =
    rw (sym (append-nil group)) (match_name-append false [] g refl)
match_name_complete (hyphen {group} {name} g n) =
    match_name-append false (b'-' ∷ name) g (match_name_complete n)

-- The pattern accepts groups of small letters and digits with one hyphen between two, and nothing
-- else.
pub match_name-IsName : (s : Text) → (match_name false s ≡ true) ↔ IsName s
match_name-IsName s = ((match_name_sound s).1, match_name_complete)
