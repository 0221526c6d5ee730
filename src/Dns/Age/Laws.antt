-- ===== src/Dns/Age/Laws.antt =====
-- What the age of an HTTP response does to the answers.
use encrypted_dns_skill.Base.{
  if◌then◌else◌, ℕ, ◌-◌, ℤ, pos, negsuc, List, [], ◌∷◌, map, Option, none, some, ◌≡◌, refl, inl,
  inr, Bool-cases, arith, ◌==◌, leb,
}
use encrypted_dns_skill.Dns.Age.{age_ttl, age_answer, age_answers, apply_http_age}
use encrypted_dns_skill.Dns.Answer.{get_field, put_field}
use encrypted_dns_skill.Dns.Answer.Laws.{get-put_self, get-put_ne}
use encrypted_dns_skill.Model.{
  Value, string, uint8, uint16, uint32, strings, params, AnswerRecord, DnsInfo,
}
use encrypted_dns_skill.Text.{Text, codes, text_eq}
use encrypted_dns_skill.Text.Equality.{text-cases, text_eq_refl, text_eq_complete}

-- The seconds that count: none for a negative age.
abbrev pub seconds : ℤ → ℕ
seconds (pos n) = n
seconds (negsuc n) = 0

-- A number of seconds that has aged; a value of another type stays.
abbrev pub aged : ℕ → Option Value → Option Value
aged age (some (uint32 ttl)) = some (uint32 (ttl - age))
aged age v = v

-- What becomes of the field with this key.
abbrev pub aged_field : ℕ → Text → Option Value → Option Value
aged_field age k v = if text_eq k (codes "ttl") then aged age v else v

-- The field `ttl` has aged, and every other field is as before.
abbrev pub IsAged : ℕ → AnswerRecord → AnswerRecord → Type 0
IsAged age before after = (k : Text) → get_field k after ≡ aged_field age k (get_field k before)

-- Two lists of answers of the same length, each of the second an aged one of the first.
abbrev pub AllAged : ℕ → List AnswerRecord → List AnswerRecord → Type 0
AllAged age [] [] = Unit
AllAged age (r ∷ l) (s ∷ m) = IsAged age r s × AllAged age l m
AllAged age _ _ = ⊥

-- Nil stays nil.
abbrev pub AnswersAged : ℕ → Option (List AnswerRecord) → Option (List AnswerRecord) → Type 0
AnswersAged age none none = Unit
AnswersAged age (some l) (some m) = AllAged age l m
AnswersAged age _ _ = ⊥

put-IsAged :
    (age : ℕ) (r : AnswerRecord) (ttl n : ℕ)
    → get_field (codes "ttl") r ≡ some (uint32 ttl)
    → n ≡ ttl - age
    → IsAged age r (put_field (codes "ttl") (uint32 n) r)
put-IsAged age r ttl n h q k = elim (text-cases k (codes "ttl")) [
  | inl e ↦
      rw (e, text_eq_refl (codes "ttl"), h, q) (get-put_self (codes "ttl") (uint32 (ttl - age)) r)
  | inr e ↦
      rw e (get-put_ne k (codes "ttl") (uint32 n) r (λ d. ground (arith, text_eq_complete _ _ d)))
]

-- A field that does not age leaves the record as it is.
kept :
    (age : ℕ) (r : AnswerRecord)
    → get_field (codes "ttl") r ≡ aged age (get_field (codes "ttl") r)
    → IsAged age r r
kept age r h k = elim (text-cases k (codes "ttl")) [
  | inl e ↦ rw (e, text_eq_refl (codes "ttl")) h
  | inr e ↦ rw e refl
]

age_ttl-IsAged :
    (age : ℕ) (r : AnswerRecord) (v : Option Value)
    → get_field (codes "ttl") r ≡ v
    → IsAged age r (age_ttl age r v)
unfolding age_ttl
age_ttl-IsAged age r none h = kept age r (rw h refl)
age_ttl-IsAged age r (some (string x)) h = kept age r (rw h refl)
age_ttl-IsAged age r (some (uint8 x)) h = kept age r (rw h refl)
age_ttl-IsAged age r (some (uint16 x)) h = kept age r (rw h refl)
age_ttl-IsAged age r (some (strings x)) h = kept age r (rw h refl)
age_ttl-IsAged age r (some (params x)) h = kept age r (rw h refl)
age_ttl-IsAged age r (some (uint32 ttl)) h = elim (Bool-cases (leb ttl age)) [
  | inl q ↦ rw (q, age_ttl) (put-IsAged age r ttl 0 h (ground arith))
  | inr q ↦ rw (q, age_ttl) (put-IsAged age r ttl (ttl - age) h refl)
]

age_answers-AllAged : (age : ℕ) (l : List AnswerRecord) → AllAged age l (map (age_answer age) l)
unfolding age_answer
age_answers-AllAged age [] = tt
age_answers-AllAged age (r ∷ l) =
    (age_ttl-IsAged age r (get_field (codes "ttl") r) refl, age_answers-AllAged age l)

aged_zero : (v : Option Value) → v ≡ aged 0 v
aged_zero none = refl
aged_zero (some (string x)) = refl
aged_zero (some (uint8 x)) = refl
aged_zero (some (uint16 x)) = refl
aged_zero (some (uint32 x)) = ground arith
aged_zero (some (strings x)) = refl
aged_zero (some (params x)) = refl

unaged : (l : List AnswerRecord) → AllAged 0 l l
unaged [] = tt
unaged (r ∷ l) = (kept 0 r (aged_zero (get_field (codes "ttl") r)), unaged l)

answers_unaged : (o : Option (List AnswerRecord)) → AnswersAged 0 o o
answers_unaged none = tt
answers_unaged (some l) = unaged l

answers_aged : (age : ℕ) (o : Option (List AnswerRecord)) → AnswersAged age o (age_answers age o)
unfolding age_answers
answers_aged age none = tt
answers_aged age (some l) = age_answers-AllAged age l

-- After `applyHTTPAge` the answers are as many as before and in the same order. In each, a `ttl`
-- that is a `uint32` is less by the age, and 0 where the age is greater; all other fields are the
-- same. A negative age counts as 0.
pub apply_http_age-AnswersAged :
    (d : DnsInfo) (age : ℤ) → AnswersAged (seconds age) d.answers (apply_http_age d age).answers
unfolding apply_http_age
apply_http_age-AnswersAged d (negsuc n) = answers_unaged d.answers
apply_http_age-AnswersAged d (pos n) = elim (Bool-cases (n == 0)) [
  | inl q ↦ let e : n ≡ 0 = ground arith in rw (e, apply_http_age) (answers_unaged d.answers)
  | inr q ↦ rw (q, apply_http_age) (answers_aged n d.answers)
]
