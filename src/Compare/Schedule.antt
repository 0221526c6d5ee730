-- ===== src/Compare/Schedule.antt =====
-- The attempts do not depend on the order in which the goroutines finish.
use encrypted_dns_skill.Base.{
  ℕ, zero, suc, ◌+◌, ◌<◌, Bool, true, false, ◌||◌, List, [], ◌∷◌, ◌≡◌, ◌≢◌, refl, ap, ◌∙◌, sym,
  Option, none, some, inl, inr, arith, ◌==◌, length, get_elem?, length-set, replicate,
  length-replicate, get_elem?-set_self, get_elem?-set_ne, get_elem?_ext, Bool-cases, Option-cases,
}
use mathlib.Core.Option
use mathlib.Core.Path.{subst}
use encrypted_dns_skill.Compare.{
  Outcome, attempt_options, finish_attempt, run_schedule, run_attempts,
}
use encrypted_dns_skill.Model.{CompareTarget, CompareOptions, Result, no_result}

-- Whether the goroutine of target `i` is among those that finish.
unfoldable pub finishes : List ℕ → ℕ → Bool
finishes [] i = false
finishes (j ∷ schedule) i = j == i || finishes schedule i

-- The outcomes of the targets from number `i` on, in the order of the targets.
unfoldable pub outcomes : Outcome → CompareOptions → ℕ → List CompareTarget → List Result
outcomes outcome options i [] = []
outcomes outcome options i (t ∷ ts) =
    outcome i (attempt_options options t) ∷ outcomes outcome options (suc i) ts

module _ (outcome : Outcome) (options : CompareOptions) where
  abbrev expected : ℕ → Option CompareTarget → Option Result
  expected i none = none
  expected i (some t) = some (outcome i (attempt_options options t))

  get_elem?-none :
      {A : Type 0} {B : Type 0} (xs : List A) (ys : List B) (i : ℕ)
      → length xs ≡ length ys
      → get_elem? xs i ≡ none
      → get_elem? ys i ≡ none
  get_elem?-none [] [] i h e = refl
  get_elem?-none [] (y ∷ ys) i h e = absurd (omega arith)
  get_elem?-none (x ∷ xs) [] i h e = refl
  get_elem?-none (x ∷ xs) (y ∷ ys) zero h e = cc
  get_elem?-none (x ∷ xs) (y ∷ ys) (suc i) h e = get_elem?-none xs ys i (omega arith) e

  lt_of_some : {A : Type 0} (xs : List A) (i : ℕ) {a : A} → get_elem? xs i ≡ some a → i < length xs
  lt_of_some [] i e = cc
  lt_of_some (x ∷ xs) zero e = omega arith
  lt_of_some (x ∷ xs) (suc i) e = omega (arith, lt_of_some xs i e)

  length-finish_attempt :
      (i : ℕ) (l : List Result) → length (finish_attempt outcome options i l) ≡ length l
  unfolding finish_attempt
  length-finish_attempt i l = elim (Option-cases (get_elem? options.targets i)) [
    | inl q ↦ rw (q, finish_attempt)
    | inr (t, q) ↦ rw (q, finish_attempt) (length-set l i _)
  ]

  get_elem?-finish_attempt_self :
      (j : ℕ) (l : List Result)
      → length l ≡ length options.targets
      → get_elem? (finish_attempt outcome options j l) j ≡ expected j (get_elem? options.targets j)
  unfolding finish_attempt
  get_elem?-finish_attempt_self j l h = elim (Option-cases (get_elem? options.targets j)) [
    | inl q ↦ rw (q, finish_attempt) (get_elem?-none options.targets l j (omega arith) q)
    | inr (t, q) ↦
        let fits : j < length l = omega (arith, lt_of_some options.targets j q) in
        rw (q, finish_attempt) (get_elem?-set_self l j _ fits)
  ]

  get_elem?-finish_attempt_ne :
      (j i : ℕ) (l : List Result)
      → j ≢ i
      → get_elem? (finish_attempt outcome options j l) i ≡ get_elem? l i
  unfolding finish_attempt
  get_elem?-finish_attempt_ne j i l h = elim (Option-cases (get_elem? options.targets j)) [
    | inl q ↦ rw (q, finish_attempt)
    | inr (t, q) ↦ rw (q, finish_attempt) (get_elem?-set_ne l _ h)
  ]

  pub length-run_schedule :
      (schedule : List ℕ) (l : List Result)
      → length (run_schedule outcome options schedule l) ≡ length l
  unfolding run_schedule
  length-run_schedule [] l = refl
  length-run_schedule (j ∷ schedule) l =
      length-run_schedule schedule (finish_attempt outcome options j l) ∙ length-finish_attempt j l

  -- A slot that was written keeps its outcome.
  run_schedule_kept :
      (schedule : List ℕ) (i : ℕ) (l : List Result)
      → length l ≡ length options.targets
      → get_elem? l i ≡ expected i (get_elem? options.targets i)
      → get_elem? (run_schedule outcome options schedule l) i
        ≡ expected i (get_elem? options.targets i)
  unfolding run_schedule
  run_schedule_kept [] i l h k = k
  run_schedule_kept (j ∷ schedule) i l h k =
      run_schedule_kept schedule i (finish_attempt outcome options j l)
        (length-finish_attempt j l ∙ h)
        (elim (Bool-cases (j == i)) [
          | inl t ↦
              let same : j ≡ i = ground arith in
              subst
                (λ n.
                  get_elem? (finish_attempt outcome options j l) n
                  ≡ expected n (get_elem? options.targets n))
                same (get_elem?-finish_attempt_self j l h)
          | inr t ↦ get_elem?-finish_attempt_ne j i l (ground arith) ∙ k
        ])

  run_schedule_finished :
      (schedule : List ℕ) (i : ℕ) (l : List Result)
      → length l ≡ length options.targets
      → finishes schedule i ≡ true
      → get_elem? (run_schedule outcome options schedule l) i
        ≡ expected i (get_elem? options.targets i)
  unfolding run_schedule finishes
  run_schedule_finished [] i l h k = cc
  run_schedule_finished (j ∷ schedule) i l h k = elim (Bool-cases (j == i)) [
    | inl t ↦
        let same : j ≡ i = ground arith in
        run_schedule_kept schedule i (finish_attempt outcome options j l)
          (length-finish_attempt j l ∙ h)
          (subst
            (λ n.
              get_elem? (finish_attempt outcome options j l) n
              ≡ expected n (get_elem? options.targets n))
            same (get_elem?-finish_attempt_self j l h))
    | inr t ↦
        run_schedule_finished schedule i (finish_attempt outcome options j l)
          (length-finish_attempt j l ∙ h) (ground arith)
  ]

  get_elem?-outcomes :
      (k i : ℕ) (ts : List CompareTarget)
      → get_elem? (outcomes outcome options k ts) i
        ≡ Option.map (λ t. outcome (k + i) (attempt_options options t)) (get_elem? ts i)
  unfolding outcomes
  get_elem?-outcomes k i [] = refl
  get_elem?-outcomes k zero (t ∷ ts) =
      let e : k ≡ k + 0 = omega arith in ap (λ n. some (outcome n (attempt_options options t))) e
  get_elem?-outcomes k (suc i) (t ∷ ts) =
      let e : suc k + i ≡ k + suc i = omega arith in
      get_elem?-outcomes (suc k) i ts
      ∙ ap (λ n. Option.map (λ t. outcome n (attempt_options options t)) (get_elem? ts i)) e

  expected-map :
      (i : ℕ) (o : Option CompareTarget)
      → Option.map (λ t. outcome (0 + i) (attempt_options options t)) o ≡ expected i o
  expected-map i none = refl
  expected-map i (some t) =
      let e : 0 + i ≡ i = omega arith in ap (λ n. some (outcome n (attempt_options options t))) e

  attempts-at :
      (schedule : List ℕ)
      → ((i : ℕ) → i < length options.targets → finishes schedule i ≡ true)
      → (i : ℕ)
      → get_elem? (run_attempts outcome options schedule) i
        ≡ get_elem? (outcomes outcome options 0 options.targets) i
  unfolding run_attempts
  attempts-at schedule covers i =
      let fresh = replicate (length options.targets) no_result in
      let long : length fresh ≡ length options.targets =
        length-replicate (length options.targets) no_result in
      let want =
        get_elem?-outcomes 0 i options.targets ∙ expected-map i (get_elem? options.targets i) in
      elim (Option-cases (get_elem? options.targets i)) [
        | inr (t, q) ↦
            run_schedule_finished schedule i fresh long (covers i (lt_of_some options.targets i q))
            ∙ sym want
        | inl q ↦
            run_schedule_kept schedule i fresh long
              (get_elem?-none options.targets fresh i (sym long) q ∙ rw q)
            ∙ sym want
      ]

  -- Whatever the order in which the goroutines finish, if that of every target does, the attempts
  -- are the outcomes of the targets, one for each and in the order of the targets.
  pub run_attempts-outcomes :
      (schedule : List ℕ)
      → ((i : ℕ) → i < length options.targets → finishes schedule i ≡ true)
      → run_attempts outcome options schedule ≡ outcomes outcome options 0 options.targets
  run_attempts-outcomes schedule covers = get_elem?_ext _ _ (attempts-at schedule covers)
