-- ===== src/Compare/Summary.antt =====
-- The summary of a comparison, and when it is completed.
use encrypted_dns_skill.Base.{
  ℕ, ◌+◌, ◌<◌, Bool, true, false, not, ◌&&◌, List, [], ◌∷◌, ◌≡◌, ◌↔◌, refl, ◌∙◌, sym, Option, none,
  some, inl, inr, arith, ◌==◌, if◌then◌else◌, length, length-replicate, replicate, Bool-cases,
}
use encrypted_dns_skill.Compare.{
  Outcome, has_class, no_summary, count_attempt, summarize, check_options, compare_failed,
  initial_compare, conclude, run_comparison, compare_with_query, run_attempts,
}
use encrypted_dns_skill.Compare.Schedule.{length-run_schedule}
use encrypted_dns_skill.Dns.Query.{Random, build_query}
use encrypted_dns_skill.Errors.{Error, ok}
use encrypted_dns_skill.Errors.Laws.{Fallible-cases}
use encrypted_dns_skill.Model.{CompareOptions, CompareSummary, CompareResult, Result, no_result}
use encrypted_dns_skill.Platform.{Platform}
use encrypted_dns_skill.Text.{Text, codes}

-- How many attempts pass a test.
unfoldable pub count : (Result → Bool) → List Result → ℕ
count p [] = 0
count p (r ∷ l) = (if p r then 1 else 0) + count p l

abbrev pub is_unsupported_failure : Result → Bool
is_unsupported_failure r = not r.completed && has_class (codes "unsupported") r.error

-- The summary counts the attempts, and the comparison is completed if and only if it made
-- attempts and all of them are.
pub record IsTallied (r : CompareResult) : Type 0 where
  pub completed_counted : r.summary.completed ≡ count (λ a. a.completed) r.attempts
  pub failed_counted : r.summary.failed ≡ count (λ a. not a.completed) r.attempts
  pub unsupported_counted : r.summary.unsupported ≡ count is_unsupported_failure r.attempts
  pub total_met : r.summary.completed + r.summary.failed ≡ length r.attempts
  pub settled : (r.completed ≡ true) ↔ (r.error ≡ none)
  pub decided : (r.completed ≡ true) ↔ ((0 < length r.attempts) × (r.summary.failed ≡ 0))

pub count-not :
    (l : List Result) → count (λ a. a.completed) l + count (λ a. not a.completed) l ≡ length l
unfolding count
count-not [] = refl
count-not (r ∷ l) = ground (arith, count-not l)

pub summarize-completed :
    (l : List Result) (s : CompareSummary)
    → (summarize l s).completed ≡ s.completed + count (λ a. a.completed) l
unfolding summarize count_attempt count
summarize-completed [] s = omega arith
summarize-completed (r ∷ l) s = ground (arith, summarize-completed l (count_attempt r s))

summarize-failed :
    (l : List Result) (s : CompareSummary)
    → (summarize l s).failed ≡ s.failed + count (λ a. not a.completed) l
unfolding summarize count_attempt count
summarize-failed [] s = omega arith
summarize-failed (r ∷ l) s = ground (arith, summarize-failed l (count_attempt r s))

summarize-unsupported :
    (l : List Result) (s : CompareSummary)
    → (summarize l s).unsupported ≡ s.unsupported + count is_unsupported_failure l
unfolding summarize count_attempt count
summarize-unsupported [] s = omega arith
summarize-unsupported (r ∷ l) s = ground (arith, summarize-unsupported l (count_attempt r s))

pub summarize-total : (l : List Result) (s : CompareSummary) → (summarize l s).total ≡ s.total
unfolding summarize count_attempt
summarize-total [] s = refl
summarize-total (r ∷ l) s = ground (arith, summarize-total l (count_attempt r s))

pub length-run_attempts :
    (outcome : Outcome) (o : CompareOptions) (schedule : List ℕ)
    → length (run_attempts outcome o schedule) ≡ length o.targets
unfolding run_attempts
length-run_attempts outcome o schedule =
    length-run_schedule outcome o schedule (replicate (length o.targets) no_result)
    ∙ length-replicate (length o.targets) no_result

refused-IsTallied :
    (class : Text) (e : Error) (r : CompareResult)
    → r.attempts ≡ []
    → r.summary.completed ≡ 0
    → r.summary.failed ≡ 0
    → r.summary.unsupported ≡ 0
    → r.completed ≡ false
    → IsTallied (compare_failed class e r)
unfolding compare_failed count
refused-IsTallied class e r a c f u d = record {
  completed_counted = rw (a, c);
  failed_counted = rw (a, f);
  unsupported_counted = rw (a, u);
  total_met = rw (a, c, f);
  settled = ground arith;
  decided = ground arith;
}

conclude-IsTallied :
    (r : CompareResult)
    → r.summary.completed ≡ count (λ a. a.completed) r.attempts
    → r.summary.failed ≡ count (λ a. not a.completed) r.attempts
    → r.summary.unsupported ≡ count is_unsupported_failure r.attempts
    → r.summary.total ≡ length r.attempts
    → 0 < length r.attempts
    → r.error ≡ none
    → IsTallied (conclude r)
unfolding conclude compare_failed
conclude-IsTallied r c f u n some' e =
    let whole = count-not r.attempts in
    elim (Bool-cases (r.summary.completed == r.summary.total)) [
      | inl t ↦
          rw (t, conclude)
            (record {
              completed_counted = c;
              failed_counted = f;
              unsupported_counted = u;
              total_met = omega arith;
              settled = (λ _. e, λ _. refl);
              decided = (λ _. (some', ground arith), λ _. refl);
            })
      | inr t ↦
          rw (t, conclude)
            (record {
              completed_counted = c;
              failed_counted = f;
              unsupported_counted = u;
              total_met = omega arith;
              settled = ground arith;
              decided = ground arith;
            })
    ]

module _ (options : CompareOptions) where
  many_targets : check_options options ≡ ok tt → 0 < length options.targets
  unfolding check_options
  many_targets h = ground arith

  run_comparison-IsTallied :
      (context : Option Error) (schedule : List ℕ) (outcome : Outcome) (r : CompareResult)
      → 0 < length options.targets
      → r.attempts ≡ []
      → r.completed ≡ false
      → r.error ≡ none
      → IsTallied (run_comparison context options schedule outcome r)
  unfolding run_comparison
  run_comparison-IsTallied (some e) schedule outcome r h a d n =
      refused-IsTallied _ _ _ a refl refl refl d
  run_comparison-IsTallied none schedule outcome r h a d n =
      let l = run_attempts outcome options schedule in
      let start = record no_summary { total = length options.targets } in
      let long : length l ≡ length options.targets = length-run_attempts outcome options schedule in
      conclude-IsTallied _ (omega (arith, summarize-completed l start))
        (omega (arith, summarize-failed l start)) (omega (arith, summarize-unsupported l start))
        (summarize-total l start ∙ sym long) (omega arith) n

-- For every comparison, whatever its options, context, schedule and outcomes: the summary counts
-- the completed attempts, the others, and those of the others that are unsupported; together the
-- first two are the attempts. The result is completed if and only if it has no error, and if and
-- only if there are attempts and none of them failed.
pub compare-IsTallied :
    (P : Platform) (random : Random) (context : Option Error) (options : CompareOptions)
    (schedule : List ℕ) (outcome : Outcome)
    → IsTallied (compare_with_query P random context options schedule outcome)
unfolding compare_with_query initial_compare
compare-IsTallied P random context options schedule outcome =
    elim (Fallible-cases (build_query P random options.name options.record_type)) [
      | inr (e, q) ↦ rw (q, compare_with_query) (refused-IsTallied _ e _ refl refl refl refl refl)
      | inl (b, q) ↦ elim (Fallible-cases (check_options options)) [
        | inr (e, k) ↦
            rw (q, k, compare_with_query) (refused-IsTallied _ e _ refl refl refl refl refl)
        | inl (u, k) ↦
            rw (q, k, compare_with_query)
              (run_comparison-IsTallied options context schedule outcome _ (many_targets options k)
                refl refl refl)
      ]
    ]
