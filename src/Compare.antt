-- ===== src/Compare.antt =====
-- internal/edns/compare.go: several queries that run at once. A goroutine for each target writes
-- its own slot of the attempts. `schedule` is the order in which the goroutines finish, and
-- `outcome i` is what the query of target `i` returns, which may differ from run to run.
pub mod Schedule
pub mod Summary
pub mod Laws
pub mod Classes
use encrypted_dns_skill.Base.{
  ℕ, ◌+◌, ◌*◌, ℤ, pos, Bool, true, false, not, ◌&&◌, ◌||◌, List, [], ◌∷◌, Option, none, some, ◌==◌,
  ltb, ltℤ, if◌then◌else◌, length, get_elem?, set, replicate,
}
use encrypted_dns_skill.Dns.Query.{Random, Built, build_query}
use encrypted_dns_skill.Errors.{
  Error, max_attempts_range, too_few_targets, too_many_targets, attempt_timeout_range,
  compare_context, attempts_incomplete, Fallible, ok, err, ◌>>=◌, ◌>>◌, refuse_if,
}
use encrypted_dns_skill.Model.{
  QueryOptions, CompareTarget, CompareOptions, QueryInfo, ErrorInfo, Result, CompareSummary,
  CompareResult, no_query, no_result,
}
use encrypted_dns_skill.Platform.{Platform}
use encrypted_dns_skill.Text.{Text, codes, text_eq}

-- A duration of so many milliseconds.
abbrev pub milliseconds : ℕ → ℤ
milliseconds n = pos (n * 1_000_000)

abbrev pub Outcome : Type 0
Outcome = ℕ → QueryOptions → Result

abbrev pub no_summary : CompareSummary
no_summary = record { total = 0; completed = 0; failed = 0; unsupported = 0 }

-- The options of the query of one target.
unfoldable pub attempt_options : CompareOptions → CompareTarget → QueryOptions
attempt_options options target = record {
  name = options.name;
  record_type = options.record_type;
  protocol = target.protocol;
  provider = target.provider;
  method = target.method;
  proxy = options.proxy;
}

-- The goroutine of target `i` finishes.
unfoldable pub finish_attempt : Outcome → CompareOptions → ℕ → List Result → List Result
finish_attempt outcome options i attempts = elim (get_elem? options.targets i) [
  | none ↦ attempts
  | some target ↦ set attempts i (outcome i (attempt_options options target))
]

unfoldable pub run_schedule : Outcome → CompareOptions → List ℕ → List Result → List Result
run_schedule outcome options [] attempts = attempts
run_schedule outcome options (i ∷ schedule) attempts =
    run_schedule outcome options schedule (finish_attempt outcome options i attempts)

-- From `make([]Result, len(options.Targets))` to `waitGroup.Wait()`.
unfoldable pub run_attempts : Outcome → CompareOptions → List ℕ → List Result
run_attempts outcome options schedule =
    run_schedule outcome options schedule (replicate (length options.targets) no_result)

abbrev pub has_class : Text → Option ErrorInfo → Bool
has_class class none = false
has_class class (some e) = text_eq e.class class

-- One round of the loop over the attempts.
unfoldable pub count_attempt : Result → CompareSummary → CompareSummary
count_attempt attempt s =
    if attempt.completed then record s { completed = s.completed + 1 } else record s {
      failed = s.failed + 1;
      unsupported =
          if has_class (codes "unsupported") attempt.error
          then s.unsupported + 1
          else s.unsupported;
    }

unfoldable pub summarize : List Result → CompareSummary → CompareSummary
summarize [] s = s
summarize (attempt ∷ attempts) s = summarize attempts (count_attempt attempt s)

-- `classes[class]`
unfoldable pub any_class : Text → List Result → Bool
any_class class [] = false
any_class class (attempt ∷ attempts) = has_class class attempt.error || any_class class attempts

-- The loop over the classes in the order of their precedence.
unfoldable pub first_class : List Text → List Result → Text
first_class [] attempts = codes "internal"
first_class (class ∷ classes) attempts =
    if any_class class attempts then class else first_class classes attempts

abbrev pub precedence : List Text
precedence =
    codes "internal"
    ∷ codes "input"
    ∷ codes "transport"
    ∷ codes "protocol"
    ∷ codes "unsupported"
    ∷ []

unfoldable pub compare_failure_class : List Result → Text
compare_failure_class attempts = first_class precedence attempts

-- The tests of the options.
unfoldable pub check_options : CompareOptions → Fallible (Unit {0})
check_options options = do
  refuse_if (ltℤ options.max_attempts (pos 2) || ltℤ (pos 8) options.max_attempts)
      max_attempts_range
  refuse_if (ltb (length options.targets) 2) too_few_targets
  refuse_if (ltℤ options.max_attempts (pos (length options.targets)))
      (too_many_targets (length options.targets) options.max_attempts)
  refuse_if
      (ltℤ options.attempt_timeout (milliseconds 250)
        || ltℤ (milliseconds 30_000) options.attempt_timeout)
      attempt_timeout_range

unfoldable pub compare_failed : Text → Error → CompareResult → CompareResult
compare_failed class e result = record result {
  error = some (record { class = class; message = e });
}

unfoldable pub initial_compare : QueryInfo → CompareResult
initial_compare query = record {
  schema_version = 1;
  operation = codes "compare";
  completed = false;
  query = query;
  attempts = [];
  summary = no_summary;
  error = none;
}

-- The end of `compareWithQuery`, behind the loop that counts.
unfoldable pub conclude : CompareResult → CompareResult
conclude result =
    if result.summary.completed == result.summary.total
    then record result { completed = true }
    else compare_failed (compare_failure_class result.attempts)
        (attempts_incomplete result.summary.failed result.summary.total)
        (record result { completed = false })

-- From the counting of the targets on; `context` is `ctx.Err()`.
unfoldable pub run_comparison :
    Option Error → CompareOptions → List ℕ → Outcome → CompareResult → CompareResult
run_comparison context options schedule outcome result =
    let total = record no_summary { total = length options.targets } in
    elim context [
      | some e ↦
          compare_failed (codes "transport") (compare_context e) (record result { summary = total })
      | none ↦
          let attempts = run_attempts outcome options schedule in
          conclude (record result { attempts = attempts; summary = summarize attempts total })
    ]

module _ (P : Platform) where
  -- `compareWithQuery`
  unfoldable pub compare_with_query :
      Random → Option Error → CompareOptions → List ℕ → Outcome → CompareResult
  compare_with_query random context options schedule outcome =
      elim (build_query P random options.name options.record_type) [
        | err e ↦
            compare_failed (codes "input") e
              (initial_compare (record { name = options.name; qtype = options.record_type }))
        | ok built ↦ elim (check_options options) [
          | err e ↦ compare_failed (codes "input") e (initial_compare built.query)
          | ok _ ↦ run_comparison context options schedule outcome (initial_compare built.query)
        ]
      ]
