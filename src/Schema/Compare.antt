-- ===== src/Schema/Compare.antt =====
-- The result of `Compare`: for which options, and when, its JSON value conforms to the schema.
use encrypted_dns_skill.Base.{
  ℕ, suc, ◌<◌, ◌≤◌, true, List, [], ◌∷◌, Option, none, some, ◌≡◌, ◌↔◌, refl, inl, inr, arith, All,
  length, Bool-cases, ◌==◌,
}
use encrypted_dns_skill.Capability.{known_protocol}
use encrypted_dns_skill.Compare.{
  Outcome, compare_with_query, check_options, compare_failed, initial_compare, conclude,
  run_comparison, run_attempts, attempt_options,
}
use encrypted_dns_skill.Compare.Classes.{
  IsQueryClass, is_input, is_transport, is_protocol, is_unsupported, IsReported, all_completed,
  reported, real_queries, compare-IsReported,
}
use encrypted_dns_skill.Compare.Schedule.{finishes, outcomes, run_attempts-outcomes}
use encrypted_dns_skill.Compare.Summary.{compare-IsTallied, length-run_attempts}
use encrypted_dns_skill.Dns.Query.{Random, build_query}
use encrypted_dns_skill.Dns.Query.Laws.{build_query-IsBuilt}
use encrypted_dns_skill.Errors.{Error, ok}
use encrypted_dns_skill.Errors.Laws.{Fallible-cases}
use encrypted_dns_skill.Json.Encode.{compare_json}
use encrypted_dns_skill.Model.{QueryInfo, CompareTarget, CompareOptions, CompareResult, Result}
use encrypted_dns_skill.Platform.{Platform}
use encrypted_dns_skill.Query.{Exchange}
use encrypted_dns_skill.Query.Laws.Completed.{HasClass, NilOnProtocol, query_nil_answers}
use encrypted_dns_skill.Schema.{is_listed, conforms}
use encrypted_dns_skill.Schema.Carried.{Reports, record_type-listed}
use encrypted_dns_skill.Schema.Comparison.{HasAnswers, comparison-conforms}
use encrypted_dns_skill.Schema.Query.{query-IsReportable}
use encrypted_dns_skill.Schema.Replies.{UnpacksBodies}
use encrypted_dns_skill.Schema.Result.{query_types, error_classes, result_v1}
use encrypted_dns_skill.Schema.Single.{HasListedClass, IsReportable}
use encrypted_dns_skill.Text.{Text, codes, text_eq}
use encrypted_dns_skill.Transport.Network.{Network, network_exchange}
use encrypted_dns_skill.Transport.Network.Dispatch.{network_exchange-IsReport}

-- The result of a query that is reportable.
abbrev IsAttempt : Result → Type 0
IsAttempt r = IsReportable r × NilOnProtocol r

abbrev pub IsNoProtocolError : Result → Type 0
IsNoProtocolError r = ¬ HasClass (codes "protocol") r.error

attempts-IsReportable : (l : List Result) → All IsAttempt l → All IsReportable l
attempts-IsReportable [] h = tt
attempts-IsReportable (r ∷ l) ((a, n), h) = (a, attempts-IsReportable l h)

answers_iff : (l : List Result) → All IsAttempt l → All HasAnswers l ↔ All IsNoProtocolError l
answers_iff [] h = (λ a. tt, λ a. tt)
answers_iff (r ∷ l) ((_, nil), h) =
    let (there, back) = answers_iff l h in
    (λ (a, as'). (λ e. a (nil.1 e), there as'), λ (a, as'). (λ e. a (nil.0 e), back as'))

-- What does not depend on how a comparison ends.
record HasCompareParts (v : ℕ) (op : Text) (q : QueryInfo) (l : List Result) : Type 0 where
  version : v ≡ 1
  operated : op ≡ codes "compare"
  typed : is_listed query_types q.qtype ≡ true
  few : length l ≤ 8
  reportable : All IsAttempt l

-- A comparison in the making.
abbrev IsCarriedComparison : CompareResult → Type 0
IsCarriedComparison c = HasCompareParts c.schema_version c.operation c.query c.attempts

conclude-IsCarriedComparison :
    (c : CompareResult) → IsCarriedComparison c → IsCarriedComparison (conclude c)
unfolding conclude compare_failed
conclude-IsCarriedComparison c h = elim (Bool-cases (c.summary.completed == c.summary.total)) [
  | inl q ↦ rw (q, conclude) h
  | inr q ↦ rw (q, conclude) h
]

initial-IsCarriedComparison :
    (q : QueryInfo) → is_listed query_types q.qtype ≡ true → IsCarriedComparison (initial_compare q)
unfolding initial_compare
initial-IsCarriedComparison q typed = record {
  version = refl;
  operated = refl;
  typed = typed;
  few = omega arith;
  reportable = tt;
}

outcomes-IsAttempt :
    (outcome : Outcome) (options : CompareOptions) (i : ℕ) (ts : List CompareTarget)
    → All (λ t. known_protocol t.protocol ≡ true) ts
    → ((i : ℕ) (t : CompareTarget)
        → known_protocol t.protocol ≡ true
        → IsAttempt (outcome i (attempt_options options t)))
    → All IsAttempt (outcomes outcome options i ts)
unfolding outcomes
outcomes-IsAttempt outcome options i [] ks h = tt
outcomes-IsAttempt outcome options i (t ∷ ts) (k, ks) h =
    (h i t k, outcomes-IsAttempt outcome options (suc i) ts ks h)

few_targets :
    (options : CompareOptions) → check_options options ≡ ok tt → length options.targets ≤ 8
unfolding check_options
few_targets options h = ground arith

module _ (P : Platform) (randoms : ℕ → Random) (exchanges : ℕ → Exchange)
    (unpacks : UnpacksBodies P) (reports : (i : ℕ) → Reports P (exchanges i))
    (options : CompareOptions) (schedule : List ℕ)
    (covers : (i : ℕ) → i < length options.targets → finishes schedule i ≡ true)
    (known : All (λ t. known_protocol t.protocol ≡ true) options.targets)
    (typed : is_listed query_types options.record_type ≡ true) where
  attempts-IsAttempt :
      All IsAttempt (run_attempts (real_queries P randoms exchanges) options schedule)
  unfolding attempt_options
  attempts-IsAttempt =
      let outcome = real_queries P randoms exchanges in
      rw (run_attempts-outcomes outcome options schedule covers) (
        outcomes-IsAttempt outcome options 0 options.targets known (λ i t k. (
          query-IsReportable P (exchanges i) unpacks (reports i) (randoms i)
              (attempt_options options t) k typed,
          query_nil_answers P (randoms i) (attempt_options options t) (exchanges i),
        )))

  run_comparison-IsCarried :
      (context : Option Error) (c : CompareResult)
      → check_options options ≡ ok tt
      → IsCarriedComparison c
      → IsCarriedComparison
          (run_comparison context options schedule (real_queries P randoms exchanges) c)
  unfolding run_comparison compare_failed
  run_comparison-IsCarried (some e) c few h = h
  run_comparison-IsCarried none c few h = conclude-IsCarriedComparison _ (record {
    version = h.version;
    operated = h.operated;
    typed = h.typed;
    few =
        let long = length-run_attempts (real_queries P randoms exchanges) options schedule in
        rw long (few_targets options few);
    reportable = attempts-IsAttempt;
  })

  compare-IsCarried :
      (random : Random) (context : Option Error)
      → IsCarriedComparison
          (compare_with_query P random context options schedule (real_queries P randoms exchanges))
  unfolding compare_with_query compare_failed
  compare-IsCarried random context =
      elim (Fallible-cases (build_query P random options.name options.record_type)) [
        | inr (e, q) ↦ rw (q, compare_with_query) (initial-IsCarriedComparison _ typed)
        | inl (b, q) ↦
            let facts = build_query-IsBuilt P random options.name options.record_type b q in
            let listed : is_listed query_types b.query.qtype ≡ true =
              rw facts.typed (record_type-listed _ facts.numbered) in
            let fresh = initial-IsCarriedComparison b.query listed in
            elim (Fallible-cases (check_options options)) [
              | inr (e, k) ↦ rw (q, k, compare_with_query) fresh
              | inl (u, k) ↦
                  rw (q, k, compare_with_query) (run_comparison-IsCarried context _ k fresh)
            ]
      ]

query_class-listed : (class : Text) → IsQueryClass class → is_listed error_classes class ≡ true
unfolding error_classes text_eq
query_class-listed class (is_input e) = rw e refl
query_class-listed class (is_transport e) = rw e refl
query_class-listed class (is_protocol e) = rw e refl
query_class-listed class (is_unsupported e) = rw e refl

reported-listed :
    (c : CompareResult)
    → (c.completed ≡ true) ↔ (c.error ≡ none)
    → IsReported c
    → HasListedClass c.error
reported-listed c s (all_completed q) = rw (s.0 q) tt
reported-listed c s (reported e q h k) = rw h (query_class-listed e.class k)

module _ {M : Type 0} (P : Platform) (networks : ℕ → Network M) (f : Error → Text)
    (unpacks : UnpacksBodies P) where
  -- Whatever the networks do, and in whatever order all the goroutines finish: for options whose
  -- targets have known protocols and whose record type is spelled as the schema spells it, the JSON
  -- value of the result of a comparison conforms to the schema result-v1 if and only if no attempt
  -- has an error of the class `protocol`. The package dnsmessage is taken to unpack each body as the
  -- struct of its type, with 16-bit numbers and bytes in their ranges.
  pub compare-conforms_iff :
      (random : Random) (randoms : ℕ → Random) (context : Option Error) (options : CompareOptions)
      (schedule : List ℕ)
      → ((i : ℕ) → i < length options.targets → finishes schedule i ≡ true)
      → All (λ t. known_protocol t.protocol ≡ true) options.targets
      → is_listed query_types options.record_type ≡ true
      → let queries = real_queries P randoms (λ i. network_exchange P (networks i)) in
        let c = compare_with_query P random context options schedule queries in
        (conforms result_v1 (compare_json f c) ≡ true) ↔ All IsNoProtocolError c.attempts
  compare-conforms_iff random randoms context options schedule covers known typed =
      let exchanges : ℕ → Exchange = λ i. network_exchange P (networks i) in
      let reports : (i : ℕ) → Reports P (exchanges i) =
        λ i. network_exchange-IsReport P (networks i) in
      let queries = real_queries P randoms exchanges in
      let settled = (compare-IsTallied P random context options schedule queries).settled in
      let h =
        compare-IsCarried P randoms exchanges unpacks reports options schedule covers known typed
          random context in
      let conform = comparison-conforms f _ (record {
        version = h.version;
        operated = h.operated;
        settled = settled;
        classed =
            reported-listed _ settled
              (compare-IsReported P randoms exchanges options schedule random context covers);
        typed = h.typed;
        few = h.few;
        reportable = attempts-IsReportable _ h.reportable;
      }) in
      let answers = answers_iff _ h.reportable in
      (λ e. answers.0 (conform.0 e), λ a. conform.1 (answers.1 a))
