-- ===== src/Compare/Classes.antt =====
-- A comparison of real queries: the class that is reported is one that a query reports.
use encrypted_dns_skill.Base.{
  ℕ, suc, ◌+◌, ◌<◌, true, false, not, List, [], ◌∷◌, Option, none, some, ◌≡◌, ◌⊎◌, refl, sym, ◌∙◌,
  inl, inr, arith, All, Bool-cases, ◌==◌, length,
}
use encrypted_dns_skill.Compare.{
  Outcome, has_class, any_class, first_class, compare_failure_class, compare_with_query,
  check_options, compare_failed, initial_compare, conclude, run_comparison, run_attempts,
  attempt_options, no_summary,
}
use encrypted_dns_skill.Compare.Laws.{Occurs, here, there, any_class_sound, any_class_complete}
use encrypted_dns_skill.Compare.Schedule.{finishes, outcomes, run_attempts-outcomes}
use encrypted_dns_skill.Compare.Summary.{
  count, count-not, summarize-completed, summarize-total, length-run_attempts,
}
use encrypted_dns_skill.Dns.Query.{Random, build_query}
use encrypted_dns_skill.Errors.{Error}
use encrypted_dns_skill.Errors.Laws.{Fallible-cases}
use encrypted_dns_skill.Model.{
  QueryOptions, CompareTarget, CompareOptions, CompareResult, ErrorInfo, Result,
}
use encrypted_dns_skill.Platform.{Platform}
use encrypted_dns_skill.Query.{Exchange, query_with_exchange}
use encrypted_dns_skill.Query.Laws.Completed.{
  HasClass, IsSettled, IsClassified, completed, input_error, unsupported_error, transport_error,
  protocol_error, query-IsSettled, query-IsClassified,
}
use encrypted_dns_skill.Text.{Text, codes}
use encrypted_dns_skill.Text.Equality.{text_eq_sound, text_eq_complete}

-- The classes of the errors of queries.
pub data IsQueryClass (class : Text) : Type 0 where
  is_input : class ≡ codes "input" → IsQueryClass class
  is_transport : class ≡ codes "transport" → IsQueryClass class
  is_protocol : class ≡ codes "protocol" → IsQueryClass class
  is_unsupported : class ≡ codes "unsupported" → IsQueryClass class

-- Completed, or with an error of such a class.
pub data IsReported (r : CompareResult) : Type 0 where
  all_completed : r.completed ≡ true → IsReported r
  reported :
      (e : ErrorInfo) → r.completed ≡ false → r.error ≡ some e → IsQueryClass e.class → IsReported r

-- What is known of the result of a query.
record Answered (r : Result) : Type 0 where
  settled : IsSettled r
  classified : IsClassified r

-- A result that is not completed has the class of a query.
record Failure (r : Result) : Type 0 where
  class : Text
  occurs : has_class class r.error ≡ true
  known : IsQueryClass class

has_class_complete : (c : Text) (o : Option ErrorInfo) → HasClass c o → has_class c o ≡ true
has_class_complete c none h = absurd h
has_class_complete c (some e) h = text_eq_complete e.class c h

has_class_sound : (c : Text) (o : Option ErrorInfo) → has_class c o ≡ true → HasClass c o
has_class_sound c none h = cc
has_class_sound c (some e) h = text_eq_sound e.class c h

one_class : (c d : Text) (o : Option ErrorInfo) → HasClass c o → HasClass d o → c ≡ d
one_class c d none h k = absurd h
one_class c d (some e) h k = sym h ∙ k

classified-Failure : (r : Result) → IsClassified r → r.completed ≡ false → Failure r
classified-Failure r (completed q) h = absurd (ground arith)
classified-Failure r (input_error q c) h = record {
  class = codes "input";
  occurs = has_class_complete _ _ c;
  known = is_input refl;
}
classified-Failure r (transport_error q c) h = record {
  class = codes "transport";
  occurs = has_class_complete _ _ c;
  known = is_transport refl;
}
classified-Failure r (protocol_error q c) h = record {
  class = codes "protocol";
  occurs = has_class_complete _ _ c;
  known = is_protocol refl;
}
classified-Failure r (unsupported_error q c) h = record {
  class = codes "unsupported";
  occurs = has_class_complete _ _ c;
  known = is_unsupported refl;
}

-- No query reports the class `internal`.
not_internal : (r : Result) → Answered r → HasClass (codes "internal") r.error → ⊥
not_internal r a h = go a.classified
  where
    go : IsClassified r → ⊥
    go (completed q) = let e : r.error ≡ none = a.settled.0 q in (rw e at h)
    go (input_error q c) = let d = one_class _ _ r.error h c in ground arith
    go (transport_error q c) = let d = one_class _ _ r.error h c in ground arith
    go (protocol_error q c) = let d = one_class _ _ r.error h c in ground arith
    go (unsupported_error q c) = let d = one_class _ _ r.error h c in ground arith

never_internal : (l : List Result) → All Answered l → Occurs (codes "internal") l → ⊥
never_internal [] h o = elim o [ ]
never_internal (r ∷ l) (a, h) (here q) = not_internal r a (has_class_sound _ r.error q)
never_internal (r ∷ l) (a, h) (there o) = never_internal l h o

-- Every attempt is completed, or some attempt has the class of a query.
some_failure :
    (l : List Result)
    → All Answered l
    → (count (λ a. not a.completed) l ≡ 0) ⊎ ((c : Text) × IsQueryClass c × Occurs c l)
unfolding count
some_failure [] h = inl refl
some_failure (r ∷ l) (a, h) = elim (Bool-cases r.completed) [
  | inr q ↦ let f = classified-Failure r a.classified q in inr (f.class, f.known, here f.occurs)
  | inl q ↦ elim (some_failure l h) [
    | inl z ↦ inl (ground arith)
    | inr (c, known, o) ↦ inr (c, known, there o)
  ]
]

-- The class that is chosen among such attempts.
failure_class-IsQueryClass :
    (l : List Result) (c : Text)
    → All Answered l
    → IsQueryClass c
    → Occurs c l
    → IsQueryClass (compare_failure_class l)
unfolding compare_failure_class first_class
failure_class-IsQueryClass l c h known o = elim (Bool-cases (any_class (codes "internal") l)) [
  | inl q0 ↦ absurd (never_internal l h (any_class_sound _ l q0))
  | inr q0 ↦ elim (Bool-cases (any_class (codes "input") l)) [
    | inl q1 ↦ rw (q0, q1) (is_input refl)
    | inr q1 ↦ elim (Bool-cases (any_class (codes "transport") l)) [
      | inl q2 ↦ rw (q0, q1, q2) (is_transport refl)
      | inr q2 ↦ elim (Bool-cases (any_class (codes "protocol") l)) [
        | inl q3 ↦ rw (q0, q1, q2, q3) (is_protocol refl)
        | inr q3 ↦ elim (Bool-cases (any_class (codes "unsupported") l)) [
          | inl q4 ↦ rw (q0, q1, q2, q3, q4) (is_unsupported refl)
          | inr q4 ↦ absurd (no_class q1 q2 q3 q4 known)
        ]
      ]
    ]
  ]
]
  where
    occurring : {d : Text} → c ≡ d → any_class d l ≡ false → ⊥
    occurring {d} e q =
        let f : any_class d l ≡ true = rw e at (any_class_complete c l o) in ground arith

    no_class :
        any_class (codes "input") l ≡ false
        → any_class (codes "transport") l ≡ false
        → any_class (codes "protocol") l ≡ false
        → any_class (codes "unsupported") l ≡ false
        → IsQueryClass c
        → ⊥
    no_class q1 q2 q3 q4 (is_input e) = occurring e q1
    no_class q1 q2 q3 q4 (is_transport e) = occurring e q2
    no_class q1 q2 q3 q4 (is_protocol e) = occurring e q3
    no_class q1 q2 q3 q4 (is_unsupported e) = occurring e q4

outcomes-Answered :
    (outcome : Outcome) (options : CompareOptions)
    → ((i : ℕ) (o : QueryOptions) → Answered (outcome i o))
    → (i : ℕ) (ts : List CompareTarget) → All Answered (outcomes outcome options i ts)
unfolding outcomes
outcomes-Answered outcome options h i [] = tt
outcomes-Answered outcome options h i (t ∷ ts) =
    (h i (attempt_options options t), outcomes-Answered outcome options h (suc i) ts)

conclude-IsReported :
    (r : CompareResult)
    → r.completed ≡ false
    → All Answered r.attempts
    → r.summary.completed + count (λ a. not a.completed) r.attempts ≡ r.summary.total
    → IsReported (conclude r)
unfolding conclude compare_failed
conclude-IsReported r h all sum = elim (Bool-cases (r.summary.completed == r.summary.total)) [
  | inl t ↦ rw (t, conclude) (all_completed refl)
  | inr t ↦ elim (some_failure r.attempts all) [
    | inl z ↦ absurd (ground arith)
    | inr (c, known, o) ↦
        rw (t, conclude)
          (reported _ refl refl (failure_class-IsQueryClass r.attempts c all known o))
  ]
]

-- The queries of a comparison: each draws its own ID and meets its own network.
abbrev pub real_queries : Platform → (ℕ → Random) → (ℕ → Exchange) → Outcome
real_queries P randoms exchanges i o = query_with_exchange P (randoms i) o (exchanges i)

module _ (P : Platform) (randoms : ℕ → Random) (exchanges : ℕ → Exchange) (options : CompareOptions)
    (schedule : List ℕ) where
  real-Answered : (i : ℕ) (o : QueryOptions) → Answered (real_queries P randoms exchanges i o)
  real-Answered i o = record {
    settled = query-IsSettled P (randoms i) o (exchanges i);
    classified = query-IsClassified P (randoms i) o (exchanges i);
  }

  run_comparison-IsReported :
      (context : Option Error) (r : CompareResult)
      → ((i : ℕ) → i < length options.targets → finishes schedule i ≡ true)
      → r.completed ≡ false
      → IsReported (run_comparison context options schedule (real_queries P randoms exchanges) r)
  unfolding run_comparison compare_failed
  run_comparison-IsReported (some e) r covers h = reported _ h refl (is_transport refl)
  run_comparison-IsReported none r covers h =
      let outcome = real_queries P randoms exchanges in
      let l = run_attempts outcome options schedule in
      let start = record no_summary { total = length options.targets } in
      let same = run_attempts-outcomes outcome options schedule covers in
      let all : All Answered l =
        rw same (outcomes-Answered outcome options real-Answered 0 options.targets) in
      conclude-IsReported _ h all (
        omega (
          arith,
          summarize-completed l start,
          summarize-total l start,
          count-not l,
          length-run_attempts outcome options schedule,
        ))

  -- A comparison whose outcomes are those of `queryWithExchange`, each with its own ID and its own
  -- network, and whose goroutines all finish, in any order, is completed, or it is not and has an
  -- error of one of the classes `input`, `transport`, `protocol` and `unsupported`. It never
  -- reports the class `internal`.
  pub compare-IsReported :
      (random : Random) (context : Option Error)
      → ((i : ℕ) → i < length options.targets → finishes schedule i ≡ true)
      → IsReported
          (compare_with_query P random context options schedule (real_queries P randoms exchanges))
  unfolding compare_with_query initial_compare compare_failed
  compare-IsReported random context covers =
      elim (Fallible-cases (build_query P random options.name options.record_type)) [
        | inr (e, q) ↦ rw (q, compare_with_query) (reported _ refl refl (is_input refl))
        | inl (b, q) ↦ elim (Fallible-cases (check_options options)) [
          | inr (e, k) ↦ rw (q, k, compare_with_query) (reported _ refl refl (is_input refl))
          | inl (u, k) ↦
              rw (q, k, compare_with_query)
                (run_comparison-IsReported context (initial_compare b.query) covers refl)
        ]
      ]
