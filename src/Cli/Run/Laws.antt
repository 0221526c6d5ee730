-- ===== src/Cli/Run/Laws.antt =====
-- `run`: its two streams, and the contract between the result of a query and the exit status.
use encrypted_dns_skill.Base.{
  ℕ, ℤ, true, false, List, [], ◌∷◌, Option, none, some, ◌≡◌, ◌≢◌, refl, inl, inr, arith, Bool-cases,
}
use encrypted_dns_skill.Cli.CompareArgs.{parse_compare_args}
use encrypted_dns_skill.Cli.QueryArgs.{QueryArgs, parse_query_args}
use encrypted_dns_skill.Cli.Run.{
  Finished, Runners, Document, write_json, result_document, class_exit_code, result_exit_code,
  finish_query, finish_compare, run_capabilities, run_version, run_query_command,
  run_compare_command, run,
}
use encrypted_dns_skill.Dns.Query.{Random}
use encrypted_dns_skill.Errors.{ok}
use encrypted_dns_skill.Errors.Laws.{Fallible-cases}
use encrypted_dns_skill.Model.{QueryOptions, ErrorInfo, Result}
use encrypted_dns_skill.Platform.{Platform}
use encrypted_dns_skill.Query.{Exchange, query_with_exchange}
use encrypted_dns_skill.Query.Laws.Completed.{
  HasClass, IsClassified, completed, input_error, unsupported_error, transport_error,
  protocol_error, query-IsClassified,
}
use encrypted_dns_skill.Text.{Text, codes, text_eq}

-- Either one document and no diagnostic, or no document, a diagnostic, and a code of failure.
pub data IsOneStream (f : Finished) : Type 0 where
  printed : (d : Document) → f.stdout ≡ d ∷ [] → f.stderr ≡ [] → IsOneStream f
  diagnosed : f.stdout ≡ [] → f.stderr ≢ [] → f.code ≢ 0 → IsOneStream f

write_json-IsOneStream : (R : Runners) (d : Document) (code : ℕ) → IsOneStream (write_json R d code)
unfolding write_json
write_json-IsOneStream R d code = elim (Bool-cases (R.encodes d)) [
  | inl q ↦ rw q (printed d refl refl)
  | inr q ↦ rw q (diagnosed refl (λ e. cc) (λ e. omega arith))
]

capabilities-IsOneStream : (R : Runners) (l : List Text) → IsOneStream (run_capabilities R l)
unfolding run_capabilities
capabilities-IsOneStream R [] = write_json-IsOneStream R _ _
capabilities-IsOneStream R (t ∷ l) = diagnosed refl (λ e. cc) (λ e. omega arith)

version-IsOneStream : (l : List Text) → IsOneStream (run_version l)
unfolding run_version
version-IsOneStream [] = printed _ refl refl
version-IsOneStream (t ∷ l) = diagnosed refl (λ e. cc) (λ e. omega arith)

module _ (P : Platform) (R : Runners) where
  query-IsOneStream :
      (runner : ℤ → QueryOptions → Result) (l : List Text)
      → IsOneStream (run_query_command P R runner l)
  unfolding run_query_command finish_query
  query-IsOneStream runner l = elim (Fallible-cases (parse_query_args P l)) [
    | inl (s, q) ↦ rw (q, run_query_command) (write_json-IsOneStream R _ _)
    | inr (e, q) ↦ rw (q, run_query_command) (diagnosed refl (λ h. cc) (λ h. omega arith))
  ]

  compare-IsOneStream : (l : List Text) → IsOneStream (run_compare_command P R l)
  unfolding run_compare_command finish_compare
  compare-IsOneStream l = elim (Fallible-cases (parse_compare_args P l)) [
    | inl (s, q) ↦ rw (q, run_compare_command) (write_json-IsOneStream R _ _)
    | inr (e, q) ↦ rw (q, run_compare_command) (diagnosed refl (λ h. cc) (λ h. omega arith))
  ]

  -- For every list of arguments, the program either writes one document to stdout and nothing to
  -- stderr, or nothing to stdout and a diagnostic to stderr, with a code that is not 0.
  pub run-IsOneStream : (arguments : List Text) → IsOneStream (run P R arguments)
  unfolding run
  run-IsOneStream [] = diagnosed refl (λ e. cc) (λ e. omega arith)
  run-IsOneStream (command ∷ l) = elim (Bool-cases (text_eq command (codes "capabilities"))) [
    | inl q1 ↦ rw (q1, run) (capabilities-IsOneStream R l)
    | inr q1 ↦ elim (Bool-cases (text_eq command (codes "version"))) [
      | inl q2 ↦ rw (q1, run, q2) (version-IsOneStream l)
      | inr q2 ↦ elim (Bool-cases (text_eq command (codes "query"))) [
        | inl q3 ↦ rw (q1, run, q2, q3) (query-IsOneStream R.run_query l)
        | inr q3 ↦ elim (Bool-cases (text_eq command (codes "probe"))) [
          | inl q4 ↦ rw (q1, run, q2, q3, q4) (query-IsOneStream R.run_probe l)
          | inr q4 ↦ elim (Bool-cases (text_eq command (codes "compare"))) [
            | inl q5 ↦ rw (q1, run, q2, q3, q4, q5) (compare-IsOneStream l)
            | inr q5 ↦ rw (q1, run, q2, q3, q4, q5) (diagnosed refl (λ e. cc) (λ e. omega arith))
          ]
        ]
      ]
    ]
  ]

-- The exit status that the documentation gives for a result.
pub data IsContract (r : Result) : ℕ → Type 0 where
  success : r.completed ≡ true → IsContract r 0
  usage_error : HasClass (codes "input") r.error → IsContract r 2
  failed_exchange : HasClass (codes "transport") r.error → IsContract r 3
  failed_protocol : HasClass (codes "protocol") r.error → IsContract r 3
  unavailable : HasClass (codes "unsupported") r.error → IsContract r 4

class_code :
    (class : Text) (o : Option ErrorInfo)
    → HasClass class o
    → result_exit_code false o ≡ class_exit_code class
unfolding result_exit_code
class_code class none h = absurd h
class_code class (some e) h = rw h

code_of :
    (r : Result) (class : Text) (code : ℕ)
    → r.completed ≡ false
    → HasClass class r.error
    → class_exit_code class ≡ code
    → result_exit_code r.completed r.error ≡ code
code_of r class code q h e = rw (q, class_code class r.error h) e

classified-IsContract :
    (r : Result) → IsClassified r → IsContract r (result_exit_code r.completed r.error)
unfolding class_exit_code text_eq result_exit_code
classified-IsContract r (completed q) =
    let e : result_exit_code r.completed r.error ≡ 0 = rw q in rw e (success q)
classified-IsContract r (input_error q h) =
    rw (code_of r (codes "input") 2 q h refl) (usage_error h)
classified-IsContract r (unsupported_error q h) =
    rw (code_of r (codes "unsupported") 4 q h refl) (unavailable h)
classified-IsContract r (transport_error q h) =
    rw (code_of r (codes "transport") 3 q h refl) (failed_exchange h)
classified-IsContract r (protocol_error q h) =
    rw (code_of r (codes "protocol") 3 q h refl) (failed_protocol h)

-- `runQuery` is `edns.Query` with the timeout on the exchange: where the arguments are accepted
-- and the encoder takes the document, the command writes the result of that query and nothing to
-- stderr, and the exit status is 0 for a completed result, 2 for an error of the class `input`, 3
-- for `transport` and `protocol`, and 4 for `unsupported`; it is never 1.
pub query_command-IsContract :
    (P : Platform) (R : Runners) (random : Random) (ex : ℤ → Exchange) (arguments : List Text)
    (s : QueryArgs)
    → parse_query_args P arguments ≡ ok s
    → let r = query_with_exchange P random s.options (ex s.timeout) in
      let runner : ℤ → QueryOptions → Result = λ t o. query_with_exchange P random o (ex t) in
      let f = run_query_command P R runner arguments in
      R.encodes (result_document r) ≡ true
      → (f.stdout ≡ result_document r ∷ []) × (f.stderr ≡ []) × IsContract r f.code
unfolding run_query_command finish_query write_json
query_command-IsContract P R random ex arguments s q h =
    let r = query_with_exchange P random s.options (ex s.timeout) in
    let c = classified-IsContract r (query-IsClassified P random s.options (ex s.timeout)) in
    rw (q, run_query_command, h) (refl, refl, c)
