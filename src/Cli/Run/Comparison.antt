-- ===== src/Cli/Run/Comparison.antt =====
-- The contract between the result of a comparison and the exit status.
use encrypted_dns_skill.Base.{ℕ, ◌<◌, true, false, List, [], ◌∷◌, Option, some, ◌≡◌, refl, length}
use encrypted_dns_skill.Cli.CompareArgs.{CompareArgs, parse_compare_args}
use encrypted_dns_skill.Cli.Run.{
  Runners, compare_document, write_json, class_exit_code, result_exit_code, finish_compare,
  run_compare_command,
}
use encrypted_dns_skill.Compare.{compare_with_query}
use encrypted_dns_skill.Compare.Classes.{
  IsQueryClass, is_input, is_transport, is_protocol, is_unsupported, IsReported, all_completed,
  reported, real_queries, compare-IsReported,
}
use encrypted_dns_skill.Compare.Schedule.{finishes}
use encrypted_dns_skill.Dns.Query.{Random}
use encrypted_dns_skill.Errors.{Error, ok}
use encrypted_dns_skill.Model.{CompareOptions, CompareResult, ErrorInfo}
use encrypted_dns_skill.Platform.{Platform}
use encrypted_dns_skill.Query.{Exchange}
use encrypted_dns_skill.Query.Laws.Completed.{HasClass}
use encrypted_dns_skill.Text.{Text, codes, text_eq}

-- The exit status that the documentation gives for a comparison.
pub data IsCompareContract (c : CompareResult) : ℕ → Type 0 where
  success : c.completed ≡ true → IsCompareContract c 0
  usage_error : HasClass (codes "input") c.error → IsCompareContract c 2
  failed_exchange : HasClass (codes "transport") c.error → IsCompareContract c 3
  failed_protocol : HasClass (codes "protocol") c.error → IsCompareContract c 3
  unavailable : HasClass (codes "unsupported") c.error → IsCompareContract c 4

module _ (c : CompareResult) where
  coded :
      (e : ErrorInfo)
      → c.completed ≡ false
      → c.error ≡ some e
      → IsQueryClass e.class
      → IsCompareContract c (result_exit_code c.completed c.error)
  unfolding result_exit_code class_exit_code text_eq
  coded e q h (is_input k) = simp (q, h, k) (usage_error (rw h k))
  coded e q h (is_transport k) = simp (q, h, k) (failed_exchange (rw h k))
  coded e q h (is_protocol k) = simp (q, h, k) (failed_protocol (rw h k))
  coded e q h (is_unsupported k) = simp (q, h, k) (unavailable (rw h k))

  reported-IsCompareContract :
      IsReported c → IsCompareContract c (result_exit_code c.completed c.error)
  unfolding result_exit_code
  reported-IsCompareContract (all_completed q) =
      let e : result_exit_code c.completed c.error ≡ 0 = rw q in rw e (success q)
  reported-IsCompareContract (reported e q h k) = coded e q h k

module _ (P : Platform) (R : Runners) (random : Random) (context : Option Error)
    (randoms : ℕ → Random) (exchanges : ℕ → Exchange) (schedule : List ℕ) where
  abbrev pub comparing : CompareOptions → CompareResult
  comparing o = compare_with_query P random context o schedule (real_queries P randoms exchanges)

  -- `runCompare` is `edns.Compare` under the timeout, with goroutines that all finish in some order:
  -- where the arguments are accepted and the encoder takes the document, the command `compare`
  -- writes the result of that comparison and nothing to stderr, and the exit status is 0 for a
  -- completed result, 2 for an error of the class `input`, 3 for `transport` and `protocol`, and 4
  -- for `unsupported`; it is never 1.
  pub compare_command-IsCompareContract :
      (arguments : List Text) (s : CompareArgs)
      → parse_compare_args P arguments ≡ ok s
      → ((i : ℕ) → i < length s.options.targets → finishes schedule i ≡ true)
      → R.run_compare s.total_timeout s.options ≡ comparing s.options
      → R.encodes (compare_document (comparing s.options)) ≡ true
      → let f = run_compare_command P R arguments in
        (f.stdout ≡ compare_document (comparing s.options) ∷ [])
        × (f.stderr ≡ [])
        × IsCompareContract (comparing s.options) f.code
  unfolding run_compare_command finish_compare write_json
  compare_command-IsCompareContract arguments s q covers ran encoded =
      let c =
        reported-IsCompareContract (comparing s.options)
          (compare-IsReported P randoms exchanges s.options schedule random context covers) in
      rw (q, run_compare_command, ran, encoded) (refl, refl, c)
