-- ===== src/Tests/Compare.antt =====
-- A comparison of two targets whose goroutines finish in the reverse order.
use encrypted_dns_skill.Base.{ℕ, ◌<◌, List, [], ◌∷◌, true, none, ◌≡◌, arith, length}
use encrypted_dns_skill.Compare.{Outcome, run_attempts, compare_with_query}
use encrypted_dns_skill.Compare.Classes.{IsReported, real_queries, compare-IsReported}
use encrypted_dns_skill.Dns.Query.{Random}
use encrypted_dns_skill.Compare.Schedule.{finishes, outcomes, run_attempts-outcomes}
use encrypted_dns_skill.Compare.Summary.{IsTallied, compare-IsTallied}
use encrypted_dns_skill.Query.{Exchange, query_with_exchange}
use encrypted_dns_skill.Tests.Fixtures.{platform, random, answer, garble, comparison}

-- The first target is answered, the response of the second is garbled.
abbrev run_target : Outcome
run_target ℕ.zero options = query_with_exchange platform random options answer
run_target (ℕ.suc i) options = query_with_exchange platform random options garble

abbrev pub reversed : List ℕ
reversed = 1 ∷ 0 ∷ []

reversed-covers : (i : ℕ) → i < length comparison.targets → finishes reversed i ≡ true
unfolding finishes
reversed-covers i h = ground arith

run_attempts-outcomes_example :
    run_attempts run_target comparison reversed
    ≡ outcomes run_target comparison 0 comparison.targets
run_attempts-outcomes_example = run_attempts-outcomes run_target comparison reversed reversed-covers

compare-IsTallied_example :
    IsTallied (compare_with_query platform random none comparison reversed run_target)
compare-IsTallied_example = compare-IsTallied platform random none comparison reversed run_target

abbrev same_random : ℕ → Random
same_random i = random

abbrev same_answer : ℕ → Exchange
same_answer i = answer

compare-IsReported_example : IsReported (
    compare_with_query platform random none comparison reversed
      (real_queries platform same_random same_answer))
compare-IsReported_example =
    compare-IsReported platform same_random same_answer comparison reversed random none
      reversed-covers
