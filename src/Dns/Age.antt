-- ===== src/Dns/Age.antt =====
-- internal/edns/dns.go: `applyHTTPAge`.
pub mod Laws
use encrypted_dns_skill.Base.{
  ℕ, ◌-◌, ℤ, pos, negsuc, Bool, List, [], ◌∷◌, map, Option, none, some, ◌==◌, leb, if◌then◌else◌,
}
use encrypted_dns_skill.Dns.Answer.{get_field, put_field}
use encrypted_dns_skill.Model.{Value, uint32, AnswerRecord, DnsInfo}
use encrypted_dns_skill.Text.{codes}

-- `answer["ttl"] = …` for what `answer["ttl"].(uint32)` gives.
unfoldable pub age_ttl : ℕ → AnswerRecord → Option Value → AnswerRecord
age_ttl age answer (some (uint32 ttl)) =
    if leb ttl age
    then put_field (codes "ttl") (uint32 0) answer
    else put_field (codes "ttl") (uint32 (ttl - age)) answer
age_ttl age answer _ = answer

unfoldable pub age_answer : ℕ → AnswerRecord → AnswerRecord
age_answer age answer = age_ttl age answer (get_field (codes "ttl") answer)

-- The loop over the answers; over a nil slice it makes no round.
unfoldable pub age_answers : ℕ → Option (List AnswerRecord) → Option (List AnswerRecord)
age_answers age none = none
age_answers age (some l) = some (map (age_answer age) l)

unfoldable pub apply_http_age : DnsInfo → ℤ → DnsInfo
apply_http_age info (negsuc n) = info
apply_http_age info (pos age) =
    if age == 0 then info else record info { answers = age_answers age info.answers }
