-- ===== src/Schema/Replies.antt =====
-- The answers of an accepted response, aged or not, have the forms of `Answers`.
use encrypted_dns_skill.Base.{
  ℕ, ℤ, pos, negsuc, ◌==◌, List, [], ◌∷◌, map, Option, none, some, ◌≡◌, refl, inl, inr, All,
  Bool-cases,
}
use encrypted_dns_skill.Dns.Age.{age_answer, age_answers, apply_http_age}
use encrypted_dns_skill.Dns.Message.{Resource, Message}
use encrypted_dns_skill.Dns.Response.{info_of}
use encrypted_dns_skill.Dns.Response.Laws.{Normalized, end, more, IsReply}
use encrypted_dns_skill.Model.{QueryInfo, AnswerRecord, DnsInfo}
use encrypted_dns_skill.Platform.{Platform}
use encrypted_dns_skill.Schema.Normalized.{IsBody, normalize_answer-IsAnswer, age_answer-IsAnswer}
use encrypted_dns_skill.Schema.Single.{AllAnswers}
use encrypted_dns_skill.Text.{Bytes}

-- What dnsmessage gives for the answers of a message that it unpacks.
abbrev pub UnpacksBodies : Platform → Type 0
UnpacksBodies P =
    (wire : Bytes) (m : Message)
    → P.unpack wire ≡ some m
    → All (λ r. IsBody r.header.rtype r.body) m.answers

normalized-AllAnswers :
    (P : Platform) {rs : List Resource} {l : List AnswerRecord}
    → All (λ r. IsBody r.header.rtype r.body) rs
    → Normalized P rs l
    → AllAnswers (some l)
normalized-AllAnswers P b end = tt
normalized-AllAnswers P b (more {r} c n rest) =
    ((_, _, normalize_answer-IsAnswer P r b.0 n), normalized-AllAnswers P b.1 rest)

pub reply-AllAnswers :
    (P : Platform) (wire : Bytes) (id : ℕ) (q : QueryInfo) (d : DnsInfo)
    → UnpacksBodies P
    → IsReply P wire id q d
    → AllAnswers d.answers
unfolding info_of
reply-AllAnswers P wire id q d unpacks h =
    rw h.info (normalized-AllAnswers P (unpacks wire h.message h.unpacked) h.normalized)

aged_list-AllAnswers :
    (age : ℕ) (l : List AnswerRecord)
    → AllAnswers (some l)
    → AllAnswers (some (map (age_answer age) l))
aged_list-AllAnswers age [] h = tt
aged_list-AllAnswers age (r ∷ l) ((name, ttl, a), h) =
    ((name, _, age_answer-IsAnswer age a), aged_list-AllAnswers age l h)

age_answers-AllAnswers :
    (age : ℕ) (o : Option (List AnswerRecord)) → AllAnswers o → AllAnswers (age_answers age o)
unfolding age_answers
age_answers-AllAnswers age none h = tt
age_answers-AllAnswers age (some l) h = aged_list-AllAnswers age l h

pub apply_http_age-AllAnswers :
    (d : DnsInfo) (age : ℤ) → AllAnswers d.answers → AllAnswers (apply_http_age d age).answers
unfolding apply_http_age
apply_http_age-AllAnswers d (negsuc n) h = h
apply_http_age-AllAnswers d (pos n) h = elim (Bool-cases (n == 0)) [
  | inl q ↦ rw (q, apply_http_age) h
  | inr q ↦ rw (q, apply_http_age) (age_answers-AllAnswers n d.answers h)
]

pub apply_http_age-unvalidated :
    (d : DnsInfo) (age : ℤ)
    → (apply_http_age d age).client_validated_dnssec ≡ d.client_validated_dnssec
unfolding apply_http_age
apply_http_age-unvalidated d (negsuc n) = refl
apply_http_age-unvalidated d (pos n) = elim (Bool-cases (n == 0)) [
  | inl q ↦ rw (q, apply_http_age)
  | inr q ↦ rw (q, apply_http_age)
]
