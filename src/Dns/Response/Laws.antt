-- ===== src/Dns/Response/Laws.antt =====
-- What a response must be to be accepted, and that such a response is accepted.
use encrypted_dns_skill.Base.{
  ℕ, true, false, not, List, [], ◌∷◌, some, ◌≡◌, ◌↔◌, refl, arith, ◌==◌, inl, inr, Option-cases,
}
use mathlib.Core.Path.{subst}
use encrypted_dns_skill.Dns.Answer.{normalize_answer}
use encrypted_dns_skill.Dns.Message.{Header, Question, Resource, Message}
use encrypted_dns_skill.Dns.Name.{from_option}
use encrypted_dns_skill.Dns.Response.{
  question_matches, check_questions, parse_answers, check_header, info_of, read_message,
  parse_response,
}
use encrypted_dns_skill.Dns.Tables.{class_inet, record_type, or_zero, trim_root}
use encrypted_dns_skill.Errors.{unpack_response, ok, err, ◌>>=◌, ◌>>◌}
use encrypted_dns_skill.Errors.Laws.{>>=-eq-ok, refuse_if-eq-ok}
use encrypted_dns_skill.Model.{QueryInfo, AnswerRecord, DnsInfo}
use encrypted_dns_skill.Platform.{Platform}
use encrypted_dns_skill.Text.{Bytes}
use encrypted_dns_skill.Text.Equality.{text_eq_sound, text_eq_complete}

-- A header of a complete response to a standard query with this ID.
pub record IsReplyHeader (h : Header) (id : ℕ) : Type 0 where
  pub is_response : h.response ≡ true
  pub standard : h.op_code ≡ 0
  pub complete : h.truncated ≡ false
  pub same_id : h.id ≡ id

-- A question that is the one asked.
pub record IsAsked (P : Platform) (q : Question) (query : QueryInfo) : Type 0 where
  pub same_name : trim_root P q.name ≡ query.name
  pub same_type : q.qtype ≡ or_zero (record_type query.qtype)
  pub internet : q.class ≡ class_inet

-- Each answer is of the class IN, and is normalized to the record at its place.
pub data Normalized (P : Platform) : List Resource → List AnswerRecord → Type 0 where
  end : Normalized P [] []
  more :
      {r : Resource} {a : AnswerRecord} {rs : List Resource} {as' : List AnswerRecord}
      → r.header.class ≡ class_inet
      → normalize_answer P r ≡ ok a
      → Normalized P rs as'
      → Normalized P (r ∷ rs) (a ∷ as')

-- The message, read from the wire, that answers the query.
pub record IsReply (P : Platform) (wire : Bytes) (id : ℕ) (query : QueryInfo) (dns : DnsInfo)
    : Type 0 where
  pub message : Message
  pub question : Question
  pub records : List AnswerRecord
  pub unpacked : P.unpack wire ≡ some message
  pub header : IsReplyHeader message.header id
  pub one_question : message.questions ≡ question ∷ []
  pub asked : IsAsked P question query
  pub normalized : Normalized P message.answers records
  pub info : dns ≡ info_of message records

check_header_sound :
    (h : Header) (id : ℕ) {u : Unit {0}} → check_header h id ≡ ok u → IsReplyHeader h id
unfolding check_header
check_header_sound h id e = ground arith

check_header_complete : (h : Header) (id : ℕ) → IsReplyHeader h id → check_header h id ≡ ok tt
unfolding check_header
check_header_complete h id r = ground arith

module _ (P : Platform) where
  question_matches_sound :
      (q : Question) (query : QueryInfo) → question_matches P q query ≡ true → IsAsked P q query
  unfolding question_matches
  question_matches_sound q query h = ground (arith, text_eq_sound (trim_root P q.name) query.name)

  question_matches_complete :
      (q : Question) (query : QueryInfo) → IsAsked P q query → question_matches P q query ≡ true
  unfolding question_matches
  question_matches_complete q query h =
      ground (arith, text_eq_complete (trim_root P q.name) query.name)

  check_questions_sound :
      (qs : List Question) (query : QueryInfo) {u : Unit {0}}
      → check_questions P qs query ≡ ok u
      → (q : Question) × (qs ≡ q ∷ []) × IsAsked P q query
  unfolding check_questions
  check_questions_sound [] query h = cc
  check_questions_sound (q ∷ []) query h = (q, refl, question_matches_sound q query (ground arith))
  check_questions_sound (q ∷ q' ∷ qs) query h = cc

  parse_answers_sound :
      (rs : List Resource) (l : List AnswerRecord) → parse_answers P rs ≡ ok l → Normalized P rs l
  unfolding parse_answers
  parse_answers_sound [] l h = let e : [] ≡ l = cc in subst (Normalized P []) e end
  parse_answers_sound (r ∷ rs) l h =
      let (class, h1) =
        refuse_if-eq-ok (not (r.header.class == class_inet)) _
          (normalize_answer P r >>= λ a. parse_answers P rs >>= λ as'. ok (a ∷ as')) h in
      let (a, normal, h2) =
        >>=-eq-ok (normalize_answer P r) (λ a. parse_answers P rs >>= λ as'. ok (a ∷ as')) h1 in
      let (as', rest, h3) = >>=-eq-ok (parse_answers P rs) (λ as'. ok (a ∷ as')) h2 in
      let e : a ∷ as' ≡ l = cc in
      subst (Normalized P (r ∷ rs)) e (more (ground arith) normal (parse_answers_sound rs as' rest))

  parse_answers_complete :
      {rs : List Resource} {l : List AnswerRecord} → Normalized P rs l → parse_answers P rs ≡ ok l
  unfolding parse_answers
  parse_answers_complete end = refl
  parse_answers_complete (more {r} {rs} c n t) = ground (arith, parse_answers_complete t)

  read_message_sound :
      (wire : Bytes) (id : ℕ) (query : QueryInfo) (dns : DnsInfo) (m : Message)
      → P.unpack wire ≡ some m
      → read_message P id query m ≡ ok dns
      → IsReply P wire id query dns
  unfolding read_message
  read_message_sound wire id query dns m unpacked h =
      let rest = parse_answers P m.answers >>= λ l. ok (info_of m l) in
      let (u, h1, k1) =
        >>=-eq-ok (check_header m.header id) (λ _. check_questions P m.questions query >> rest) h in
      let (v, h2, k2) = >>=-eq-ok (check_questions P m.questions query) (λ _. rest) k1 in
      let (l, h3, k3) = >>=-eq-ok (parse_answers P m.answers) (λ l. ok (info_of m l)) k2 in
      let (q, one, asked) = check_questions_sound m.questions query h2 in
      record {
        message = m;
        question = q;
        records = l;
        unpacked = unpacked;
        header = check_header_sound m.header id h1;
        one_question = one;
        asked = asked;
        normalized = parse_answers_sound m.answers l h3;
        info = cc;
      }

  parse_response_sound :
      (wire : Bytes) (id : ℕ) (query : QueryInfo) (dns : DnsInfo)
      → parse_response P wire id query ≡ ok dns
      → IsReply P wire id query dns
  unfolding parse_response from_option
  parse_response_sound wire id query dns h = elim (Option-cases (P.unpack wire)) [
    | inl q ↦ let bad : err unpack_response ≡ ok dns = rw (q, parse_response) at h in cc
    | inr (m, q) ↦ read_message_sound wire id query dns m q (rw (q, parse_response) at h)
  ]

  parse_response_complete :
      (wire : Bytes) (id : ℕ) (query : QueryInfo) (dns : DnsInfo)
      → IsReply P wire id query dns
      → parse_response P wire id query ≡ ok dns
  unfolding parse_response read_message from_option check_questions
  parse_response_complete wire id query dns r = ground (
    arith,
    r.unpacked,
    r.info,
    r.one_question,
    check_header_complete r.message.header id r.header,
    question_matches_complete r.question query r.asked,
    parse_answers_complete r.normalized,
  )

  -- A response is accepted, and gives this information, if and only if its bytes unpack to a
  -- message that answers the query: a response to a standard query, not truncated, with the
  -- expected ID, with the question asked and no other, whose answers are of the class IN and can
  -- be normalized. The information is the response code, the bit AD, no claim of validation by
  -- the client, and the normalized answers in their order.
  pub parse_response-IsReply :
      (wire : Bytes) (id : ℕ) (query : QueryInfo) (dns : DnsInfo)
      → (parse_response P wire id query ≡ ok dns) ↔ IsReply P wire id query dns
  parse_response-IsReply wire id query dns =
      (parse_response_sound wire id query dns, parse_response_complete wire id query dns)
