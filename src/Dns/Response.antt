-- ===== src/Dns/Response.antt =====
-- internal/edns/dns.go: `ParseResponse`.
pub mod Laws
use encrypted_dns_skill.Base.{
  ℕ, Bool, true, false, not, ◌&&◌, ◌||◌, List, [], ◌∷◌, Option, none, some, ◌==◌, if◌then◌else◌,
  length,
}
use encrypted_dns_skill.Dns.Answer.{normalize_answer}
use encrypted_dns_skill.Dns.Message.{Header, Question, Resource, Message}
use encrypted_dns_skill.Dns.Name.{from_option}
use encrypted_dns_skill.Dns.Tables.{class_inet, record_type, or_zero, rcode_name, trim_root}
use encrypted_dns_skill.Errors.{
  Error, unpack_response, not_a_response, unexpected_opcode, truncated_response, id_mismatch,
  question_count, question_mismatch, unsupported_class, Fallible, ok, err, ◌>>=◌, ◌>>◌, refuse_if,
}
use encrypted_dns_skill.Model.{QueryInfo, AnswerRecord, DnsInfo}
use encrypted_dns_skill.Platform.{Platform}
use encrypted_dns_skill.Text.{Text, Bytes, codes, text_eq}

-- The tests of the header.
unfoldable pub check_header : Header → ℕ → Fallible (Unit {0})
check_header h expected_id = do
  refuse_if (not h.response) not_a_response
  refuse_if (not (h.op_code == 0)) (unexpected_opcode h.op_code)
  refuse_if h.truncated truncated_response
  refuse_if (not (h.id == expected_id)) id_mismatch

-- What a message with these normalized answers says.
unfoldable pub info_of : Message → List AnswerRecord → DnsInfo
info_of message answers = record {
  rcode = rcode_name message.header.rcode;
  rcode_value = message.header.rcode;
  resolver_reports_dnssec_authenticated = message.header.authentic_data;
  client_validated_dnssec = false;
  answers = some answers;
}

module _ (P : Platform) where
  unfoldable pub question_matches : Question → QueryInfo → Bool
  question_matches q query =
      text_eq (trim_root P q.name) query.name
      && q.qtype == or_zero (record_type query.qtype)
      && q.class == class_inet

  -- The tests of the questions.
  unfoldable pub check_questions : List Question → QueryInfo → Fallible (Unit {0})
  check_questions (q ∷ []) query = refuse_if (not (question_matches q query)) question_mismatch
  check_questions qs query = err (question_count (length qs))

  -- The loop over the answers.
  unfoldable pub parse_answers : List Resource → Fallible (List AnswerRecord)
  parse_answers [] = ok []
  parse_answers (r ∷ rs) = do
    refuse_if (not (r.header.class == class_inet))
        (unsupported_class (trim_root P r.header.name) r.header.class)
    answer ← normalize_answer P r
    answers ← parse_answers rs
    ok (answer ∷ answers)

  -- From the tests of the header on.
  unfoldable pub read_message : ℕ → QueryInfo → Message → Fallible DnsInfo
  read_message expected_id query message = do
    check_header message.header expected_id
    check_questions message.questions query
    answers ← parse_answers message.answers
    ok (info_of message answers)

  unfoldable pub parse_response : Bytes → ℕ → QueryInfo → Fallible DnsInfo
  parse_response wire expected_id query =
      from_option (P.unpack wire) unpack_response >>= read_message expected_id query
