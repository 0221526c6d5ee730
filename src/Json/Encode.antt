-- ===== src/Json/Encode.antt =====
-- internal/edns/model.go: the JSON values of the results, as the tags of the fields say.
-- `error_text` gives the wording of an error.
use encrypted_dns_skill.Base.{
  ℕ, ℤ, pos, negsuc, Bool, true, false, List, [], ◌∷◌, Option, none, some, ◌==◌,
}
use encrypted_dns_skill.Errors.{Error}
use encrypted_dns_skill.Json.{
  Json, null, boolean, number, array, object, Fields, no_fields, field, items_of,
}
use encrypted_dns_skill.Model.{
  QueryInfo, ResolverInfo, TransportInfo, ParamValue, Value, string, uint8, uint16, uint32, strings,
  params, AnswerRecord, DnsInfo, ErrorInfo, Result, CompareSummary, CompareResult,
}
use encrypted_dns_skill.Text.{Text, codes, is_empty}

abbrev pub text_field : Text → Text → Fields → Fields
text_field k t rest = field k (Json.string t) rest

abbrev pub natural : ℕ → Json
natural n = number (pos n)

-- `omitempty`: a field with the zero value of its type is left out.
abbrev pub field_unless : Bool → Text → Json → Fields → Fields
field_unless true k v rest = rest
field_unless false k v rest = field k v rest

abbrev pub nonempty_field : Text → Text → Fields → Fields
nonempty_field k t rest = field_unless (is_empty t) k (Json.string t) rest

abbrev pub is_zero : ℤ → Bool
is_zero (pos n) = n == 0
is_zero (negsuc n) = false

abbrev pub is_nil {ℓ} : {A : Type ℓ} → List A → Bool
is_nil [] = true
is_nil (x ∷ xs) = false

unfoldable pub query_json : QueryInfo → Json
query_json q =
    object (text_field (codes "name") q.name (text_field (codes "type") q.qtype no_fields))

unfoldable pub resolver_json : ResolverInfo → Json
resolver_json r = object (
    text_field (codes "provider") r.provider (
      text_field (codes "endpoint") r.endpoint (
        text_field (codes "profile") r.profile (
          nonempty_field (codes "authentication_name") r.authentication_name (
            field_unless (r.certificate_serial == 0) (codes "certificate_serial")
              (natural r.certificate_serial) no_fields)))))

-- The fields of `TransportInfo` that are left out where they are empty.
abbrev pub transport_details : TransportInfo → Fields
transport_details t = nonempty_field (codes "tls_version") t.tls_version (
    nonempty_field (codes "alpn") t.alpn (
      nonempty_field (codes "http_version") t.http_version (
        field_unless (is_zero t.http_age_seconds) (codes "http_age_seconds")
          (number t.http_age_seconds)
          (nonempty_field (codes "quic_version") t.quic_version (
            nonempty_field (codes "crypto_construction") t.crypto_construction
              (nonempty_field (codes "proxy") t.proxy no_fields))))))

unfoldable pub transport_json : TransportInfo → Json
transport_json t = object (
    text_field (codes "protocol") t.protocol (
      field (codes "encrypted") (boolean t.encrypted) (
        field (codes "server_authenticated") (boolean t.server_authenticated) (
          field (codes "elapsed_ms") (natural t.elapsed_ms)
            (text_field (codes "bootstrap") t.bootstrap (transport_details t))))))

-- The `map[string]any` of an SVCB parameter.
unfoldable pub param_json : ParamValue → Json
param_json p = object (
    text_field (codes "key") p.key (
      field (codes "key_value") (natural p.key_value)
        (text_field (codes "value_base64") p.value_base64 no_fields)))

unfoldable pub value_json : Value → Json
value_json (string t) = Json.string t
value_json (uint8 n) = natural n
value_json (uint16 n) = natural n
value_json (uint32 n) = natural n
value_json (strings l) = array (items_of Json.string l)
value_json (params l) = array (items_of param_json l)

unfoldable pub answer_fields : AnswerRecord → Fields
answer_fields [] = no_fields
answer_fields ((k, v) ∷ r) = field k (value_json v) (answer_fields r)

unfoldable pub answer_json : AnswerRecord → Json
answer_json r = object (answer_fields r)

-- A nil slice is `null`.
unfoldable pub answers_json : Option (List AnswerRecord) → Json
answers_json none = null
answers_json (some l) = array (items_of answer_json l)

unfoldable pub dns_json : DnsInfo → Json
dns_json d = object (
    text_field (codes "rcode") d.rcode (
      field (codes "rcode_value") (natural d.rcode_value) (
        field (codes "resolver_reports_dnssec_authenticated")
          (boolean d.resolver_reports_dnssec_authenticated)
          (field (codes "client_validated_dnssec") (boolean d.client_validated_dnssec)
            (field (codes "answers") (answers_json d.answers) no_fields)))))

unfoldable pub summary_json : CompareSummary → Json
summary_json s = object (
    field (codes "total") (natural s.total) (
      field (codes "completed") (natural s.completed) (
        field (codes "failed") (natural s.failed)
          (field (codes "unsupported") (natural s.unsupported) no_fields))))

module _ (error_text : Error → Text) where
  unfoldable pub error_json : ErrorInfo → Json
  error_json e = object (
      text_field (codes "class") e.class
        (text_field (codes "message") (error_text e.message) no_fields))

  -- `*ErrorInfo` with `omitempty`: a nil pointer is left out.
  abbrev pub error_field : Option ErrorInfo → Fields
  error_field none = no_fields
  error_field (some e) = field (codes "error") (error_json e) no_fields

  unfoldable pub result_json : Result → Json
  result_json r = object (
      field (codes "schema_version") (natural r.schema_version) (
        text_field (codes "operation") r.operation (
          field (codes "completed") (boolean r.completed) (
            field (codes "query") (query_json r.query) (
              field (codes "resolver") (resolver_json r.resolver) (
                field (codes "transport") (transport_json r.transport) (
                  field (codes "dns") (dns_json r.dns) (
                    field_unless (is_nil r.warnings) (codes "warnings")
                      (array (items_of Json.string r.warnings)) (error_field r.error)))))))))

  unfoldable pub compare_json : CompareResult → Json
  compare_json r = object (
      field (codes "schema_version") (natural r.schema_version) (
        text_field (codes "operation") r.operation (
          field (codes "completed") (boolean r.completed) (
            field (codes "query") (query_json r.query) (
              field (codes "attempts") (array (items_of result_json r.attempts))
                (field (codes "summary") (summary_json r.summary) (error_field r.error)))))))
