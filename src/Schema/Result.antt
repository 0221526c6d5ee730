-- ===== src/Schema/Result.antt =====
-- schemas/result-v1.schema.json: the schema of the results.
mod Answers
unfoldable pub use Answers.*
use encrypted_dns_skill.Base.{ℕ, true, false, List, [], ◌∷◌}
use encrypted_dns_skill.Schema.{
  Schema, type_string, type_boolean, type_integer, type_array, type_object, minimum, maximum, enum,
  const_boolean, const_number, items, max_items, required, properties, both, none_of, one_of,
  if_then_else, Properties, no_properties, property, no_schemas, alternative, const_text,
}
use encrypted_dns_skill.Text.{Text, codes}

unfoldable pub query_types : List Text
query_types =
    codes "A"
    ∷ codes "AAAA"
    ∷ codes "CNAME"
    ∷ codes "MX"
    ∷ codes "TXT"
    ∷ codes "NS"
    ∷ codes "SOA"
    ∷ codes "CAA"
    ∷ codes "SRV"
    ∷ codes "PTR"
    ∷ codes "HTTPS"
    ∷ codes "SVCB"
    ∷ []

unfoldable pub query_schema : Schema
query_schema =
    closed_object (codes "name" ∷ codes "type" ∷ []) (
      property (codes "name") type_string
        (property (codes "type") (enum query_types) no_properties))

unfoldable pub resolver_schema : Schema
resolver_schema = closed_object (codes "provider" ∷ codes "endpoint" ∷ codes "profile" ∷ []) (
    property (codes "provider") type_string (
      property (codes "endpoint") type_string (
        property (codes "profile") type_string (
          property (codes "authentication_name") type_string
            (property (codes "certificate_serial") natural_schema no_properties)))))

unfoldable pub protocols : List Text
protocols =
    codes "doh"
    ∷ codes "dot"
    ∷ codes "doq"
    ∷ codes "doh3"
    ∷ codes "dnscrypt"
    ∷ codes "odoh"
    ∷ codes "anonymized-dnscrypt"
    ∷ []

unfoldable pub transport_properties : Properties
transport_properties = property (codes "protocol") (enum protocols) (
    property (codes "encrypted") type_boolean (
      property (codes "server_authenticated") type_boolean (
        property (codes "elapsed_ms") natural_schema (
          property (codes "bootstrap") type_string (
            property (codes "tls_version") type_string (
              property (codes "alpn") type_string (
                property (codes "http_version") type_string (
                  property (codes "http_age_seconds") natural_schema (
                    property (codes "quic_version") type_string (
                      property (codes "crypto_construction") type_string
                        (property (codes "proxy") type_string no_properties)))))))))))

unfoldable pub transport_schema : Schema
transport_schema =
    closed_object
      (codes "protocol"
        ∷ codes "encrypted"
        ∷ codes "server_authenticated"
        ∷ codes "elapsed_ms"
        ∷ codes "bootstrap"
        ∷ [])
      transport_properties

unfoldable pub dns_schema : Schema
dns_schema =
    closed_object
      (codes "rcode"
        ∷ codes "rcode_value"
        ∷ codes "resolver_reports_dnssec_authenticated"
        ∷ codes "client_validated_dnssec"
        ∷ codes "answers"
        ∷ [])
      (property (codes "rcode") type_string (
        property (codes "rcode_value") natural_schema (
          property (codes "resolver_reports_dnssec_authenticated") type_boolean (
            property (codes "client_validated_dnssec") (const_boolean false)
              (property (codes "answers") (both type_array (items answer_schema)) no_properties)))))

unfoldable pub error_classes : List Text
error_classes =
    codes "input"
    ∷ codes "transport"
    ∷ codes "protocol"
    ∷ codes "unsupported"
    ∷ codes "internal"
    ∷ []

unfoldable pub error_schema : Schema
error_schema = closed_object (codes "class" ∷ codes "message" ∷ []) (
    property (codes "class") (enum error_classes)
      (property (codes "message") type_string no_properties))

unfoldable pub completed_properties : Properties
completed_properties = property (codes "completed") (const_boolean true) no_properties

-- The `if` of both results: completed without an error, or with an error.
unfoldable pub settled_schema : Schema
settled_schema =
    if_then_else (both (properties false completed_properties) (required (codes "completed" ∷ [])))
      (none_of (required (codes "error" ∷ []))) (required (codes "error" ∷ []))

unfoldable pub single_properties : Properties
single_properties = property (codes "schema_version") (const_number 1) (
    property (codes "operation") (enum (codes "query" ∷ codes "probe" ∷ [])) (
      property (codes "completed") type_boolean (
        property (codes "query") query_schema (
          property (codes "resolver") resolver_schema (
            property (codes "transport") transport_schema (
              property (codes "dns") dns_schema (
                property (codes "warnings") (both type_array (items type_string))
                  (property (codes "error") error_schema no_properties))))))))

unfoldable pub single_schema : Schema
single_schema =
    both
      (closed_object
        (codes "schema_version"
          ∷ codes "operation"
          ∷ codes "completed"
          ∷ codes "query"
          ∷ codes "resolver"
          ∷ codes "transport"
          ∷ codes "dns"
          ∷ [])
        single_properties)
      settled_schema

unfoldable pub summary_schema : Schema
summary_schema =
    closed_object (codes "total" ∷ codes "completed" ∷ codes "failed" ∷ codes "unsupported" ∷ []) (
      property (codes "total") natural_schema (
        property (codes "completed") natural_schema (
          property (codes "failed") natural_schema
            (property (codes "unsupported") natural_schema no_properties))))

unfoldable pub compare_properties : Properties
compare_properties = property (codes "schema_version") (const_number 1) (
    property (codes "operation") (const_text (codes "compare")) (
      property (codes "completed") type_boolean (
        property (codes "query") query_schema (
          property (codes "attempts") (both type_array (both (items single_schema) (max_items 8))) (
            property (codes "summary") summary_schema
              (property (codes "error") error_schema no_properties))))))

unfoldable pub compare_schema : Schema
compare_schema =
    both
      (closed_object
        (codes "schema_version"
          ∷ codes "operation"
          ∷ codes "completed"
          ∷ codes "query"
          ∷ codes "attempts"
          ∷ codes "summary"
          ∷ [])
        compare_properties)
      settled_schema

-- The whole schema.
unfoldable pub result_v1 : Schema
result_v1 = one_of (alternative single_schema (alternative compare_schema no_schemas))
