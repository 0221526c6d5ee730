-- ===== src/Schema/Result/Answers.antt =====
-- schemas/result-v1.schema.json: the schemas of the answers, and what all schemas share.
use encrypted_dns_skill.Base.{ℕ, true, List, [], ◌∷◌}
use encrypted_dns_skill.Schema.{
  Schema, type_string, type_integer, type_array, type_object, minimum, maximum, enum, items,
  required, properties, both, one_of, Properties, no_properties, property, no_schemas, alternative,
  const_text,
}
use encrypted_dns_skill.Text.{Text, codes}

abbrev pub natural_schema : Schema
natural_schema = both type_integer (minimum 0)

abbrev pub bounded_schema : ℕ → Schema
bounded_schema m = both type_integer (both (minimum 0) (maximum m))

-- An object with `required`, `properties` and `additionalProperties: false`.
abbrev pub closed_object : List Text → Properties → Schema
closed_object ks ps = both type_object (both (required ks) (properties true ps))

-- The definitions of answers start with the name, the type and the TTL: which types, and what is
-- required and allowed behind them.
abbrev pub answer_object : Schema → List Text → Properties → Schema
answer_object types ks ps = closed_object (codes "name" ∷ codes "type" ∷ codes "ttl" ∷ ks) (
    property (codes "name") type_string
      (property (codes "type") types (property (codes "ttl") natural_schema ps)))

unfoldable pub address_schema : Schema
address_schema =
    answer_object (enum (codes "A" ∷ codes "AAAA" ∷ [])) (codes "address" ∷ [])
      (property (codes "address") type_string no_properties)

unfoldable pub target_schema : Schema
target_schema =
    answer_object (enum (codes "CNAME" ∷ codes "PTR" ∷ [])) (codes "target" ∷ [])
      (property (codes "target") type_string no_properties)

unfoldable pub mx_schema : Schema
mx_schema = answer_object (const_text (codes "MX")) (codes "priority" ∷ codes "exchange" ∷ []) (
    property (codes "priority") (bounded_schema 65535)
      (property (codes "exchange") type_string no_properties))

unfoldable pub txt_schema : Schema
txt_schema =
    answer_object (const_text (codes "TXT")) (codes "strings" ∷ [])
      (property (codes "strings") (both type_array (items type_string)) no_properties)

unfoldable pub ns_schema : Schema
ns_schema =
    answer_object (const_text (codes "NS")) (codes "host" ∷ [])
      (property (codes "host") type_string no_properties)

unfoldable pub soa_schema : Schema
soa_schema =
    answer_object (const_text (codes "SOA"))
      (codes "primary_ns"
        ∷ codes "responsible_mailbox"
        ∷ codes "serial"
        ∷ codes "refresh"
        ∷ codes "retry"
        ∷ codes "expire"
        ∷ codes "minimum_ttl"
        ∷ [])
      (property (codes "primary_ns") type_string (
        property (codes "responsible_mailbox") type_string (
          property (codes "serial") natural_schema (
            property (codes "refresh") natural_schema (
              property (codes "retry") natural_schema (
                property (codes "expire") natural_schema
                  (property (codes "minimum_ttl") natural_schema no_properties)))))))

unfoldable pub caa_schema : Schema
caa_schema =
    answer_object (const_text (codes "CAA")) (codes "flags" ∷ codes "tag" ∷ codes "value" ∷ []) (
      property (codes "flags") (bounded_schema 255)
        (property (codes "tag") type_string (property (codes "value") type_string no_properties)))

unfoldable pub srv_schema : Schema
srv_schema =
    answer_object (const_text (codes "SRV"))
      (codes "priority" ∷ codes "weight" ∷ codes "port" ∷ codes "target" ∷ [])
      (property (codes "priority") (bounded_schema 65535) (
        property (codes "weight") (bounded_schema 65535) (
          property (codes "port") (bounded_schema 65535)
            (property (codes "target") type_string no_properties))))

unfoldable pub param_schema : Schema
param_schema = closed_object (codes "key" ∷ codes "key_value" ∷ codes "value_base64" ∷ []) (
    property (codes "key") type_string (
      property (codes "key_value") (bounded_schema 65535)
        (property (codes "value_base64") type_string no_properties)))

unfoldable pub svcb_schema : Schema
svcb_schema =
    answer_object (enum (codes "SVCB" ∷ codes "HTTPS" ∷ []))
      (codes "priority" ∷ codes "target" ∷ codes "params" ∷ [])
      (property (codes "priority") (bounded_schema 65535) (
        property (codes "target") type_string
          (property (codes "params") (both type_array (items param_schema)) no_properties)))

unfoldable pub answer_schema : Schema
answer_schema = one_of (
    alternative address_schema (
      alternative target_schema (
        alternative mx_schema (
          alternative txt_schema (
            alternative ns_schema (
              alternative soa_schema (
                alternative caa_schema
                  (alternative srv_schema (alternative svcb_schema no_schemas)))))))))
