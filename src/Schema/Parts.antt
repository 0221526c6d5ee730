-- ===== src/Schema/Parts.antt =====
-- The parts of a result: when each conforms to its schema.
use encrypted_dns_skill.Base.{
  ℤ, IsNatural, pos, negsuc, Bool, true, false, ◌&&◌, List, Option, none, some, ◌≡◌, refl, arith,
  ◌==◌,
}
use encrypted_dns_skill.Errors.{Error}
use encrypted_dns_skill.Json.{Json, number, Fields, has_key, all_items, all_fields, items_of}
use encrypted_dns_skill.Json.Encode.{
  field_unless, is_zero, query_json, resolver_json, transport_json, transport_details, answer_json,
  answers_json, dns_json, summary_json, error_json,
}
use encrypted_dns_skill.Model.{
  QueryInfo, ResolverInfo, TransportInfo, AnswerRecord, DnsInfo, ErrorInfo, CompareSummary,
}
use encrypted_dns_skill.Schema.{items, type_array, conforms, conforms_property, is_listed}
use encrypted_dns_skill.Schema.Result.{
  natural_schema, transport_properties, query_types, query_schema, resolver_schema, protocols,
  transport_schema, answer_schema, dns_schema, error_classes, error_schema, summary_schema,
}
use encrypted_dns_skill.Text.{Text, text_eq, is_empty}

-- A field that may be left out is harmless where its value is right.
pub unless-all :
    (p : Text → Json → Bool) (b : Bool) (k : Text) (v : Json) (rest : Fields)
    → p k v ≡ true
    → all_fields p rest ≡ true
    → all_fields p (field_unless b k v rest) ≡ true
unless-all p true k v rest h hs = hs
unless-all p false k v rest h hs = ground arith

pub query-conforms :
    (q : QueryInfo) → conforms query_schema (query_json q) ≡ is_listed query_types q.qtype
unfolding conforms query_schema query_json has_key text_eq
query-conforms q = ground arith

pub resolver-conforms : (r : ResolverInfo) → conforms resolver_schema (resolver_json r) ≡ true
unfolding conforms resolver_schema resolver_json has_key text_eq
resolver-conforms r =
    unless-all _ (is_empty r.authentication_name) _ _ _ refl
      (unless-all _ (r.certificate_serial == 0) _ _ _ (ground arith) refl)

natural-conforms : (z : ℤ) → IsNatural z → conforms natural_schema (number z) ≡ true
unfolding conforms
natural-conforms (pos n) h = ground arith
natural-conforms (negsuc n) h = absurd h

details-conform :
    (t : TransportInfo)
    → IsNatural t.http_age_seconds
    → all_fields (conforms_property transport_properties true) (transport_details t) ≡ true
unfolding conforms transport_properties text_eq
details-conform t h = unless-all _ (is_empty t.tls_version) _ _ _ refl (
    unless-all _ (is_empty t.alpn) _ _ _ refl (
      unless-all _ (is_empty t.http_version) _ _ _ refl (
        unless-all _ (is_zero t.http_age_seconds) _ _ _ (natural-conforms t.http_age_seconds h) (
          unless-all _ (is_empty t.quic_version) _ _ _ refl (
            unless-all _ (is_empty t.crypto_construction) _ _ _ refl
              (unless-all _ (is_empty t.proxy) _ _ _ refl refl))))))

pub transport-conforms :
    (t : TransportInfo)
    → IsNatural t.http_age_seconds
    → conforms transport_schema (transport_json t) ≡ is_listed protocols t.protocol
unfolding conforms transport_schema transport_properties transport_json has_key text_eq
transport-conforms t h = ground (arith, details-conform t h)

pub error-conforms :
    (f : Error → Text) (e : ErrorInfo)
    → conforms error_schema (error_json f e) ≡ is_listed error_classes e.class
unfolding conforms error_schema error_json has_key text_eq
error-conforms f e = ground arith

pub summary-conforms : (s : CompareSummary) → conforms summary_schema (summary_json s) ≡ true
unfolding conforms summary_schema summary_json has_key text_eq
summary-conforms s = ground arith

-- The answers are an array of which each conforms.
abbrev pub are_answers : Option (List AnswerRecord) → Bool
are_answers none = false
are_answers (some l) = all_items (conforms answer_schema) (items_of answer_json l)

answers-conform :
    (o : Option (List AnswerRecord))
    → (conforms type_array (answers_json o) && conforms (items answer_schema) (answers_json o))
      ≡ are_answers o
unfolding conforms answers_json
answers-conform none = refl
answers-conform (some l) = refl

pub dns-conforms :
    (d : DnsInfo)
    → d.client_validated_dnssec ≡ false
    → conforms dns_schema (dns_json d) ≡ are_answers d.answers
unfolding conforms dns_schema dns_json has_key text_eq
dns-conforms d h = ground (arith, answers-conform d.answers)
