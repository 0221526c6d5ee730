-- ===== src/Schema/Answers.antt =====
-- The normalized answers, and that each of them conforms to the schema of its type alone.
use encrypted_dns_skill.Base.{ℕ, ◌≤◌, true, List, [], ◌∷◌, ◌≡◌, refl, arith, All}
use encrypted_dns_skill.Json.{string, has_key, all_items, items_of}
use encrypted_dns_skill.Json.Encode.{answer_json, answer_fields, value_json, param_json}
use encrypted_dns_skill.Model.{
  ParamValue, Value, uint8, uint16, uint32, strings, params, AnswerRecord,
}
use encrypted_dns_skill.Schema.{conforms, type_string}
use encrypted_dns_skill.Schema.Result.{
  address_schema, target_schema, mx_schema, txt_schema, ns_schema, soa_schema, caa_schema,
  srv_schema, param_schema, svcb_schema, answer_schema,
}
use encrypted_dns_skill.Text.{Text, codes, text_eq}

-- The name, the type and the TTL, which every answer begins with.
abbrev pub headed : Text → Text → ℕ → AnswerRecord → AnswerRecord
headed name t ttl rest =
    (codes "name", Value.string name)
    ∷ (codes "type", Value.string t)
    ∷ (codes "ttl", uint32 ttl)
    ∷ rest

-- The records that the program reports, one form for each type, in which 16-bit numbers are
-- within their range, and the flags of a CAA record are a byte.
pub data IsAnswer (name : Text) (ttl : ℕ) : AnswerRecord → Type 0 where
  a_answer :
      (x : Text)
      → IsAnswer name ttl (headed name (codes "A") ttl ((codes "address", Value.string x) ∷ []))
  aaaa_answer :
      (x : Text)
      → IsAnswer name ttl (headed name (codes "AAAA") ttl ((codes "address", Value.string x) ∷ []))
  cname_answer :
      (x : Text)
      → IsAnswer name ttl (headed name (codes "CNAME") ttl ((codes "target", Value.string x) ∷ []))
  ptr_answer :
      (x : Text)
      → IsAnswer name ttl (headed name (codes "PTR") ttl ((codes "target", Value.string x) ∷ []))
  mx_answer :
      (p : ℕ) (x : Text)
      → p ≤ 65535
      → IsAnswer name ttl (
          headed name
            (codes "MX")
            ttl
            ((codes "priority", uint16 p) ∷ (codes "exchange", Value.string x) ∷ []))
  txt_answer :
      (l : List Text)
      → IsAnswer name ttl (headed name (codes "TXT") ttl ((codes "strings", strings l) ∷ []))
  ns_answer :
      (x : Text)
      → IsAnswer name ttl (headed name (codes "NS") ttl ((codes "host", Value.string x) ∷ []))
  soa_answer :
      (x y : Text) (serial refresh retry expire min_ttl : ℕ)
      → IsAnswer name ttl (
          headed name (codes "SOA") ttl (
            (codes "primary_ns", Value.string x)
            ∷ (codes "responsible_mailbox", Value.string y)
            ∷ (codes "serial", uint32 serial)
            ∷ (codes "refresh", uint32 refresh)
            ∷ (codes "retry", uint32 retry)
            ∷ (codes "expire", uint32 expire)
            ∷ (codes "minimum_ttl", uint32 min_ttl)
            ∷ []))
  caa_answer :
      (flags : ℕ) (tag value : Text)
      → flags ≤ 255
      → IsAnswer name ttl (
          headed name (codes "CAA") ttl (
            (codes "flags", uint8 flags)
            ∷ (codes "tag", Value.string tag)
            ∷ (codes "value", Value.string value)
            ∷ []))
  srv_answer :
      (p w port : ℕ) (x : Text)
      → p ≤ 65535
      → w ≤ 65535
      → port ≤ 65535
      → IsAnswer name ttl (
          headed name (codes "SRV") ttl (
            (codes "priority", uint16 p)
            ∷ (codes "weight", uint16 w)
            ∷ (codes "port", uint16 port)
            ∷ (codes "target", Value.string x)
            ∷ []))
  svcb_answer :
      (p : ℕ) (x : Text) (l : List ParamValue)
      → p ≤ 65535
      → All (λ v. v.key_value ≤ 65535) l
      → IsAnswer name ttl (
          headed name (codes "SVCB") ttl (
            (codes "priority", uint16 p)
            ∷ (codes "target", Value.string x)
            ∷ (codes "params", params l)
            ∷ []))
  https_answer :
      (p : ℕ) (x : Text) (l : List ParamValue)
      → p ≤ 65535
      → All (λ v. v.key_value ≤ 65535) l
      → IsAnswer name ttl (
          headed name (codes "HTTPS") ttl (
            (codes "priority", uint16 p)
            ∷ (codes "target", Value.string x)
            ∷ (codes "params", params l)
            ∷ []))

pub strings-conform : (l : List Text) → all_items (conforms type_string) (items_of string l) ≡ true
unfolding conforms
strings-conform [] = refl
strings-conform (x ∷ l) = strings-conform l

params-conform :
    (l : List ParamValue)
    → All (λ v. v.key_value ≤ 65535) l
    → all_items (conforms param_schema) (items_of param_json l) ≡ true
unfolding conforms param_schema param_json text_eq has_key
params-conform [] h = refl
params-conform (x ∷ l) h = ground (arith, params-conform l h.1)

-- Each form conforms to one of the nine schemas of answers and to no other.
pub answer_conforms :
    {name : Text} {ttl : ℕ} {r : AnswerRecord}
    → IsAnswer name ttl r
    → conforms answer_schema (answer_json r) ≡ true
unfolding conforms answer_json answer_fields value_json address_schema target_schema mx_schema
    txt_schema ns_schema soa_schema caa_schema srv_schema svcb_schema answer_schema has_key text_eq
answer_conforms (a_answer x) = ground arith
answer_conforms (aaaa_answer x) = ground arith
answer_conforms (cname_answer x) = ground arith
answer_conforms (ptr_answer x) = ground arith
answer_conforms (mx_answer p x h) = ground arith
answer_conforms (txt_answer l) = ground (arith, strings-conform l)
answer_conforms (ns_answer x) = ground arith
answer_conforms (soa_answer x y serial refresh retry expire min_ttl) = ground arith
answer_conforms (caa_answer flags tag value h) = ground arith
answer_conforms (srv_answer p w port x h k l) = ground arith
answer_conforms (svcb_answer p x l h k) = ground (arith, params-conform l k)
answer_conforms (https_answer p x l h k) = ground (arith, params-conform l k)
