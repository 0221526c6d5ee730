-- ===== src/Dns/Answer.antt =====
-- internal/edns/dns.go: `normalizeAnswer` and `addSVCBFields`.
pub mod Laws
use encrypted_dns_skill.Base.{
  ℕ, ◌+◌, Bool, true, false, ◌&&◌, List, [], ◌∷◌, ◌++◌, map, Option, none, some, ◌==◌, leb,
  if◌then◌else◌, length, take, drop,
}
use encrypted_dns_skill.Base64.{base64}
use encrypted_dns_skill.Dns.Message.{
  Resource, Body, Soa, SvcParam, a, aaaa, cname, mx, txt, ns, ptr, soa, srv, svcb, https, unknown,
  other,
}
use encrypted_dns_skill.Dns.Tables.{caa_type, type_name, trim_root}
use encrypted_dns_skill.Errors.{
  Error, truncated_caa_tag, not_representable, unexpected_representation, Fallible, ok, err,
}
use encrypted_dns_skill.Model.{
  Value, string, uint8, uint16, uint32, strings, params, ParamValue, AnswerRecord,
}
use encrypted_dns_skill.Platform.{Platform}
use encrypted_dns_skill.Text.{Text, Bytes, codes, text_eq, decimal}

-- `record[key] = value`
unfoldable pub put_field : Text → Value → AnswerRecord → AnswerRecord
put_field k v [] = (k, v) ∷ []
put_field k v ((j, w) ∷ r) = if text_eq k j then (j, v) ∷ r else (j, w) ∷ put_field k v r

-- `record[key]`
unfoldable pub get_field : Text → AnswerRecord → Option Value
get_field k [] = none
get_field k ((j, w) ∷ r) = if text_eq k j then some w else get_field k r

-- `net.IP.String` of four bytes; sixteen are left to the platform.
unfoldable pub ip_text : Platform → Bytes → Text
ip_text P (w ∷ x ∷ y ∷ z ∷ []) =
    decimal w ++ b'.' ∷ (decimal x ++ b'.' ∷ (decimal y ++ b'.' ∷ decimal z))
ip_text P bytes = P.ip_string bytes

module _ (P : Platform) where
  unfoldable pub param_value : SvcParam → ParamValue
  param_value p = record {
    key = P.svc_key_string p.key;
    key_value = p.key;
    value_base64 = base64 p.value;
  }

  -- `addSVCBFields`
  unfoldable pub add_svcb_fields : AnswerRecord → ℕ → Text → List SvcParam → AnswerRecord
  add_svcb_fields r priority target ps = put_field (codes "params") (params (map param_value ps)) (
      put_field (codes "target") (string (trim_root P target))
        (put_field (codes "priority") (uint16 priority) r))

  -- The tag and the value behind the flags and the length of the tag.
  unfoldable pub caa_fields : AnswerRecord → ℕ → ℕ → Bytes → Fallible AnswerRecord
  caa_fields r flags tag_length rest =
      if leb tag_length (length rest)
      then ok (
          put_field (codes "value") (string (drop tag_length rest)) (
            put_field (codes "tag") (string (take tag_length rest))
              (put_field (codes "flags") (uint8 flags) r)))
      else err truncated_caa_tag

  -- The case of an `UnknownResource` with at least two bytes or with fewer.
  unfoldable pub unknown_fields : AnswerRecord → ℕ → Bytes → Fallible AnswerRecord
  unknown_fields r rtype (flags ∷ tag_length ∷ rest) =
      if rtype == caa_type
      then caa_fields r flags tag_length rest
      else err (not_representable (type_name rtype))
  unknown_fields r rtype _ = err (not_representable (type_name rtype))

  unfoldable pub soa_fields : AnswerRecord → Soa → AnswerRecord
  soa_fields r s = put_field (codes "minimum_ttl") (uint32 s.min_ttl) (
      put_field (codes "expire") (uint32 s.expire) (
        put_field (codes "retry") (uint32 s.retry) (
          put_field (codes "refresh") (uint32 s.refresh) (
            put_field (codes "serial") (uint32 s.serial) (
              put_field (codes "responsible_mailbox") (string (trim_root P s.mbox))
                (put_field (codes "primary_ns") (string (trim_root P s.ns)) r))))))

  -- The switch over the body.
  unfoldable pub body_fields : AnswerRecord → ℕ → Body → Fallible AnswerRecord
  body_fields r rtype (a bytes) = ok (put_field (codes "address") (string (ip_text P bytes)) r)
  body_fields r rtype (aaaa bytes) = ok (put_field (codes "address") (string (ip_text P bytes)) r)
  body_fields r rtype (cname n) = ok (put_field (codes "target") (string (trim_root P n)) r)
  body_fields r rtype (mx pref n) = ok (
      put_field (codes "exchange") (string (trim_root P n))
        (put_field (codes "priority") (uint16 pref) r))
  body_fields r rtype (txt l) = ok (put_field (codes "strings") (strings l) r)
  body_fields r rtype (ns n) = ok (put_field (codes "host") (string (trim_root P n)) r)
  body_fields r rtype (ptr n) = ok (put_field (codes "target") (string (trim_root P n)) r)
  body_fields r rtype (soa s) = ok (soa_fields r s)
  body_fields r rtype (srv priority weight port n) = ok (
      put_field (codes "target") (string (trim_root P n)) (
        put_field (codes "port") (uint16 port) (
          put_field (codes "weight") (uint16 weight)
            (put_field (codes "priority") (uint16 priority) r))))
  body_fields r rtype (svcb priority target ps) = ok (add_svcb_fields r priority target ps)
  body_fields r rtype (https priority target ps) = ok (add_svcb_fields r priority target ps)
  body_fields r rtype (unknown bytes) = unknown_fields r rtype bytes
  body_fields r rtype other = err (unexpected_representation (type_name rtype))

  unfoldable pub normalize_answer : Resource → Fallible AnswerRecord
  normalize_answer resource =
      let header = resource.header in
      body_fields
        ((codes "name", string (trim_root P header.name))
          ∷ (codes "type", string (type_name header.rtype))
          ∷ (codes "ttl", uint32 header.ttl)
          ∷ [])
        header.rtype resource.body
