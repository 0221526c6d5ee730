-- ===== src/Capability.antt =====
-- internal/edns/capabilities.go: the protocols, and which options apply to them.
pub mod Laws
use encrypted_dns_skill.Base.{Bool, true, false, not, ◌&&◌, ◌||◌, List, [], ◌∷◌, if◌then◌else◌}
use encrypted_dns_skill.Errors.{
  Error, method_not_get_or_post, method_not_applicable, Fallible, ok, err,
}
use encrypted_dns_skill.Text.{Text, codes, text_eq}

pub record Capability : Type 0 where
  pub protocol : Text
  pub status : Text
  pub standard : Text
  pub note : Text

abbrev capability : Text → Text → Text → Text → Capability
capability protocol status standard note = record {
  protocol = protocol;
  status = status;
  standard = standard;
  note = note;
}

unfoldable pub capabilities : List Capability
capabilities =
    capability (codes "doh") (codes "available") (codes "RFC 8484")
      (codes "RFC wire format over HTTP GET or POST")
    ∷ capability (codes "dot") (codes "available") (codes "RFC 7858 and RFC 8310")
        (codes "strict PKIX and authentication-domain validation")
    ∷ capability (codes "doq") (codes "available") (codes "RFC 9250")
        (codes "RFC wire format over dedicated QUIC streams")
    ∷ capability (codes "doh3") (codes "available") (codes "RFC 8484 over HTTP/3")
        (codes "RFC wire format over HTTP/3 GET or POST")
    ∷ capability (codes "dnscrypt") (codes "available") (codes "DNSCrypt protocol specification")
        (codes "DNSCrypt v2 with authenticated resolver certificates")
    ∷ capability (codes "odoh") (codes "research") (codes "RFC 9230")
        (codes "No maintained Go dependency has been selected.")
    ∷ capability (codes "anonymized-dnscrypt") (codes "research")
        (codes "Anonymized DNSCrypt specification") []
    ∷ []

-- The loop of `KnownProtocol`.
unfoldable pub lists_protocol : List Capability → Text → Bool
lists_protocol [] protocol = false
lists_protocol (item ∷ items) protocol =
    text_eq item.protocol protocol || lists_protocol items protocol

unfoldable pub known_protocol : Text → Bool
known_protocol protocol = lists_protocol capabilities protocol

-- `ValidateHTTPMethod`
unfoldable pub validate_http_method : Text → Text → Fallible (Unit {0})
validate_http_method protocol method =
    if not (text_eq method (codes "get")) && not (text_eq method (codes "post"))
    then err method_not_get_or_post
    else if not (text_eq protocol (codes "doh"))
        && not (text_eq protocol (codes "doh3"))
        && not (text_eq method (codes "post"))
    then err method_not_applicable
    else ok tt

-- `ProxySupportedForProtocol`
unfoldable pub proxy_supported : Text → Bool
proxy_supported protocol = text_eq protocol (codes "doh") || text_eq protocol (codes "dot")
