-- ===== src/Tests/Dns.antt =====
-- Names, answers, responses and their age.
use encrypted_dns_skill.Base.{
  pos, [], ◌∷◌, true, false, some, some-injective, ◌≡◌, ◌↔◌, refl, arith,
}
use encrypted_dns_skill.Dns.Age.{apply_http_age}
use encrypted_dns_skill.Dns.Age.Laws.{AnswersAged, apply_http_age-AnswersAged}
use encrypted_dns_skill.Dns.Answer.{get_field, normalize_answer, body_fields, ip_text, put_field}
use encrypted_dns_skill.Dns.Message.{ResourceHeader}
use encrypted_dns_skill.Dns.Name.{
  canonical_name, blocked_suffixes, check_ascii, from_option, has_bad_label, matches_suffix,
}
use encrypted_dns_skill.Dns.Name.Laws.{IsPublicName, canonical_name-IsPublicName}
use encrypted_dns_skill.Dns.Query.{Built, build_query, ptr_name, query_message, question_name}
use encrypted_dns_skill.Dns.Query.Asked.{IsAskedQuery, ParsesAddrs, build_query_sound}
use encrypted_dns_skill.Dns.Response.{
  parse_response, check_header, check_questions, info_of, parse_answers, question_matches,
  read_message,
}
use encrypted_dns_skill.Dns.Response.Laws.{IsReply, parse_response-IsReply}
use encrypted_dns_skill.Dns.Reverse.RoundTrip.{
  IsAddr, read_reverse, read_reverse-reverse_name, without_zone,
}
use encrypted_dns_skill.Dns.Reverse.{nibbles, reverse_name, reverse_nibbles}
use mathlib.Core.Path.{subst}
use encrypted_dns_skill.Dns.Tables.{
  type_name, trim_root, is_supported_record_type, lookup_type, rcode_name, record_type,
  record_types, type_name_in,
}
use encrypted_dns_skill.Errors.{blocked_name, ok, err}
use encrypted_dns_skill.Model.{DnsInfo, string, uint32}
use encrypted_dns_skill.Platform.{Addr, v6, to_lower, trim_space, to_upper}
use encrypted_dns_skill.Tests.Fixtures.{platform, random}
use encrypted_dns_skill.Text.{
  Text, codes, is_empty, trim_suffix, cut, decimal, digits, has_prefix, has_suffix, hex_digit,
  is_ascii, is_space, lower_byte, split, split_from, text_eq, trim_left, trim_prefix, trim_right,
  upper_byte,
}

-- A name that is kept for local use is refused.
local-refused : canonical_name platform (codes "printer.local") ≡ err blocked_name
unfolding text_eq has_prefix has_suffix trim_prefix trim_suffix split split_from cut digits decimal
    hex_digit is_ascii is_space lower_byte upper_byte trim_left trim_right to_lower to_upper
    trim_space has_bad_label blocked_suffixes matches_suffix from_option check_ascii canonical_name
local-refused = refl

www-canonical : canonical_name platform (codes " WWW.Example.com. ") ≡ ok (codes "www.example.com")
unfolding text_eq has_prefix has_suffix trim_prefix trim_suffix split split_from cut digits decimal
    hex_digit is_ascii is_space lower_byte upper_byte trim_left trim_right to_lower to_upper
    trim_space has_bad_label blocked_suffixes matches_suffix from_option check_ascii canonical_name
www-canonical = refl

abbrev built : Built
built = record {
  wire = 18 ∷ 52 ∷ [];
  query = record { name = codes "example.com"; qtype = codes "A" };
  id = 4660;
}

built-ok : build_query platform random (codes "example.com") (codes "a") ≡ ok built
unfolding text_eq has_prefix has_suffix trim_prefix trim_suffix split split_from cut digits decimal
    hex_digit is_ascii is_space lower_byte upper_byte trim_left trim_right to_lower to_upper
    trim_space has_bad_label blocked_suffixes matches_suffix from_option check_ascii canonical_name
    record_types lookup_type record_type type_name_in type_name rcode_name is_supported_record_type
    trim_root query_message ptr_name question_name build_query
built-ok = refl

abbrev answered : DnsInfo
answered = record {
  rcode = codes "NOERROR";
  rcode_value = 0;
  resolver_reports_dnssec_authenticated = true;
  client_validated_dnssec = false;
  answers = some (
      ((codes "name", string (codes "example.com"))
        ∷ (codes "type", string (codes "A"))
        ∷ (codes "ttl", uint32 300)
        ∷ (codes "address", string (codes "192.0.2.1"))
        ∷ [])
      ∷ []);
}

response-parsed : parse_response platform (18 ∷ 52 ∷ []) 4660 built.query ≡ ok answered
unfolding text_eq has_prefix has_suffix trim_prefix trim_suffix split split_from cut digits decimal
    hex_digit is_ascii is_space lower_byte upper_byte trim_left trim_right to_lower to_upper
    trim_space record_types lookup_type record_type type_name_in type_name rcode_name
    is_supported_record_type trim_root from_option put_field get_field ip_text body_fields
    normalize_answer check_header info_of question_matches check_questions parse_answers
    read_message parse_response
response-parsed = refl

canonical_name-IsPublicName_example :
    let name = trim_suffix (trim_space platform (codes " WWW.Example.com. ")) (codes ".") in
    (is_empty name ≡ false)
    × (platform.is_ip name ≡ false)
    × ((raw : Text) × (platform.to_ascii name ≡ some raw)
        × (codes "www.example.com" ≡ to_lower platform raw))
    × IsPublicName (codes "www.example.com")
canonical_name-IsPublicName_example =
    canonical_name-IsPublicName platform (codes " WWW.Example.com. ") (codes "www.example.com")
      www-canonical

platform-ParsesAddrs : ParsesAddrs platform
platform-ParsesAddrs s address h =
    subst IsAddr (some-injective _ _ h) (omega arith, omega arith, omega arith, omega arith)

build_query_sound_example : IsAskedQuery platform random (codes "example.com") (codes "a") built
build_query_sound_example =
    build_query_sound platform random (codes "example.com") (codes "a") built platform-ParsesAddrs
      built-ok

parse_response-IsReply_example :
    (parse_response platform (18 ∷ 52 ∷ []) 4660 built.query ≡ ok answered)
    ↔ IsReply platform (18 ∷ 52 ∷ []) 4660 built.query answered
parse_response-IsReply_example =
    parse_response-IsReply platform (18 ∷ 52 ∷ []) 4660 built.query answered

apply_http_age-AnswersAged_example :
    AnswersAged 10 answered.answers (apply_http_age answered (pos 10)).answers
apply_http_age-AnswersAged_example = apply_http_age-AnswersAged answered (pos 10)

abbrev caa_header : ResourceHeader
caa_header = record { name = codes "example.com."; rtype = 257; class = 1; ttl = 60 }

-- An IPv6 address with a zone.
abbrev test_addr : Addr
test_addr =
    v6 (32 ∷ 1 ∷ 13 ∷ 184 ∷ 0 ∷ 0 ∷ 0 ∷ 0 ∷ 0 ∷ 0 ∷ 0 ∷ 0 ∷ 0 ∷ 0 ∷ 0 ∷ 1 ∷ []) (codes "eth0")

test-reversed :
    reverse_name test_addr
    ≡ codes "1.0.0.0.0.0.0.0.0.0.0.0.0.0.0.0.0.0.0.0.0.0.0.0.8.b.d.0.1.0.0.2.ip6.arpa"
unfolding reverse_name reverse_nibbles nibbles hex_digit
test-reversed = refl

test-IsAddr : IsAddr test_addr
test-IsAddr = (
  refl,
  (
    omega arith,
    (
      omega arith,
      (
        omega arith,
        (
          omega arith,
          (
            omega arith,
            (
              omega arith,
              (
                omega arith,
                (
                  omega arith,
                  (
                    omega arith,
                    (
                      omega arith,
                      (
                        omega arith,
                        (
                          omega arith,
                          (omega arith, (omega arith, (omega arith, (omega arith, tt)))),
                        ),
                      ),
                    ),
                  ),
                ),
              ),
            ),
          ),
        ),
      ),
    ),
  ),
)

read_reverse-reverse_name_example :
    read_reverse (reverse_name test_addr) ≡ some (without_zone test_addr)
read_reverse-reverse_name_example = read_reverse-reverse_name test_addr test-IsAddr
