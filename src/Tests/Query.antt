-- ===== src/Tests/Query.antt =====
-- Queries over the fixtures.
use encrypted_dns_skill.Proxy.{
  accept_url, check_proxy, from_selected, parse_proxy_url, resolve_proxy, validate_proxy_url,
}
use encrypted_dns_skill.Provider.{
  adguard, cloudflare, dnscrypt_endpoint, endpoint, find_provider, google, is_no_config,
  lookup_provider, providers, quad9, raw_endpoint, stamp,
}
use encrypted_dns_skill.Platform.{to_lower, to_upper, trim_space}
use encrypted_dns_skill.Dns.Tables.{
  is_supported_record_type, lookup_type, rcode_name, record_type, record_types, trim_root,
  type_name, type_name_in,
}
use encrypted_dns_skill.Dns.Response.{
  check_header, check_questions, info_of, parse_answers, parse_response, question_matches,
  read_message,
}
use encrypted_dns_skill.Dns.Name.{
  blocked_suffixes, canonical_name, check_ascii, from_option, has_bad_label, matches_suffix,
}
use encrypted_dns_skill.Dns.Answer.{body_fields, get_field, ip_text, normalize_answer, put_field}
use encrypted_dns_skill.Dns.Age.{age_answer, age_answers, age_ttl, apply_http_age}
use encrypted_dns_skill.Capability.{proxy_supported}
use encrypted_dns_skill.Query.Laws.Completes.{
  IsAnswered, IsResolver, is_cloudflare, query_completes,
}
use encrypted_dns_skill.Dns.Name.Accepts.{IsAcceptableName}
use encrypted_dns_skill.Dns.Reverse.{reverse_name}
use encrypted_dns_skill.Dns.Query.Accepts.{PacksNames, IsAcceptable, a_name}
use encrypted_dns_skill.Dns.Query.Asked.{type_a}
use encrypted_dns_skill.Errors.Laws.{ok-injective}
use encrypted_dns_skill.Provider.{Provider}
use encrypted_dns_skill.Provider.Offered.{StampsStart, offered, contains}
use mathlib.Core.Path.{subst₂}
use encrypted_dns_skill.Base.{some, ◌++◌, sym, ◌∙◌, arith, [], ◌∷◌, true, none, ◌≡◌, refl}
use encrypted_dns_skill.Errors.{ok, err, unknown_provider}
use encrypted_dns_skill.Errors.Laws.{err-ne-ok}
use encrypted_dns_skill.Model.{QueryOptions}
use encrypted_dns_skill.Dns.Query.{Built, build_query, ptr_name, query_message, question_name}
use encrypted_dns_skill.Query.{
  query_with_exchange, sent_wire, sent_id, clear_id, endpoint_class, failed, finish, initial_result,
  receive, report_peer, send, wants_zero_id, with_provider, with_query,
}
use encrypted_dns_skill.Query.Laws.Accepted.{IsAccepted, query-IsAccepted}
use encrypted_dns_skill.Query.Laws.Ids.{PacksId}
use encrypted_dns_skill.Query.Laws.Isolation.{query_isolated}
use encrypted_dns_skill.Tests.Fixtures.{platform, random, answer, garble, doh_options}
use encrypted_dns_skill.Text.{
  codes, cut, decimal, digits, has_prefix, has_suffix, hex_digit, is_ascii, is_space, lower_byte,
  split, split_from, text_eq, trim_left, trim_prefix, trim_right, trim_suffix, upper_byte,
}

abbrev example_built : Built
example_built = record {
  wire = 18 ∷ 52 ∷ [];
  query = record { name = codes "example.com"; qtype = codes "A" };
  id = 4660;
}

example-built : build_query platform random (codes "example.com") (codes "a") ≡ ok example_built
unfolding text_eq has_prefix has_suffix trim_prefix trim_suffix split split_from cut digits decimal
    hex_digit is_ascii is_space lower_byte upper_byte trim_left trim_right to_lower to_upper
    trim_space has_bad_label blocked_suffixes matches_suffix from_option check_ascii canonical_name
    record_types lookup_type record_type type_name_in type_name rcode_name is_supported_record_type
    trim_root query_message ptr_name question_name build_query
example-built = refl

doh-completed : (query_with_exchange platform random doh_options answer).completed ≡ true
unfolding text_eq has_prefix has_suffix trim_prefix trim_suffix split split_from cut digits decimal
    hex_digit is_ascii is_space lower_byte upper_byte trim_left trim_right to_lower to_upper
    trim_space has_bad_label blocked_suffixes matches_suffix from_option check_ascii canonical_name
    record_types lookup_type record_type type_name_in type_name rcode_name is_supported_record_type
    trim_root query_message ptr_name question_name build_query put_field get_field ip_text
    body_fields normalize_answer check_header info_of question_matches check_questions parse_answers
    read_message parse_response age_ttl age_answer age_answers apply_http_age cloudflare google
    quad9 adguard providers stamp is_no_config dnscrypt_endpoint raw_endpoint endpoint
    lookup_provider find_provider check_proxy accept_url parse_proxy_url validate_proxy_url
    from_selected resolve_proxy proxy_supported failed initial_result wants_zero_id clear_id
    sent_wire sent_id report_peer finish receive endpoint_class send with_provider with_query
    query_with_exchange
doh-completed = refl

-- A response that cannot be unpacked leaves the answers nil.
garbled-nil : (query_with_exchange platform random doh_options garble).dns.answers ≡ none
unfolding text_eq has_prefix has_suffix trim_prefix trim_suffix split split_from cut digits decimal
    hex_digit is_ascii is_space lower_byte upper_byte trim_left trim_right to_lower to_upper
    trim_space has_bad_label blocked_suffixes matches_suffix from_option check_ascii canonical_name
    record_types lookup_type record_type type_name_in type_name rcode_name is_supported_record_type
    trim_root query_message ptr_name question_name build_query put_field get_field ip_text
    body_fields normalize_answer check_header info_of question_matches check_questions parse_answers
    read_message parse_response age_ttl age_answer age_answers apply_http_age cloudflare google
    quad9 adguard providers stamp is_no_config dnscrypt_endpoint raw_endpoint endpoint
    lookup_provider find_provider check_proxy accept_url parse_proxy_url validate_proxy_url
    from_selected resolve_proxy proxy_supported failed initial_result wants_zero_id clear_id
    sent_wire sent_id report_peer finish receive endpoint_class send with_provider with_query
    query_with_exchange
garbled-nil = refl

abbrev stranger_options : QueryOptions
stranger_options = record doh_options { provider = codes "nobody" }

-- A provider that is not built in: nothing is sent.
stranger-unknown : find_provider platform (codes "nobody") ≡ err (unknown_provider (codes "nobody"))
unfolding text_eq is_ascii lower_byte to_lower cloudflare google quad9 adguard providers
    lookup_provider find_provider
stranger-unknown = refl

packs_id : PacksId platform
packs_id m wire h = ([], ground arith)

query-IsAccepted_example :
    IsAccepted platform random doh_options answer
      (query_with_exchange platform random doh_options answer)
query-IsAccepted_example = query-IsAccepted platform random doh_options answer doh-completed

query_isolated_example :
    query_with_exchange platform random stranger_options answer
    ≡ query_with_exchange platform random stranger_options garble
query_isolated_example =
    query_isolated platform random stranger_options answer garble
      (λ p wire h. absurd (err-ne-ok _ _ (sym stranger-unknown ∙ h.found)))

abbrev accepted :
    IsAccepted platform random doh_options answer
      (query_with_exchange platform random doh_options answer)
accepted = query-IsAccepted platform random doh_options answer doh-completed

stamps-start : StampsStart platform
unfolding has_prefix
stamps-start addr key name properties = refl

packs-names : PacksNames platform
packs-names = record {
  public = λ ascii h. (ascii ++ codes ".", refl, λ id qtype. (_, refl));
  reversed = λ address h. (reverse_name address ++ codes ".", refl, λ id qtype. (_, refl));
}

example-IsAcceptableName : IsAcceptableName platform (codes "example.com") (codes "example.com")
unfolding text_eq has_suffix trim_suffix trim_prefix split_from split is_ascii is_space lower_byte
    upper_byte trim_left trim_right to_lower to_upper trim_space blocked_suffixes
example-IsAcceptableName = record {
  raw = codes "example.com";
  not_empty = refl;
  not_ip = refl;
  converted = refl;
  lowered = refl;
  public = record {
    total = omega arith;
    labels = ((omega arith, omega arith), ((omega arith, omega arith), tt));
    public = ((refl, refl), ((refl, refl), ((refl, refl), ((refl, refl), ((refl, refl), tt)))));
  };
}

example-IsAcceptable : IsAcceptable platform (codes "example.com") (codes "a")
unfolding text_eq is_ascii upper_byte to_upper
example-IsAcceptable = a_name 1 (codes "example.com") type_a refl example-IsAcceptableName

cloudflare-IsResolver : IsResolver (to_lower platform (codes "cloudflare"))
unfolding to_lower is_ascii lower_byte
cloudflare-IsResolver = is_cloudflare

example-listed :
    contains (offered (to_lower platform (codes "cloudflare"))) (to_lower platform (codes "doh"))
    ≡ true
unfolding offered contains to_lower is_ascii lower_byte text_eq
example-listed = refl

example-IsAnswered :
    (provider : Provider) (built : Built)
    → build_query platform random doh_options.name doh_options.record_type ≡ ok built
    → find_provider platform doh_options.provider ≡ ok provider
    → IsAnswered platform doh_options answer provider built
example-IsAnswered provider built h k =
    subst₂ (IsAnswered platform doh_options answer) (ok-injective (sym accepted.found ∙ k))
      (ok-injective (sym accepted.built_ok ∙ h))
      (record {
        response = accepted.answered.response;
        dns = accepted.answered.dns;
        received = accepted.answered.received;
        reply = accepted.answered.reply;
      })

query_completes_example :
    let r = query_with_exchange platform (some (18, 52)) doh_options answer in
    (r.completed ≡ true)
    × (r.error ≡ none)
    × ((built : Built) × (provider : Provider) × (answered : IsAnswered platform doh_options answer
          provider built)
        × (build_query platform (some (18, 52)) doh_options.name doh_options.record_type ≡ ok built)
        × (find_provider platform doh_options.provider ≡ ok provider)
        × (r.query ≡ built.query)
        × (r.transport
            ≡ (answer provider (sent_wire doh_options.protocol built) doh_options).transport)
        × (r.dns ≡ apply_http_age answered.dns r.transport.http_age_seconds))
query_completes_example =
    query_completes platform 18 52 doh_options answer stamps-start packs-names example-IsAcceptable
      cloudflare-IsResolver example-listed refl example-IsAnswered
