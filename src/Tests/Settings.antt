-- ===== src/Tests/Settings.antt =====
-- The settings, the answers and the connections of the transports, over a network that answers.
use encrypted_dns_skill.Base.{
  some, [], ◌∷◌, true, ◌≡◌, refl, leb, false, inl, inr, arith, Bool-cases, some-injective, ap, ◌∙◌,
}
use encrypted_dns_skill.Base64.{base64, base64_digit, base64_url, unpadded, url_digit}
use encrypted_dns_skill.Capability.{proxy_supported}
use encrypted_dns_skill.Dns.Age.{age_answer, age_answers, age_ttl, apply_http_age}
use encrypted_dns_skill.Dns.Answer.{body_fields, get_field, ip_text, normalize_answer, put_field}
use encrypted_dns_skill.Dns.Name.{
  blocked_suffixes, canonical_name, check_ascii, from_option, has_bad_label, matches_suffix,
}
use encrypted_dns_skill.Dns.Query.{build_query, ptr_name, query_message, question_name}
use encrypted_dns_skill.Dns.Response.{
  check_header, check_questions, info_of, parse_answers, parse_response, question_matches,
  read_message,
}
use encrypted_dns_skill.Dns.Tables.{
  is_supported_record_type, lookup_type, rcode_name, record_type, record_types, trim_root,
  type_name, type_name_in,
}
use encrypted_dns_skill.Errors.{ok}
use encrypted_dns_skill.Errors.Laws.{err-ne-ok, ok-injective, >>=-eq-ok}
use encrypted_dns_skill.Frame.{
  frame_of, read_connect_response, read_dns_frame, read_full, read_header, short_read, write_all,
  write_dns_frame, write_loop,
}
use encrypted_dns_skill.Platform.{to_lower, to_upper, trim_space, Platform}
use encrypted_dns_skill.Provider.{
  google, adguard, cloudflare, dnscrypt_endpoint, endpoint, find_provider, is_no_config,
  lookup_provider, providers, quad9, raw_endpoint, stamp,
}
use encrypted_dns_skill.Proxy.{
  accept_url, check_proxy, from_selected, parse_proxy_url, resolve_proxy, validate_proxy_url,
}
use encrypted_dns_skill.Query.{
  query_with_exchange, clear_id, endpoint_class, exchange_protocol, failed, finish, initial_result,
  receive, report_peer, send, sent_id, sent_wire, wants_zero_id, with_provider, with_query,
}
use encrypted_dns_skill.Tests.Fixtures.{platform, random, proxy_url}
use encrypted_dns_skill.Tests.Network.{
  negotiated, dot_net, doq_net, http_net, network, query_wire, dot_options,
}
use encrypted_dns_skill.Text.{
  codes, cut, decimal, digits, has_prefix, has_suffix, hex_digit, is_ascii, is_space, lower_byte,
  split, split_from, text_eq, trim_left, trim_prefix, trim_right, trim_suffix, upper_byte, Text,
}
use encrypted_dns_skill.Transport.{
  events_of, info_after, response_of, TlsConfig, TlsState, version_tls13,
}
use encrypted_dns_skill.Transport.Dial.{
  dial_tcp, authorization, await_tunnel, check_status, close_on_error, open_tunnel, proxy_address,
  request_tunnel, secure_tunnel,
}
use encrypted_dns_skill.Transport.Doh.{doh_transport}
use encrypted_dns_skill.Transport.Doq.{
  receive_response, exchange_doq, ask, check_connection, check_trailing, finish_query,
  read_trailing, write_stream, doq_config,
}
use encrypted_dns_skill.Transport.Doq.Answer.{IsDoqAnswer, exchange_doq-IsDoqAnswer}
use encrypted_dns_skill.Transport.Dot.{
  exchange_dot, authenticate, check_state, connect, dot_config, converse, exchange_tcp_frame,
  tls_version_name,
}
use encrypted_dns_skill.Transport.Lifetime.{IsUsed, exchange_dot-IsClosed}
use encrypted_dns_skill.Transport.Network.{network_exchange, transports}
use encrypted_dns_skill.Transport.Network.Configured.{
  IsAllowed, IsConfigured, IsConfiguredNetwork, config_of,
}
use encrypted_dns_skill.Transport.Network.Credentials.{Credentials, both}
use encrypted_dns_skill.Transport.Network.Secrecy.{IsBlind, query_secret}
use encrypted_dns_skill.Transport.Network.Versions.{IsVersion, query-IsVersion}

negotiated-IsAllowed :
    (config : TlsConfig) (protocol : Text) (state : TlsState)
    → negotiated config protocol ≡ ok state
    → IsAllowed config state
negotiated-IsAllowed config protocol state h =
    elim (Bool-cases (leb config.min_version version_tls13)) [
      | inr q ↦ absurd (err-ne-ok _ _ (rw q at h))
      | inl q ↦
          let same : version_tls13 ≡ state.version =
            ap (λ s. s.version) (ok-injective (rw q at h)) in
          (ground arith, ground arith)
    ]

http_net-IsConfigured : IsConfigured http_net
http_net-IsConfigured client request response state h connected =
    let (tls, got, same) = >>=-eq-ok (negotiated (config_of client.transport) (codes "h2")) _ h in
    negotiated-IsAllowed (config_of client.transport) (codes "h2") state
      (got ∙ ap ok (some-injective _ _ (ap (λ r. r.tls) (ok-injective same) ∙ connected)))

network-IsConfigured : IsConfiguredNetwork network
network-IsConfigured = record {
  doh = http_net-IsConfigured;
  doh3 = http_net-IsConfigured;
  dot = λ config state h. negotiated-IsAllowed config (codes "dot") state h;
  doq = λ address config quic state h.
      let (tls, got, same) = >>=-eq-ok (negotiated config (codes "doq")) _ h in
      negotiated-IsAllowed config (codes "doq") state.tls
        (got ∙ ap ok (ap (λ s. s.tls) (ok-injective same)));
}

dot-versioned :
    (query_with_exchange platform random dot_options (network_exchange platform network)).completed
    ≡ true
unfolding text_eq has_prefix has_suffix trim_prefix trim_suffix split split_from cut digits decimal
    hex_digit is_ascii is_space lower_byte upper_byte trim_left trim_right to_lower to_upper
    trim_space has_bad_label blocked_suffixes matches_suffix from_option check_ascii canonical_name
    record_types lookup_type record_type type_name_in type_name rcode_name is_supported_record_type
    trim_root query_message ptr_name question_name build_query put_field get_field ip_text
    body_fields normalize_answer check_header info_of question_matches check_questions parse_answers
    read_message parse_response age_ttl age_answer age_answers apply_http_age cloudflare google
    quad9 adguard providers stamp is_no_config dnscrypt_endpoint raw_endpoint endpoint
    lookup_provider find_provider check_proxy accept_url parse_proxy_url validate_proxy_url
    from_selected resolve_proxy proxy_supported exchange_protocol failed initial_result
    wants_zero_id clear_id sent_wire sent_id report_peer finish receive endpoint_class send
    with_provider with_query query_with_exchange tls_version_name exchange_tcp_frame converse
    check_state authenticate connect dot_config exchange_dot proxy_address authorization
    check_status close_on_error await_tunnel request_tunnel secure_tunnel open_tunnel dial_tcp
    base64_digit base64 url_digit unpadded base64_url write_loop write_all frame_of write_dns_frame
    read_full read_dns_frame read_header read_connect_response short_read transports
    network_exchange
dot-versioned = refl

query-IsVersion_example :
    IsVersion
      (codes "dot")
      (query_with_exchange platform random dot_options
        (network_exchange platform network)).transport
query-IsVersion_example =
    query-IsVersion platform network network-IsConfigured random dot_options dot-versioned

doq-answered : response_of (exchange_doq doq_net google query_wire) ≡ ok (18 ∷ 52 ∷ [])
unfolding read_trailing check_trailing receive_response finish_query write_stream ask
    check_connection doq_config exchange_doq write_loop write_all frame_of write_dns_frame read_full
    read_dns_frame read_header short_read text_eq tls_version_name hex_digit
doq-answered = refl

exchange_doq-IsDoqAnswer_example :
    IsDoqAnswer doq_net google query_wire
      (18 ∷ 52 ∷ [])
      (info_after (exchange_doq doq_net google query_wire))
exchange_doq-IsDoqAnswer_example =
    exchange_doq-IsDoqAnswer doq_net query_wire (18 ∷ 52 ∷ []) google doq-answered

exchange_dot-IsClosed_example :
    IsUsed false (events_of (exchange_dot dot_net platform google query_wire [])) false
exchange_dot-IsClosed_example = exchange_dot-IsClosed dot_net platform google query_wire []

-- A platform that reads a text as the password in a URL.
abbrev login_platform : Platform
login_platform = record platform {
  parse_url = λ password. some (record proxy_url { user = some (codes "user", password) });
}

network-IsBlind : (a b : Credentials) → IsBlind a b network
unfolding doh_transport
network-IsBlind a b = record { doh = λ u redirect request. refl; dot = λ target. refl }

query_secret_example :
    query_with_exchange login_platform random
      (record dot_options { proxy = codes "secret" })
      (network_exchange login_platform network)
    ≡ query_with_exchange login_platform random
        (record dot_options { proxy = codes "other" })
        (network_exchange login_platform network)
query_secret_example =
    query_secret login_platform network (some (codes "user", codes "secret"))
      (some (codes "user", codes "other")) (network-IsBlind _ _) (codes "secret") (codes "other")
      refl refl (both proxy_url) random dot_options
