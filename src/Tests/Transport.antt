-- ===== src/Tests/Transport.antt =====
-- The transports over a network that answers.
use encrypted_dns_skill.Base.{◌≤◌, All, [], ◌∷◌, true, some, ◌≡◌, refl}
use encrypted_dns_skill.Base64.{base64, base64_digit, base64_url, unpadded, url_digit}
use encrypted_dns_skill.Capability.{proxy_supported}
use encrypted_dns_skill.Dns.Age.{age_answer, age_answers, age_ttl, apply_http_age}
use encrypted_dns_skill.Dns.Answer.{body_fields, get_field, ip_text, normalize_answer, put_field}
use encrypted_dns_skill.Dns.Name.{
  blocked_suffixes, canonical_name, check_ascii, from_option, has_bad_label, matches_suffix,
}
use encrypted_dns_skill.Dns.Query.{build_query, ptr_name, query_message, question_name}
use encrypted_dns_skill.Dns.Response.{
  check_header, check_questions, info_of, parse_answers, parse_response, question_matches,
  read_message,
}
use encrypted_dns_skill.Dns.Tables.{
  is_supported_record_type, lookup_type, rcode_name, record_type, record_types, trim_root,
  type_name, type_name_in,
}
use encrypted_dns_skill.Errors.{ok}
use encrypted_dns_skill.Frame.{
  frame_of, read_connect_response, read_dns_frame, read_full, read_header, short_read, write_all,
  write_dns_frame, write_loop,
}
use encrypted_dns_skill.Platform.{Url, equal_fold, to_lower, to_upper, trim_space}
use encrypted_dns_skill.Provider.{
  google, adguard, cloudflare, dnscrypt_endpoint, endpoint, find_provider, is_no_config,
  lookup_provider, providers, quad9, raw_endpoint, stamp,
}
use encrypted_dns_skill.Proxy.{
  accept_url, check_proxy, from_selected, parse_proxy_url, resolve_proxy, validate_proxy_url,
}
use encrypted_dns_skill.Query.{
  query_with_exchange, clear_id, endpoint_class, exchange_protocol, failed, finish, initial_result,
  receive, report_peer, send, sent_id, sent_wire, wants_zero_id, with_provider, with_query,
}
use encrypted_dns_skill.Redirect.{check_redirect}
use encrypted_dns_skill.Redirect.Chain.{IsSameOrigin, first, follow, followed-IsSameOrigin}
use encrypted_dns_skill.Tests.Fixtures.{platform, random, proxy_url}
use encrypted_dns_skill.Tests.Network.{
  sockets, framed_reply, dot_net, doq_net, http_net, network, client, query_wire, dot_options,
}
use encrypted_dns_skill.Text.{
  codes, cut, decimal, digits, has_prefix, has_suffix, hex_digit, is_ascii, is_space, lower_byte,
  split, split_from, text_eq, trim_left, trim_prefix, trim_right, trim_suffix, upper_byte,
}
use encrypted_dns_skill.Transport.{
  tcp_close, tcp_connect, tls_handshake, IsCareful, events_of, info_after, response_of,
}
use encrypted_dns_skill.Transport.Dial.{
  dial_tcp, authorization, await_tunnel, check_status, close_on_error, open_tunnel, proxy_address,
  request_tunnel, secure_tunnel,
}
use encrypted_dns_skill.Transport.Dial.Laws.{IsOpen, IsTunnel, dial_tcp-IsTunnel}
use encrypted_dns_skill.Transport.Doh.{doh_transport}
use encrypted_dns_skill.Transport.Doq.{
  receive_response, exchange_doq, ask, check_connection, check_trailing, finish_query,
  read_trailing, write_stream,
}
use encrypted_dns_skill.Transport.Doq.Laws.{IsDoqState, exchange_doq-IsCareful}
use encrypted_dns_skill.Transport.Dot.{
  exchange_dot, authenticate, check_state, connect, dot_config, converse, exchange_tcp_frame,
  tls_version_name,
}
use encrypted_dns_skill.Transport.Dot.Answer.{IsDotAnswer, exchange_dot-IsDotAnswer}
use encrypted_dns_skill.Transport.Dot.Laws.{IsDotState, exchange_dot-IsCareful}
use encrypted_dns_skill.Transport.Https.{
  Request, Response, request_of, exchange_https, age_of, check_http3, check_tls, is_dns_message,
  perform, read_age, read_content, read_limited, read_payload, receive_http, tls_info,
}
use encrypted_dns_skill.Transport.Https.Laws.{IsHttpAnswer, exchange_https-IsHttpAnswer}
use encrypted_dns_skill.Transport.Network.{network_exchange, transports}
use encrypted_dns_skill.Transport.Network.Laws.{query-authenticated}

tunnel-opened : (dial_tcp sockets platform (codes "dns.google:853") (some proxy_url)).0 ≡ ok tt
unfolding text_eq proxy_address authorization check_status close_on_error await_tunnel
    request_tunnel secure_tunnel open_tunnel dial_tcp base64_digit base64 url_digit unpadded
    base64_url write_loop write_all frame_of write_dns_frame read_full read_dns_frame read_header
    read_connect_response short_read has_suffix
tunnel-opened = refl

dot-answered : response_of (exchange_dot dot_net platform google query_wire []) ≡ ok (18 ∷ 52 ∷ [])
unfolding tls_version_name exchange_tcp_frame converse check_state authenticate connect dot_config
    exchange_dot text_eq proxy_address authorization check_status close_on_error await_tunnel
    request_tunnel secure_tunnel open_tunnel dial_tcp base64_digit base64 url_digit unpadded
    base64_url write_loop write_all frame_of write_dns_frame read_full read_dns_frame read_header
    read_connect_response short_read has_suffix has_prefix trim_prefix trim_suffix split split_from
    cut digits decimal hex_digit is_ascii is_space lower_byte upper_byte trim_left trim_right
    to_lower to_upper trim_space check_proxy accept_url parse_proxy_url validate_proxy_url
    from_selected resolve_proxy
dot-answered = refl

-- A negotiated protocol other than `dot` ends the exchange before the query.
dot-refused :
    events_of (
      exchange_dot
        (record dot_net {
          handshake = λ config. ok (record { version = 772; chains = 1; protocol = codes "h2" });
        })
        platform
        google
        query_wire
        [])
    ≡ tcp_connect (codes "dns.google:853")
      ∷ tls_handshake
          (codes "dns.google")
          (record { version = 772; chains = 1; protocol = codes "h2" })
      ∷ tcp_close
      ∷ []
unfolding tls_version_name exchange_tcp_frame converse check_state authenticate connect dot_config
    exchange_dot text_eq proxy_address authorization check_status close_on_error await_tunnel
    request_tunnel secure_tunnel open_tunnel dial_tcp base64_digit base64 url_digit unpadded
    base64_url write_loop write_all frame_of write_dns_frame read_full read_dns_frame read_header
    read_connect_response short_read has_suffix has_prefix trim_prefix trim_suffix split split_from
    cut digits decimal hex_digit is_ascii is_space lower_byte upper_byte trim_left trim_right
    to_lower to_upper trim_space check_proxy accept_url parse_proxy_url validate_proxy_url
    from_selected resolve_proxy google
dot-refused = refl

stream-ended : receive_response framed_reply ≡ ok (18 ∷ 52 ∷ [])
unfolding read_trailing check_trailing receive_response finish_query write_stream ask
    check_connection exchange_doq write_loop write_all frame_of write_dns_frame read_full
    read_dns_frame read_header read_connect_response short_read has_suffix text_eq tls_version_name
    hex_digit
stream-ended = refl

http-answered :
    (exchange_https http_net platform client
      (codes "https://dns.google/dns-query")
      (0 ∷ 0 ∷ [])
      (codes "get")
      (codes "doh")).0
    ≡ ok (0 ∷ 0 ∷ [])
unfolding read_limited read_payload is_dns_message read_content check_http3 tls_info check_tls
    age_of read_age receive_http request_of perform doh_transport exchange_https base64_digit base64
    url_digit unpadded base64_url text_eq has_prefix has_suffix trim_prefix trim_suffix split
    split_from cut digits decimal hex_digit is_ascii is_space lower_byte upper_byte trim_left
    trim_right to_lower to_upper trim_space check_proxy accept_url parse_proxy_url
    validate_proxy_url from_selected resolve_proxy tls_version_name equal_fold
http-answered = refl

dot-completed :
    (query_with_exchange platform random dot_options (network_exchange platform network)).completed
    ≡ true
unfolding text_eq has_prefix has_suffix trim_prefix trim_suffix split split_from cut digits decimal
    hex_digit is_ascii is_space lower_byte upper_byte trim_left trim_right to_lower to_upper
    trim_space has_bad_label blocked_suffixes matches_suffix from_option check_ascii canonical_name
    record_types lookup_type record_type type_name_in type_name rcode_name is_supported_record_type
    trim_root query_message ptr_name question_name build_query put_field get_field ip_text
    body_fields normalize_answer check_header info_of question_matches check_questions parse_answers
    read_message parse_response age_ttl age_answer age_answers apply_http_age cloudflare google
    quad9 adguard providers stamp is_no_config dnscrypt_endpoint raw_endpoint endpoint
    lookup_provider find_provider check_proxy accept_url parse_proxy_url validate_proxy_url
    from_selected resolve_proxy proxy_supported exchange_protocol failed initial_result
    wants_zero_id clear_id sent_wire sent_id report_peer finish receive endpoint_class send
    with_provider with_query query_with_exchange tls_version_name exchange_tcp_frame converse
    check_state authenticate connect dot_config exchange_dot proxy_address authorization
    check_status close_on_error await_tunnel request_tunnel secure_tunnel open_tunnel dial_tcp
    base64_digit base64 url_digit unpadded base64_url write_loop write_all frame_of write_dns_frame
    read_full read_dns_frame read_header read_connect_response short_read transports
    network_exchange
dot-completed = refl

dial_tcp-IsTunnel_example :
    IsOpen sockets (codes "dns.google:853") proxy_url
    × IsTunnel sockets platform
        (codes "dns.google:853")
        proxy_url
        (dial_tcp sockets platform (codes "dns.google:853") (some proxy_url)).1
dial_tcp-IsTunnel_example =
    dial_tcp-IsTunnel sockets platform (codes "dns.google:853") proxy_url tunnel-opened

exchange_dot-IsCareful_example :
    IsCareful google.dot_name IsDotState
      (frame_of query_wire)
      (events_of (exchange_dot dot_net platform google query_wire []))
exchange_dot-IsCareful_example = exchange_dot-IsCareful dot_net platform google query_wire []

exchange_dot-IsDotAnswer_example :
    IsDotAnswer dot_net google.dot_name query_wire
      (18 ∷ 52 ∷ [])
      (info_after (exchange_dot dot_net platform google query_wire []))
exchange_dot-IsDotAnswer_example =
    exchange_dot-IsDotAnswer dot_net query_wire (18 ∷ 52 ∷ []) platform google [] dot-answered

exchange_doq-IsCareful_example :
    IsCareful google.doq_name IsDoqState
      (frame_of query_wire)
      (events_of (exchange_doq doq_net google query_wire))
exchange_doq-IsCareful_example = exchange_doq-IsCareful doq_net google query_wire

exchange_https-IsHttpAnswer_example :
    (request : Request) × (response : Response) × (request_of http_net platform
        (codes "https://dns.google/dns-query")
        (0 ∷ 0 ∷ [])
        (codes "get")
      ≡ ok request)
    × (http_net.send_request client request ≡ ok response)
    × IsHttpAnswer http_net platform
        (codes "doh")
        response
        (0 ∷ 0 ∷ [])
        (exchange_https http_net platform client
          (codes "https://dns.google/dns-query")
          (0 ∷ 0 ∷ [])
          (codes "get")
          (codes "doh")).1
exchange_https-IsHttpAnswer_example =
    exchange_https-IsHttpAnswer http_net platform client (codes "https://dns.google/dns-query")
      (0 ∷ 0 ∷ []) (codes "get") (codes "doh") (0 ∷ 0 ∷ []) http-answered

query-authenticated_example :
    (query_with_exchange platform random dot_options
      (network_exchange platform network)).transport.server_authenticated
    ≡ true
query-authenticated_example = query-authenticated platform network random dot_options dot-completed

abbrev moved : Url
moved = record proxy_url { scheme = codes "https"; hostname = codes "dns.google" }

moved-allowed : check_redirect platform (codes "DoH") (codes "dns.google") moved 1 ≡ ok tt
unfolding check_redirect equal_fold is_ascii lower_byte text_eq
moved-allowed = refl

followed-IsSameOrigin_example :
    (2 ≤ 3) × All (IsSameOrigin platform (codes "dns.google")) (moved ∷ [])
followed-IsSameOrigin_example =
    followed-IsSameOrigin platform (codes "DoH") (codes "dns.google")
      (follow moved first moved-allowed)
