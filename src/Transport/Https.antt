-- ===== src/Transport/Https.antt =====
-- internal/edns/doh.go and doh3.go: the exchanges over HTTPS. `N` says how `net/http` answers.
pub mod Laws
use encrypted_dns_skill.Base.{
  ℕ, ◌+◌, ℤ, pos, negsuc, Bool, true, false, not, ◌&&◌, ◌||◌, List, [], ◌∷◌, ◌==◌, ltb, leb, Option,
  none, some, if◌then◌else◌, length, take,
}
use encrypted_dns_skill.Base64.{base64_url}
use encrypted_dns_skill.Errors.{
  Error, end_of_file, parse_endpoint, unsupported_method, create_request, perform_exchange,
  invalid_age, not_verified, unexpected_http_version, unexpected_alpn, http_status,
  unsupported_content_type, read_body, response_too_long, select_proxy, endpoint_not_https,
  Fallible, ok, err, ◌>>=◌, ◌>>◌, refuse_if,
}
use encrypted_dns_skill.Frame.{Reader, max_dns_message_size}
use encrypted_dns_skill.Model.{TransportInfo}
use encrypted_dns_skill.Platform.{Platform, Url, to_lower, to_upper, equal_fold}
use encrypted_dns_skill.Provider.{Provider}
use encrypted_dns_skill.Proxy.{resolve_proxy, proxy_display_url}
use encrypted_dns_skill.Redirect.{check_redirect}
use encrypted_dns_skill.Text.{Text, Bytes, codes, text_eq, is_empty}
use encrypted_dns_skill.Transport.{TlsConfig, QuicConfig, TlsState, start_info}
use encrypted_dns_skill.Transport.Dial.{wrap_error}
use encrypted_dns_skill.Transport.Dot.{tls_version_name}

-- The request: `content_type` is empty where the header is not set, and `body` is `none` for GET.
pub record Request : Type 0 where
  pub method : Text
  pub url : Text
  pub accept : Text
  pub user_agent : Text
  pub content_type : Text
  pub body : Option Bytes

-- The response: `age` and `content_type` are headers, empty where they are not set.
pub record Response : Type 0 where
  pub proto : Text
  pub proto_major : ℕ
  pub age : Text
  pub tls : Option TlsState
  pub status : ℕ
  pub content_type : Text
  pub body : Reader

-- The fields that are set of an `http.Transport`, the timeouts of its dialer among them.
pub record HttpTransport : Type 0 where
  pub force_attempt_http2 : Bool
  pub dial_timeout : ℤ
  pub keep_alive : ℤ
  pub tls_client_config : TlsConfig
  pub tls_handshake_timeout : ℤ
  pub proxy : Option Url

-- The fields that are set of an `http3.Transport`.
pub record Http3Transport : Type 0 where
  pub tls_config : TlsConfig
  pub quic : QuicConfig
  pub max_response_header_bytes : ℕ
  pub disable_compression : Bool

pub data RoundTripper : Type 0 where
  over_tls : HttpTransport → RoundTripper
  over_quic : Http3Transport → RoundTripper

-- An `http.Client`: its transport, and its policy on redirects, of a URL and the number of requests
-- before.
pub record Client : Type 0 where
  pub transport : RoundTripper
  pub redirect : Url → ℕ → Fallible (Unit {0})

pub record HttpNet : Type 0 where
  pub from_environment : Url → Fallible (Option Url)
  -- the URL with its query parameter `dns` set, as a text
  pub with_dns : Url → Text → Text
  pub new_request : Request → Fallible (Unit {0})
  pub send_request : Client → Request → Fallible Response
  -- `strconv.ParseInt` of 64 bits, and the media type that `mime.ParseMediaType` gives
  pub parse_int : Text → Option ℤ
  pub media_type : Text → Option Text
  pub elapsed : ℕ
  -- the version of the QUIC connection that was captured
  pub captured : Option Text

abbrev pub dns_message : Text
dns_message = codes "application/dns-message"

-- `io.ReadAll(io.LimitReader(body, n))`
unfoldable pub read_limited : ℕ → Bytes → Error → Fallible Bytes
read_limited n bytes stop =
    if leb n (length bytes)
    then ok (take n bytes)
    else elim stop [ end_of_file ↦ ok bytes | e ↦ err e ]

unfoldable pub read_payload : Reader → Fallible Bytes
read_payload body = do
  payload ← wrap_error read_body (read_limited (max_dns_message_size + 1) body.bytes body.stop)
  refuse_if (ltb max_dns_message_size (length payload)) response_too_long
  ok payload

-- Whether `mime.ParseMediaType` accepts the header and gives the type of DNS messages.
unfoldable pub is_dns_message : Platform → Option Text → Bool
is_dns_message P none = false
is_dns_message P (some media) = equal_fold P media dns_message

module _ (N : HttpNet) (P : Platform) where
  -- The tests of the status and of the content type, and the body.
  unfoldable pub read_content : Response → Fallible Bytes
  read_content r = do
    refuse_if (ltb r.status 200 || ltb 299 r.status) (http_status r.status)
    refuse_if (not (is_dns_message P (N.media_type r.content_type)))
        (unsupported_content_type r.content_type)
    read_payload r.body

  -- The tests for DoH3.
  unfoldable pub check_http3 : Text → Response → Text → Fallible (Unit {0})
  check_http3 protocol r alpn =
      if not (text_eq protocol (codes "doh3"))
      then ok tt
      else if not (r.proto_major == 3)
      then err (unexpected_http_version r.proto)
      else if not (text_eq alpn (codes "h3"))
      then err (unexpected_alpn (codes "DoH3") alpn)
      else ok tt

  -- What is taken from the state of the connection.
  unfoldable pub tls_info : TlsState → TransportInfo → TransportInfo
  tls_info state info = record info {
    server_authenticated = true;
    tls_version = tls_version_name state.version;
    alpn = state.protocol;
  }

  -- From the test of the connection on.
  unfoldable pub check_tls :
      Text → Response → Option TlsState → TransportInfo → Fallible Bytes × TransportInfo
  check_tls protocol r none info = (err (not_verified (codes "DoH")), info)
  check_tls protocol r (some state) info =
      if state.chains == 0
      then (err (not_verified (codes "DoH")), info)
      else (check_http3 protocol r state.protocol >> read_content r, tls_info state info)

  -- The header `Age`: the seconds, or an error where it is no number or a negative one.
  unfoldable pub age_of : Text → Option ℤ → Fallible ℤ
  age_of age none = err (invalid_age age)
  age_of age (some (negsuc n)) = err (invalid_age age)
  age_of age (some (pos n)) = ok (pos n)

  unfoldable pub read_age : Response → Fallible ℤ
  read_age r = if is_empty r.age then ok (pos 0) else age_of r.age (N.parse_int r.age)

  -- From the response on.
  unfoldable pub receive_http : Text → TransportInfo → Response → Fallible Bytes × TransportInfo
  receive_http protocol info r =
      let info' = record info { http_version = r.proto } in
      elim (read_age r) [
        | err e ↦ (err e, info')
        | ok age ↦ check_tls protocol r r.tls (record info' { http_age_seconds = age })
      ]

  -- The switch over the lowered method: the request without its method, in capitals.
  unfoldable pub request_of : Text → Bytes → Text → Fallible Request
  request_of endpoint wire method =
      let lowered = to_lower P method in
      let post : Request = record {
        method = codes "POST";
        url = endpoint;
        accept = dns_message;
        user_agent = codes "ednsdiag/0.1.0";
        content_type = dns_message;
        body = some wire;
      } in
      if text_eq lowered (codes "get")
      then elim (P.parse_url endpoint) [
        | none ↦ err (parse_endpoint endpoint)
        | some url ↦ ok (record {
          method = to_upper P method;
          url = N.with_dns url (base64_url wire);
          accept = dns_message;
          user_agent = codes "ednsdiag/0.1.0";
          content_type = [];
          body = none;
        })
      ]
      else if text_eq lowered (codes "post") || is_empty lowered
      then ok post
      else err (unsupported_method method)

  -- From the request on.
  unfoldable pub perform : Client → Text → TransportInfo → Request → Fallible Bytes × TransportInfo
  perform client protocol info request = elim (N.new_request request) [
    | err e ↦ (err (create_request e), info)
    | ok _ ↦
        let info' = record info { elapsed_ms = N.elapsed } in
        elim (N.send_request client request) [
          | err e ↦ (err (perform_exchange (codes "DoH") e), info')
          | ok response ↦ receive_http protocol info' response
        ]
  ]

  -- `exchangeHTTPSDNSWithClient`
  unfoldable pub exchange_https :
      Client → Text → Bytes → Text → Text → Fallible Bytes × TransportInfo
  exchange_https client endpoint wire method protocol =
      let info = start_info protocol (codes "system_resolver") in
      elim (request_of endpoint wire method) [
        | err e ↦ (err e, info)
        | ok request ↦ perform client protocol info request
      ]
