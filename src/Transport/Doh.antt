-- ===== src/Transport/Doh.antt =====
-- internal/edns/doh.go and doh3.go: the clients of DoH and DoH3, and their exchanges.
use encrypted_dns_skill.Base.{◌*◌, true, not, ◌||◌, [], ◌∷◌, Option, none, some, if◌then◌else◌}
use encrypted_dns_skill.Compare.{milliseconds}
use encrypted_dns_skill.Errors.{
  parse_endpoint, select_proxy, endpoint_not_https, Fallible, ok, err, ◌>>=◌,
}
use encrypted_dns_skill.Model.{TransportInfo}
use encrypted_dns_skill.Platform.{Platform, Url}
use encrypted_dns_skill.Provider.{Provider}
use encrypted_dns_skill.Proxy.{resolve_proxy, proxy_display_url}
use encrypted_dns_skill.Redirect.{check_redirect}
use encrypted_dns_skill.Text.{Text, Bytes, codes, text_eq, is_empty}
use encrypted_dns_skill.Transport.{version_tls12, version_tls13, quic_config, start_info}
use encrypted_dns_skill.Transport.Dial.{wrap_error}
use encrypted_dns_skill.Transport.Https.{
  HttpNet, Client, HttpTransport, Http3Transport, over_tls, over_quic, exchange_https,
}

-- `if capture.set { info.QUICVersion = … }`
abbrev pub note_version : Option Text → TransportInfo → TransportInfo
note_version none info = info
note_version (some version) info = record info { quic_version = version }

-- The transport of `newDoHClient`.
unfoldable pub doh_transport : Option Url → HttpTransport
doh_transport proxy = record {
  force_attempt_http2 = true;
  dial_timeout = milliseconds 5_000;
  keep_alive = milliseconds 30_000;
  tls_client_config = record { server_name = []; min_version = version_tls12; next_protos = [] };
  tls_handshake_timeout = milliseconds 5_000;
  proxy = proxy;
}

-- The transport of `newDoH3Client`.
unfoldable pub doh3_transport : Url → Http3Transport
doh3_transport origin = record {
  tls_config = record {
    server_name = origin.hostname;
    min_version = version_tls13;
    next_protos = codes "h3" ∷ [];
  };
  quic = quic_config;
  max_response_header_bytes = 64 * 1024;
  disable_compression = true;
}

module _ (N : HttpNet) (P : Platform) where
  -- `newDoHClient`: the client and what is shown of its proxy.
  unfoldable pub doh_client : Text → Text → Fallible (Client × Text)
  doh_client endpoint explicit = elim (P.parse_url endpoint) [
    | none ↦ err (parse_endpoint endpoint)
    | some origin ↦ do
      proxy ←
          wrap_error (select_proxy (codes "DoH"))
            (resolve_proxy P N.from_environment origin explicit)
      ok (
        record {
          transport = over_tls (doh_transport proxy);
          redirect = check_redirect P (codes "DoH") origin.hostname;
        },
        proxy_display_url P proxy,
      )
  ]

  -- `exchangeDoH`
  unfoldable pub exchange_doh : Provider → Bytes → Text → Text → Fallible Bytes × TransportInfo
  exchange_doh provider wire method explicit = elim (doh_client provider.doh_url explicit) [
    | err e ↦ (err e, start_info (codes "doh") (codes "system_resolver"))
    | ok (client, label) ↦
        let (response, info) =
          exchange_https N P client provider.doh_url wire method (codes "doh") in
        (response, record info { proxy = label })
  ]

  -- `newDoH3Client`
  unfoldable pub doh3_client : Text → Fallible Client
  doh3_client endpoint = elim (P.parse_url endpoint) [
    | none ↦ err (parse_endpoint endpoint)
    | some origin ↦
        if not (text_eq origin.scheme (codes "https")) || is_empty origin.hostname
        then err endpoint_not_https
        else ok (record {
          transport = over_quic (doh3_transport origin);
          redirect = check_redirect P (codes "DoH3") origin.hostname;
        })
  ]

  -- `exchangeDoH3`
  unfoldable pub exchange_doh3 : Provider → Bytes → Text → Fallible Bytes × TransportInfo
  exchange_doh3 provider wire method = elim (doh3_client provider.doh3_url) [
    | err e ↦ (err e, start_info (codes "doh3") (codes "system_resolver"))
    | ok client ↦
        let (response, info) =
          exchange_https N P client provider.doh3_url wire method (codes "doh3") in
        (response, note_version N.captured info)
  ]
