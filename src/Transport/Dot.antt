-- ===== src/Transport/Dot.antt =====
-- internal/edns/dot.go: `exchangeDoT` and `exchangeTCPFrame`.
pub mod Laws
pub mod Answer
use encrypted_dns_skill.Base.{
  ℕ, ◌/◌, ◌%◌, Bool, true, not, ◌&&◌, List, [], ◌∷◌, ◌++◌, ◌==◌, Option, none, some, if◌then◌else◌,
}
use encrypted_dns_skill.Errors.{
  Error, select_proxy, connect_server, set_deadline, authenticate_server, not_verified,
  unexpected_alpn, perform_exchange, write_framed_query, Fallible, ok, err,
}
use encrypted_dns_skill.Frame.{Writer, Reader, write_dns_frame, read_dns_frame}
use encrypted_dns_skill.Model.{TransportInfo}
use encrypted_dns_skill.Platform.{Platform, Url}
use encrypted_dns_skill.Provider.{Provider}
use encrypted_dns_skill.Proxy.{resolve_proxy, proxy_display_url}
use encrypted_dns_skill.Text.{Text, Bytes, codes, text_eq, is_empty, cut, hex_digit}
use encrypted_dns_skill.Transport.{
  TlsConfig, version_tls12, version_tls13, Event, tls_handshake, payload, tcp_close, TlsState,
  start_info,
}
use encrypted_dns_skill.Transport.Dial.{Sockets, dial_tcp, wrap_error}

-- How the network and `crypto/tls` answer. `elapsed` is what
-- the clock shows at the one place of a run that reads it.
pub record DotNet : Type 0 where
  pub sockets : Sockets
  pub from_environment : Url → Fallible (Option Url)
  pub deadline : Fallible (Unit {0})
  pub handshake : TlsConfig → Fallible TlsState
  pub writer : Writer
  pub reader : Reader
  pub elapsed : ℕ

-- What an exchange returns, and what it did.
abbrev pub Traced : Type 0
Traced = Fallible Bytes × TransportInfo × List Event

-- `%04x` of a 16-bit number.
abbrev pub hex_word : ℕ → Text
hex_word n =
    hex_digit (n / 4096)
    ∷ hex_digit (n / 256 % 16)
    ∷ hex_digit (n / 16 % 16)
    ∷ hex_digit (n % 16)
    ∷ []

-- `tlsVersionName`
unfoldable pub tls_version_name : ℕ → Text
tls_version_name version =
    if version == version_tls13
    then codes "TLS1.3"
    else if version == version_tls12
    then codes "TLS1.2"
    else codes "0x" ++ hex_word version

-- `exchangeTCPFrame`: what it returns, and what it wrote.
unfoldable pub exchange_tcp_frame : Writer → Reader → Bytes → Fallible Bytes × Bytes
exchange_tcp_frame w r wire =
    let written = write_dns_frame w wire in
    elim written.error [
      | some e ↦ (err (write_framed_query e), written.sent)
      | none ↦ elim (read_dns_frame r) [
        | err e ↦ (err e, written.sent)
        | ok (message, rest) ↦ (ok message, written.sent)
      ]
    ]

-- `https://` with the address of the server as its host.
abbrev pub https_url : Text → Url
https_url host = record {
  scheme = codes "https";
  user = none;
  host = host;
  hostname = (cut host b':').0;
  path = [];
  raw_path = [];
  raw_query = [];
  fragment = [];
}

-- The configuration of TLS for the server of this name.
unfoldable pub dot_config : Text → TlsConfig
dot_config name = record {
  server_name = name;
  min_version = version_tls12;
  next_protos = codes "dot" ∷ [];
}

module _ (N : DotNet) where
  -- From the verified connection on.
  unfoldable pub converse : Bytes → TransportInfo → Traced
  converse wire info =
      let (response, sent) = exchange_tcp_frame N.writer N.reader wire in
      (
        wrap_error (perform_exchange (codes "DoT")) response,
        record info { elapsed_ms = N.elapsed },
        payload sent ∷ [],
      )

  -- The tests of the state of the connection.
  unfoldable pub check_state : Bytes → TlsState → TransportInfo → Traced
  check_state wire state info =
      let info' = record info {
        server_authenticated = true;
        tls_version = tls_version_name state.version;
        alpn = state.protocol;
      } in
      let conversation = converse wire info' in
      if state.chains == 0
      then (err (not_verified (codes "DoT")), info, [])
      else if not (is_empty state.protocol) && not (text_eq state.protocol (codes "dot"))
      then (
        err (unexpected_alpn (codes "DoT") state.protocol),
        record info' { elapsed_ms = N.elapsed },
        [],
      )
      else conversation

  -- From the handshake on.
  unfoldable pub authenticate : Text → Bytes → TransportInfo → Traced
  authenticate name wire info = elim (N.handshake (dot_config name)) [
    | err e ↦
        (err (authenticate_server (codes "DoT") e), record info { elapsed_ms = N.elapsed }, [])
    | ok state ↦
        let (response, info', events) = check_state wire state info in
        (response, info', tls_handshake name state ∷ events)
  ]

  -- From the connection to the server or its proxy on; the connection is closed at the end.
  unfoldable pub connect : Platform → Provider → Bytes → Option Url → TransportInfo → Traced
  connect P provider wire proxy info =
      let (dialled, before) = dial_tcp N.sockets P provider.dot_addr proxy in
      let (response, info', events) = authenticate provider.dot_name wire info in
      elim dialled [
        | err e ↦
            (err (connect_server (codes "DoT") e), record info { elapsed_ms = N.elapsed }, before)
        | ok _ ↦ elim N.deadline [
          | err e ↦ (err (set_deadline (codes "DoT") e), info, before ++ tcp_close ∷ [])
          | ok _ ↦ (response, info', before ++ (events ++ tcp_close ∷ []))
        ]
      ]

  -- `exchangeDoTWithTLSConfigAndProxy`
  unfoldable pub exchange_dot : Platform → Provider → Bytes → Text → Traced
  exchange_dot P provider wire explicit =
      let info = start_info (codes "dot") (codes "system_resolver") in
      elim (resolve_proxy P N.from_environment (https_url provider.dot_addr) explicit) [
        | err e ↦ (err (select_proxy (codes "DoT") e), info, [])
        | ok proxy ↦
            connect P provider wire proxy (record info { proxy = proxy_display_url P proxy })
      ]
