-- ===== src/Transport/Doq.antt =====
-- internal/edns/doq.go: `exchangeDoQ`.
pub mod Laws
pub mod Answer
use encrypted_dns_skill.Base.{
  ℕ, Bool, true, not, List, [], ◌∷◌, ◌++◌, ◌==◌, Option, none, some, if◌then◌else◌,
}
use encrypted_dns_skill.Errors.{
  Error, end_of_file, set_deadline, authenticate_server, not_verified, unexpected_alpn, open_stream,
  write_query, finish_query_stream, read_response, finish_response_stream, extra_response, Fallible,
  ok, err,
}
use encrypted_dns_skill.Frame.{Writer, Written, Reader, write_dns_frame, read_dns_frame}
use encrypted_dns_skill.Model.{TransportInfo}
use encrypted_dns_skill.Provider.{Provider}
use encrypted_dns_skill.Text.{Text, Bytes, codes, text_eq}
use encrypted_dns_skill.Transport.{
  TlsConfig, QuicConfig, version_tls13, quic_config, Event, tls_handshake, payload, quic_close,
  TlsState, start_info,
}
use encrypted_dns_skill.Transport.Dot.{Traced, tls_version_name}

abbrev pub doq_no_error : ℕ
doq_no_error = 0

abbrev pub doq_protocol_error : ℕ
doq_protocol_error = 2

-- The configuration of TLS for the server of this name.
unfoldable pub doq_config : Text → TlsConfig
doq_config name = record {
  server_name = name;
  min_version = version_tls13;
  next_protos = codes "doq" ∷ [];
}

-- A QUIC connection: the state of its TLS, and the name of its version.
pub record QuicState : Type 0 where
  pub tls : TlsState
  pub version : Text

-- How the network and quic-go answer. `dial` is `quic.DialAddr`; `deadline` is
-- `SetDeadline`, which succeeds where there is none.
pub record DoqNet : Type 0 where
  pub dial : Text → TlsConfig → QuicConfig → Fallible QuicState
  pub open_stream_sync : Fallible (Unit {0})
  pub deadline : Fallible (Unit {0})
  pub writer : Writer
  pub close : Fallible (Unit {0})
  pub reader : Reader
  pub elapsed : ℕ

-- `io.ReadAll(io.LimitReader(stream, 1))`
unfoldable pub read_trailing : Bytes → Error → Fallible Bytes
read_trailing (c ∷ s) stop = ok (c ∷ [])
read_trailing [] end_of_file = ok []
read_trailing [] stop = err stop

-- What was read behind the response.
unfoldable pub check_trailing : Bytes → Fallible Bytes → Fallible Bytes
check_trailing response (err e) = err (finish_response_stream e)
check_trailing response (ok []) = ok response
check_trailing response (ok (c ∷ s)) = err extra_response

unfoldable pub receive_response : Reader → Fallible Bytes
receive_response r = elim (read_dns_frame r) [
  | err e ↦ err (read_response e)
  | ok (response, rest) ↦ check_trailing response (read_trailing rest.bytes rest.stop)
]

module _ (N : DoqNet) where
  -- From the end of the query on.
  unfoldable pub finish_query : TransportInfo → Fallible Bytes × TransportInfo
  finish_query info = elim N.close [
    | err e ↦ (err (finish_query_stream e), info)
    | ok _ ↦ (receive_response N.reader, record info { elapsed_ms = N.elapsed })
  ]

  -- From the writing of the query on.
  unfoldable pub write_stream : Bytes → TransportInfo → Traced
  write_stream wire info =
      let written = write_dns_frame N.writer wire in
      let (response, info') = finish_query info in
      elim written.error [
        | some e ↦ (err (write_query e), info, payload written.sent ∷ [])
        | none ↦ (response, info', payload written.sent ∷ [])
      ]

  -- From the opening of the stream on.
  unfoldable pub ask : Bytes → TransportInfo → Traced
  ask wire info = elim N.open_stream_sync [
    | err e ↦ (err (open_stream e), record info { elapsed_ms = N.elapsed }, [])
    | ok _ ↦ elim N.deadline [
      | err e ↦ (err (set_deadline (codes "DoQ stream") e), info, [])
      | ok _ ↦ write_stream wire info
    ]
  ]

  -- The tests of the state of the connection.
  unfoldable pub check_connection : Bytes → QuicState → TransportInfo → Traced
  check_connection wire state info =
      let info' = record info {
        tls_version = tls_version_name state.tls.version;
        alpn = state.tls.protocol;
        quic_version = state.version;
      } in
      let asked = ask wire (record info' { server_authenticated = true }) in
      if state.tls.chains == 0
      then (err (not_verified (codes "DoQ")), info', [])
      else if not (text_eq state.tls.protocol (codes "doq"))
      then (
        err (unexpected_alpn (codes "DoQ") state.tls.protocol),
        info',
        quic_close doq_protocol_error ∷ [],
      )
      else asked

  -- `exchangeDoQWithConfig`; the connection is closed at the end.
  unfoldable pub exchange_doq : Provider → Bytes → Traced
  exchange_doq provider wire =
      let info = start_info (codes "doq") (codes "system_resolver") in
      elim (N.dial provider.doq_addr (doq_config provider.doq_name) quic_config) [
        | err e ↦
            (err (authenticate_server (codes "DoQ") e), record info { elapsed_ms = N.elapsed }, [])
        | ok state ↦
            let (response, info', events) = check_connection wire state info in
            (
              response,
              info',
              tls_handshake provider.doq_name state.tls ∷ (events ++ quic_close doq_no_error ∷ []),
            )
      ]
