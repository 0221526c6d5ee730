-- ===== src/Transport.antt =====
-- What the transports share: the calls that reach the network, as a list of events in their
-- order, and the state of a TLS connection. Each `Net` record of a child module says how the
-- network and the packages behind it answer.
pub mod Dial
pub mod Dot
pub mod Doq
pub mod Https
pub mod Doh
pub mod DnsCrypt
pub mod Lifetime
pub mod Network
use encrypted_dns_skill.Base.{
  All, ◌++◌, ◌≡◌, ℕ, ℤ, List, [], ◌∷◌, ◌==◌, not, Bool, if◌then◌else◌, true,
}
use encrypted_dns_skill.Compare.{milliseconds}
use encrypted_dns_skill.Errors.{Fallible}
use encrypted_dns_skill.Model.{TransportInfo, no_transport}
use encrypted_dns_skill.Text.{Text, Bytes, codes}

-- The fields of `tls.ConnectionState` that are read; of the verified chains, how many there are.
pub record TlsState : Type 0 where
  pub version : ℕ
  pub chains : ℕ
  pub protocol : Text

-- The fields of `tls.Config` that are set: the name that the certificate has to be for, the least
-- version, and the protocols of the application that are offered.
pub record TlsConfig : Type 0 where
  pub server_name : Text
  pub min_version : ℕ
  pub next_protos : List Text

-- `tls.VersionTLS12` and `tls.VersionTLS13`
abbrev pub version_tls12 : ℕ
version_tls12 = 0x303

abbrev pub version_tls13 : ℕ
version_tls13 = 0x304

-- `quic.Config`
pub record QuicConfig : Type 0 where
  pub handshake_idle_timeout : ℤ
  pub max_idle_timeout : ℤ

abbrev pub quic_config : QuicConfig
quic_config = record {
  handshake_idle_timeout = milliseconds 5_000;
  max_idle_timeout = milliseconds 10_000;
}

pub data Event : Type 0 where
  -- a TCP connection that was made to an address, and a TLS handshake with an HTTPS proxy of this
  -- name
  tcp_connect : Text → Event
  proxy_handshake : Text → Event
  -- a CONNECT request: its target, and the `Proxy-Authorization` header or an empty text
  connect_request : Text → Text → Event
  -- a handshake that succeeded, with the server name that was required and its state
  tls_handshake : Text → TlsState → Event
  -- bytes of the framed query that were written
  payload : Bytes → Event
  -- the closing of a TCP connection, and of a QUIC connection with an error code
  tcp_close : Event
  quic_close : ℕ → Event

abbrev pub IsSilent : Event → Type 0
IsSilent (payload bytes) = ⊥
IsSilent event = Unit

-- `TransportInfo{Protocol: …, Encrypted: true, Bootstrap: …}`
abbrev pub start_info : Text → Text → TransportInfo
start_info protocol bootstrap = record no_transport {
  protocol = protocol;
  encrypted = true;
  bootstrap = bootstrap;
}

-- Nothing of the query was written; or a handshake with the server of this name, whose state is a
-- good one, is followed by the writing of a front of the query's frame, and nothing was written
-- before or after.
pub data IsCareful (name : Text) (good : TlsState → Type 0) (frame : Bytes) (events : List Event)
    : Type 0 where
  silent : All IsSilent events → IsCareful name good frame events
  asked :
      (before : List Event) (state : TlsState) (sent unsent : Bytes) (after : List Event)
      → All IsSilent before
      → All IsSilent after
      → good state
      → frame ≡ sent ++ unsent
      → events ≡ before ++ (tls_handshake name state ∷ payload sent ∷ after)
      → IsCareful name good frame events

abbrev pub response_of : Fallible Bytes × TransportInfo × List Event → Fallible Bytes
response_of (response, info, events) = response

abbrev pub info_after : Fallible Bytes × TransportInfo × List Event → TransportInfo
info_after (response, info, events) = info

abbrev pub events_of : Fallible Bytes × TransportInfo × List Event → List Event
events_of (response, info, events) = events
