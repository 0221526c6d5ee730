-- ===== src/Transport/Network/Reported.antt =====
-- What every transport reports, whether it gets an answer or not: its own protocol, and an age
-- that is not negative.
use encrypted_dns_skill.Base.{
  IsNatural, not, ◌&&◌, Option, ◌≡◌, refl, inl, inr, ◌==◌, Bool-cases, Option-cases,
}
use encrypted_dns_skill.Errors.Laws.{Fallible-cases}
use encrypted_dns_skill.Frame.{write_dns_frame}
use encrypted_dns_skill.Model.{TransportInfo}
use encrypted_dns_skill.Platform.{Platform, Url}
use encrypted_dns_skill.Provider.{Provider}
use encrypted_dns_skill.Proxy.{resolve_proxy}
use encrypted_dns_skill.Text.{Text, Bytes, codes, text_eq, is_empty}
use encrypted_dns_skill.Transport.{quic_config, TlsState, start_info, info_after}
use encrypted_dns_skill.Transport.Dial.{dial_tcp}
use encrypted_dns_skill.Transport.DnsCrypt.{
  CryptNet, Resolver, crypt_client, remaining_timeout, ask_resolver, dial_resolver,
  exchange_dnscrypt,
}
use encrypted_dns_skill.Transport.Doq.{
  DoqNet, QuicState, finish_query, write_stream, ask, check_connection, doq_config, exchange_doq,
}
use encrypted_dns_skill.Transport.Dot.{
  DotNet, https_url, dot_config, converse, check_state, authenticate, connect, exchange_dot,
}

-- The protocol and the age are the same.
abbrev Keeps : TransportInfo → TransportInfo → Type 0
Keeps before after =
    (after.protocol ≡ before.protocol) × (after.http_age_seconds ≡ before.http_age_seconds)

-- A report of an exchange over the protocol.
pub record IsReport (protocol : Text) (info : TransportInfo) : Type 0 where
  pub named : info.protocol ≡ protocol
  pub aged : IsNatural info.http_age_seconds

kept-IsReport :
    (protocol bootstrap : Text) (info : TransportInfo)
    → Keeps (start_info protocol bootstrap) info
    → IsReport protocol info
kept-IsReport protocol bootstrap info (p, a) = record { named = p; aged = rw a tt }

module _ (N : DotNet) where
  check_state-Keeps :
      (wire : Bytes) (state : TlsState) (info : TransportInfo)
      → Keeps info (info_after (check_state N wire state info))
  unfolding check_state converse
  check_state-Keeps wire state info = elim (Bool-cases (state.chains == 0)) [
    | inl q ↦ rw (q, check_state) (refl, refl)
    | inr q ↦
        elim (Bool-cases
          (not (is_empty state.protocol) && not (text_eq state.protocol (codes "dot")))) [
            | inl k ↦ rw (q, k, check_state) (refl, refl)
            | inr k ↦ rw (q, k, check_state, converse) (refl, refl)
          ]
  ]

  authenticate-Keeps :
      (name : Text) (wire : Bytes) (info : TransportInfo)
      → Keeps info (info_after (authenticate N name wire info))
  unfolding authenticate
  authenticate-Keeps name wire info = elim (Fallible-cases (N.handshake (dot_config name))) [
    | inr (e, q) ↦ rw (q, authenticate) (refl, refl)
    | inl (state, q) ↦ rw (q, authenticate) (check_state-Keeps wire state info)
  ]

  module _ (P : Platform) (provider : Provider) (wire : Bytes) where
    connect-Keeps :
        (proxy : Option Url) (info : TransportInfo)
        → Keeps info (info_after (connect N P provider wire proxy info))
    unfolding connect
    connect-Keeps proxy info =
        elim (Fallible-cases (dial_tcp N.sockets P provider.dot_addr proxy).0) [
          | inr (e, q) ↦ rw (q, connect) (refl, refl)
          | inl (u, q) ↦ elim (Fallible-cases N.deadline) [
            | inr (e, k) ↦ simp (q, k, connect) (refl, refl)
            | inl (v, k) ↦ simp (q, k, connect) (authenticate-Keeps provider.dot_name wire info)
          ]
        ]

    pub exchange_dot-IsReport :
        (proxy : Text) → IsReport (codes "dot") (info_after (exchange_dot N P provider wire proxy))
    unfolding exchange_dot
    exchange_dot-IsReport proxy =
        elim (Fallible-cases
          (resolve_proxy P N.from_environment (https_url provider.dot_addr) proxy)) [
            | inr (e, q) ↦ rw (q, exchange_dot) (record { named = refl; aged = tt })
            | inl (u, q) ↦
                rw (q, exchange_dot)
                  (kept-IsReport _ (codes "system_resolver") _ (connect-Keeps u _))
          ]

module _ (N : DoqNet) where
  write_stream-Keeps :
      (wire : Bytes) (info : TransportInfo) → Keeps info (info_after (write_stream N wire info))
  unfolding write_stream finish_query
  write_stream-Keeps wire info = elim (Option-cases (write_dns_frame N.writer wire).error) [
    | inr (e, q) ↦ rw (q, write_stream) (refl, refl)
    | inl q ↦ elim (Fallible-cases N.close) [
      | inr (e, k) ↦ simp (q, k, write_stream, finish_query) (refl, refl)
      | inl (u, k) ↦ simp (q, k, write_stream, finish_query) (refl, refl)
    ]
  ]

  ask-Keeps : (wire : Bytes) (info : TransportInfo) → Keeps info (info_after (ask N wire info))
  unfolding ask
  ask-Keeps wire info = elim (Fallible-cases N.open_stream_sync) [
    | inr (e, q) ↦ simp (q, ask) (refl, refl)
    | inl (u, q) ↦ elim (Fallible-cases N.deadline) [
      | inr (e, k) ↦ simp (q, k, ask) (refl, refl)
      | inl (v, k) ↦ simp (q, k, ask) (write_stream-Keeps wire info)
    ]
  ]

  check_connection-Keeps :
      (wire : Bytes) (state : QuicState) (info : TransportInfo)
      → Keeps info (info_after (check_connection N wire state info))
  unfolding check_connection
  check_connection-Keeps wire state info = elim (Bool-cases (state.tls.chains == 0)) [
    | inl q ↦ rw (q, check_connection) (refl, refl)
    | inr q ↦ elim (Bool-cases (not (text_eq state.tls.protocol (codes "doq")))) [
      | inl k ↦ rw (q, k, check_connection) (refl, refl)
      | inr k ↦ rw (q, k, check_connection) (ask-Keeps wire _)
    ]
  ]

  pub exchange_doq-IsReport :
      (provider : Provider) (wire : Bytes)
      → IsReport (codes "doq") (info_after (exchange_doq N provider wire))
  unfolding exchange_doq
  exchange_doq-IsReport provider wire =
      elim (Fallible-cases (N.dial provider.doq_addr (doq_config provider.doq_name) quic_config)) [
        | inr (e, q) ↦ rw (q, exchange_doq) (record { named = refl; aged = tt })
        | inl (state, q) ↦
            rw (q, exchange_doq)
              (kept-IsReport _ (codes "system_resolver") _ (check_connection-Keeps wire state _))
      ]

module _ {M : Type 0} (N : CryptNet M) where
  ask_resolver-Keeps :
      (query : M) (resolver : Resolver) (info : TransportInfo)
      → Keeps info (ask_resolver N query resolver info).transport
  unfolding ask_resolver
  ask_resolver-Keeps query resolver info = elim (Fallible-cases (remaining_timeout N.second)) [
    | inr (e, q) ↦ simp (q, ask_resolver) (refl, refl)
    | inl (t, q) ↦ simp (q, ask_resolver) (refl, refl)
  ]

  pub exchange_dnscrypt-IsReport :
      (stamp : Text) (wire : Bytes)
      → IsReport (codes "dnscrypt") (exchange_dnscrypt N stamp wire).transport
  unfolding exchange_dnscrypt dial_resolver
  exchange_dnscrypt-IsReport stamp wire = elim (Option-cases (N.unpack wire)) [
    | inl q ↦ rw (q, exchange_dnscrypt) (record { named = refl; aged = tt })
    | inr (query, q) ↦ elim (Fallible-cases (remaining_timeout N.first)) [
      | inr (e, k) ↦
          simp (q, exchange_dnscrypt, k, dial_resolver) (record { named = refl; aged = tt })
      | inl (t, k) ↦ elim (Fallible-cases (N.dial (crypt_client t) stamp)) [
        | inr (e, l) ↦
            simp (q, exchange_dnscrypt, k, dial_resolver, l) (record { named = refl; aged = tt })
        | inl (resolver, l) ↦
            simp (q, exchange_dnscrypt, k, dial_resolver, l)
              (kept-IsReport _ (codes "stamp_ip") _ (ask_resolver-Keeps query resolver _))
      ]
    ]
  ]
