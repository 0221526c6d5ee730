-- ===== src/Transport/Network/Configured.antt =====
-- The configurations of TLS that the transports ask for, and what an answer over HTTPS reports of
-- the version.
use encrypted_dns_skill.Base.{
  ℕ, ◌≤◌, true, not, ◌||◌, Option, none, some, ◌≡◌, ◌⊎◌, refl, sym, ap, inl, inr, arith, Bool-cases,
  Option-cases, ◌==◌,
}
use encrypted_dns_skill.Errors.{ok, select_proxy}
use encrypted_dns_skill.Errors.Laws.{Fallible-cases, err-ne-ok, ok-injective, >>=-eq-ok}
use encrypted_dns_skill.Model.{TransportInfo}
use encrypted_dns_skill.Platform.{Platform, Url}
use encrypted_dns_skill.Provider.{Provider}
use encrypted_dns_skill.Proxy.{resolve_proxy}
use encrypted_dns_skill.Text.{Text, Bytes, codes, text_eq, is_empty}
use encrypted_dns_skill.Transport.{TlsConfig, QuicConfig, TlsState, version_tls13}
use encrypted_dns_skill.Transport.Dial.{wrap_error}
use encrypted_dns_skill.Transport.Doh.{
  doh_transport, doh3_transport, doh_client, doh3_client, exchange_doh, exchange_doh3, note_version,
}
use encrypted_dns_skill.Transport.Doq.{QuicState}
use encrypted_dns_skill.Transport.Dot.{tls_version_name}
use encrypted_dns_skill.Transport.Https.{
  HttpNet, RoundTripper, over_tls, over_quic, Client, Request, Response, exchange_https,
}
use encrypted_dns_skill.Transport.Https.Laws.{exchange_https-IsHttpAnswer}
use encrypted_dns_skill.Transport.Network.{Network}
use encrypted_dns_skill.Transport.Network.Answered.{IfAnswered, IfAnswered-intro}

-- The version of a connection is one that its configuration allows, of those that `crypto/tls` has.
abbrev pub IsAllowed : TlsConfig → TlsState → Type 0
IsAllowed config state = (config.min_version ≤ state.version) × (state.version ≤ version_tls13)

abbrev pub config_of : RoundTripper → TlsConfig
config_of (over_tls t) = t.tls_client_config
config_of (over_quic t) = t.tls_config

-- `net/http` and http3 connect as the client's transport is configured.
abbrev pub IsConfigured : HttpNet → Type 0
IsConfigured N =
    (client : Client) (request : Request) (response : Response) (state : TlsState)
    → N.send_request client request ≡ ok response
    → response.tls ≡ some state
    → IsAllowed (config_of client.transport) state

-- `crypto/tls` and quic-go connect as they are configured, which they document.
pub record IsConfiguredNetwork {M : Type 0} (N : Network M) : Type 0 where
  pub doh : IsConfigured N.doh
  pub doh3 : IsConfigured N.doh3
  pub dot :
      (config : TlsConfig) (state : TlsState)
      → N.dot.handshake config ≡ ok state
      → IsAllowed config state
  pub doq :
      (address : Text) (config : TlsConfig) (quic : QuicConfig) (state : QuicState)
      → N.doq.dial address config quic ≡ ok state
      → IsAllowed config state.tls

abbrev pub IsTls13 : Text → Type 0
IsTls13 version = version ≡ codes "TLS1.3"

abbrev pub IsTls12 : Text → Type 0
IsTls12 version = (version ≡ codes "TLS1.2") ⊎ (version ≡ codes "TLS1.3")

pub name_13 : (version : ℕ) → 772 ≤ version → version ≤ 772 → IsTls13 (tls_version_name version)
unfolding tls_version_name
name_13 version low high =
    let same : (version == 0x304) ≡ true = ground arith in rw (same, tls_version_name) refl

pub name_12 : (version : ℕ) → 771 ≤ version → version ≤ 772 → IsTls12 (tls_version_name version)
unfolding tls_version_name
name_12 version low high = elim (Bool-cases (version == 0x304)) [
  | inl q ↦ rw (q, tls_version_name) (inr refl)
  | inr q ↦
      let same : (version == 0x303) ≡ true = ground arith in
      rw (q, same, tls_version_name) (inl refl)
]

kept :
    (state : TlsState) {config config' : TlsConfig}
    → config ≡ config'
    → IsAllowed config state
    → IsAllowed config' state
kept state e (low, high) = (rw e at low, high)

module _ (N : HttpNet) (P : Platform) where
  doh_client-transport :
      (endpoint explicit label : Text) (client : Client)
      → doh_client N P endpoint explicit ≡ ok (client, label)
      → (proxy : Option Url) × (client.transport ≡ over_tls (doh_transport proxy))
  unfolding doh_client
  doh_client-transport endpoint explicit label client h =
      elim (Option-cases (P.parse_url endpoint)) [
        | inl q ↦ absurd (err-ne-ok _ _ (rw (q, doh_client) at h))
        | inr (origin, q) ↦
            let (proxy, resolved, made) =
              >>=-eq-ok
                (wrap_error (select_proxy (codes "DoH"))
                  (resolve_proxy P N.from_environment origin explicit))
                _ (rw (q, doh_client) at h) in
            (proxy, ap (λ p. p.0.transport) (sym (ok-injective made)))
      ]

  doh3_client-transport :
      (endpoint : Text) (client : Client)
      → doh3_client N P endpoint ≡ ok client
      → (origin : Url) × (client.transport ≡ over_quic (doh3_transport origin))
  unfolding doh3_client
  doh3_client-transport endpoint client h = elim (Option-cases (P.parse_url endpoint)) [
    | inl q ↦ absurd (err-ne-ok _ _ (rw (q, doh3_client) at h))
    | inr (origin, q) ↦
        elim (Bool-cases
          (not (text_eq origin.scheme (codes "https")) || is_empty origin.hostname)) [
            | inl t ↦ absurd (err-ne-ok _ _ (rw (q, doh3_client, t) at h))
            | inr t ↦
                (origin, ap (λ c. c.transport) (sym (ok-injective (rw (q, doh3_client, t) at h))))
          ]
  ]

  module _ (configured : IsConfigured N) (provider : Provider) (wire : Bytes) (method : Text) where
    -- The version that an answer over HTTPS reports was allowed.
    https-IsAllowed :
        (client : Client) (url protocol : Text) (response : Bytes)
        → (exchange_https N P client url wire method protocol).0 ≡ ok response
        → (state : TlsState) × IsAllowed (config_of client.transport) state
          × ((exchange_https N P client url wire method protocol).1.tls_version
              ≡ tls_version_name state.version)
    https-IsAllowed client url protocol response h =
        let (request, r, made, got, answer) =
          exchange_https-IsHttpAnswer N P client url wire method protocol response h in
        (
          answer.state,
          configured client request r answer.state got answer.connected,
          answer.versioned,
        )

    pub exchange_doh-IsTls12 :
        (explicit : Text)
        → IfAnswered
            (λ info. IsTls12 info.tls_version)
            (exchange_doh N P provider wire method explicit).0
            (exchange_doh N P provider wire method explicit).1
    unfolding exchange_doh doh_transport
    exchange_doh-IsTls12 explicit =
        elim (Fallible-cases (doh_client N P provider.doh_url explicit)) [
          | inr (e, q) ↦ rw (q, exchange_doh) tt
          | inl ((client, label), q) ↦
              let (proxy, made) = doh_client-transport provider.doh_url explicit label client q in
              rw (q, exchange_doh)
                (IfAnswered-intro (λ info. IsTls12 info.tls_version) _ _
                  (λ response h.
                    let (state, allowed, named) =
                      https-IsAllowed client provider.doh_url (codes "doh") response h in
                    let (low, high) = kept state (ap config_of made) allowed in
                    rw named (name_12 state.version low high)))
        ]

    note_version-IsTls13 :
        (version : Option Text) (info : TransportInfo)
        → IsTls13 info.tls_version
        → IsTls13 (note_version version info).tls_version
    note_version-IsTls13 none info h = h
    note_version-IsTls13 (some version) info h = h

    pub exchange_doh3-IsTls13 :
        IfAnswered
          (λ info. IsTls13 info.tls_version)
          (exchange_doh3 N P provider wire method).0
          (exchange_doh3 N P provider wire method).1
    unfolding exchange_doh3 doh3_transport
    exchange_doh3-IsTls13 = elim (Fallible-cases (doh3_client N P provider.doh3_url)) [
      | inr (e, q) ↦ rw (q, exchange_doh3) tt
      | inl (client, q) ↦
          let (origin, made) = doh3_client-transport provider.doh3_url client q in
          rw (q, exchange_doh3)
            (IfAnswered-intro (λ info. IsTls13 info.tls_version) _ _
              (λ response h.
                let (state, allowed, named) =
                  https-IsAllowed client provider.doh3_url (codes "doh3") response h in
                let (low, high) = kept state (ap config_of made) allowed in
                note_version-IsTls13 N.captured _ (rw named (name_13 state.version low high))))
    ]
