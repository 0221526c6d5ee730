-- ===== src/Transport/Network/Dispatch.antt =====
-- What `exchangeProtocol` reports of a known protocol.
use encrypted_dns_skill.Base.{
  true, false, Option, none, some, ◌≡◌, ◌⊎◌, refl, sym, inl, inr, arith, ◌==◌, Bool-cases,
}
use encrypted_dns_skill.Capability.{capabilities, lists_protocol, known_protocol}
use encrypted_dns_skill.Errors.{ok}
use encrypted_dns_skill.Errors.Laws.{Fallible-cases, err-ne-ok}
use encrypted_dns_skill.Model.{QueryOptions, TransportInfo}
use encrypted_dns_skill.Platform.{Platform, to_lower}
use encrypted_dns_skill.Provider.{Provider, raw_endpoint, endpoint}
use encrypted_dns_skill.Query.{exchange_protocol}
use encrypted_dns_skill.Text.{Text, Bytes, codes, text_eq, is_ascii, lower_byte}
use encrypted_dns_skill.Text.Equality.{text_eq_sound, text_eq_sym}
use encrypted_dns_skill.Transport.{TlsState}
use encrypted_dns_skill.Transport.Doh.{
  doh_client, doh3_client, note_version, exchange_doh, exchange_doh3,
}
use encrypted_dns_skill.Transport.Https.{
  HttpNet, Client, Response, check_tls, tls_info, read_age, receive_http, request_of, perform,
  exchange_https,
}
use encrypted_dns_skill.Transport.Https.Laws.{exchange_https-HasAge}
use encrypted_dns_skill.Transport.Network.{Network, transports, network_exchange}
use encrypted_dns_skill.Transport.Network.Reported.{
  IsReport, exchange_dot-IsReport, exchange_doq-IsReport, exchange_dnscrypt-IsReport,
}

module _ (N : HttpNet) (P : Platform) where
  check_tls-protocol :
      (protocol : Text) (r : Response) (o : Option TlsState) (info : TransportInfo)
      → (check_tls N P protocol r o info).1.protocol ≡ info.protocol
  unfolding check_tls tls_info
  check_tls-protocol protocol r none info = refl
  check_tls-protocol protocol r (some st) info = elim (Bool-cases (st.chains == 0)) [
    | inl t ↦ rw (t, check_tls) refl
    | inr t ↦ rw (t, check_tls) refl
  ]

  exchange_https-protocol :
      (client : Client) (endpoint : Text) (wire : Bytes) (method protocol : Text)
      → (exchange_https N P client endpoint wire method protocol).1.protocol ≡ protocol
  unfolding exchange_https perform receive_http
  exchange_https-protocol client endpoint wire method protocol =
      elim (Fallible-cases (request_of N P endpoint wire method)) [
        | inr (e, q) ↦ rw (q, exchange_https) refl
        | inl (request, q) ↦ elim (Fallible-cases (N.new_request request)) [
          | inr (e, k) ↦ rw (q, exchange_https, perform, k) refl
          | inl (u, k) ↦ elim (Fallible-cases (N.send_request client request)) [
            | inr (e, l) ↦ rw (q, exchange_https, perform, k, l) refl
            | inl (r, l) ↦ elim (Fallible-cases (read_age N P r)) [
              | inr (e, m) ↦ rw (q, exchange_https, perform, k, l, receive_http, m) refl
              | inl (age, m) ↦
                  rw (q, exchange_https, perform, k, l, receive_http, m)
                    (check_tls-protocol protocol r r.tls _)
            ]
          ]
        ]
      ]

  exchange_https-IsReport :
      (client : Client) (endpoint : Text) (wire : Bytes) (method protocol : Text)
      → IsReport protocol (exchange_https N P client endpoint wire method protocol).1
  exchange_https-IsReport client endpoint wire method protocol =
      let (n, age) = exchange_https-HasAge N P client endpoint wire method protocol in
      record {
        named = exchange_https-protocol client endpoint wire method protocol;
        aged = rw age tt;
      }

  note_version-IsReport :
      (version : Option Text) (protocol : Text) (info : TransportInfo)
      → IsReport protocol info
      → IsReport protocol (note_version version info)
  note_version-IsReport none protocol info h = h
  note_version-IsReport (some v) protocol info h = record { named = h.named; aged = h.aged }

  module _ (provider : Provider) (wire : Bytes) (method : Text) where
    exchange_doh-IsReport :
        (explicit : Text)
        → IsReport (codes "doh") (exchange_doh N P provider wire method explicit).1
    unfolding exchange_doh
    exchange_doh-IsReport explicit =
        elim (Fallible-cases (doh_client N P provider.doh_url explicit)) [
          | inr (e, q) ↦ rw (q, exchange_doh) (record { named = refl; aged = tt })
          | inl ((client, label), q) ↦
              let h = exchange_https-IsReport client provider.doh_url wire method (codes "doh") in
              rw (q, exchange_doh) (record { named = h.named; aged = h.aged })
        ]

    exchange_doh3-IsReport : IsReport (codes "doh3") (exchange_doh3 N P provider wire method).1
    unfolding exchange_doh3
    exchange_doh3-IsReport = elim (Fallible-cases (doh3_client N P provider.doh3_url)) [
      | inr (e, q) ↦ rw (q, exchange_doh3) (record { named = refl; aged = tt })
      | inl (client, q) ↦
          rw (q, exchange_doh3)
            (note_version-IsReport N.captured _ _
              (exchange_https-IsReport client provider.doh3_url wire method (codes "doh3")))
    ]

-- The two protocols that are known and that no transport serves.
unserved-cases :
    (protocol : Text)
    → known_protocol protocol ≡ true
    → text_eq protocol (codes "doh") ≡ false
    → text_eq protocol (codes "dot") ≡ false
    → text_eq protocol (codes "doq") ≡ false
    → text_eq protocol (codes "doh3") ≡ false
    → text_eq protocol (codes "dnscrypt") ≡ false
    → (protocol ≡ codes "odoh") ⊎ (protocol ≡ codes "anonymized-dnscrypt")
unfolding known_protocol lists_protocol capabilities
unserved-cases protocol known q1 q2 q3 q4 q5 = elim (Bool-cases (text_eq (codes "odoh") protocol)) [
  | inl k ↦ inl (sym (text_eq_sound (codes "odoh") protocol k))
  | inr k ↦ inr (
      sym (
        text_eq_sound (codes "anonymized-dnscrypt") protocol (
          ground (
            arith,
            text_eq_sym protocol (codes "doh"),
            text_eq_sym protocol (codes "dot"),
            text_eq_sym protocol (codes "doq"),
            text_eq_sym protocol (codes "doh3"),
            text_eq_sym protocol (codes "dnscrypt"),
          ))))
]

-- No provider has an endpoint for them.
unaddressed :
    (P : Platform) (provider : Provider) (protocol : Text) {address : Text}
    → (protocol ≡ codes "odoh") ⊎ (protocol ≡ codes "anonymized-dnscrypt")
    → endpoint P provider protocol ≡ ok address
    → ⊥
unfolding endpoint raw_endpoint to_lower is_ascii lower_byte text_eq
unaddressed P provider protocol (inl e) h = err-ne-ok _ _ (rw e at h)
unaddressed P provider protocol (inr e) h = err-ne-ok _ _ (rw e at h)

module _ {M : Type 0} (P : Platform) (N : Network M) where
  -- Of a known protocol that the provider has an endpoint for, the transport of the exchange
  -- reports this protocol and an age that is not negative, whatever the network does.
  pub network_exchange-IsReport :
      (provider : Provider) (wire : Bytes) (o : QueryOptions) {address : Text}
      → known_protocol o.protocol ≡ true
      → endpoint P provider o.protocol ≡ ok address
      → IsReport o.protocol (network_exchange P N provider wire o).transport
  unfolding network_exchange exchange_protocol transports
  network_exchange-IsReport provider wire o known h =
      elim (Bool-cases (text_eq o.protocol (codes "doh"))) [
        | inl q1 ↦
            rw (q1, text_eq_sound _ _ q1)
              (exchange_doh-IsReport N.doh P provider wire o.method o.proxy)
        | inr q1 ↦ elim (Bool-cases (text_eq o.protocol (codes "dot"))) [
          | inl q2 ↦
              rw (q1, q2, text_eq_sound _ _ q2)
                (exchange_dot-IsReport N.dot P provider wire o.proxy)
          | inr q2 ↦ elim (Bool-cases (text_eq o.protocol (codes "doq"))) [
            | inl q3 ↦
                rw (q1, q2, q3, text_eq_sound _ _ q3) (exchange_doq-IsReport N.doq provider wire)
            | inr q3 ↦ elim (Bool-cases (text_eq o.protocol (codes "doh3"))) [
              | inl q4 ↦
                  rw (q1, q2, q3, q4, text_eq_sound _ _ q4)
                    (exchange_doh3-IsReport N.doh3 P provider wire o.method)
              | inr q4 ↦ elim (Bool-cases (text_eq o.protocol (codes "dnscrypt"))) [
                | inr q5 ↦ absurd (
                    unaddressed P provider o.protocol
                      (unserved-cases o.protocol known q1 q2 q3 q4 q5) h)
                | inl q5 ↦ elim (Fallible-cases (endpoint P provider (codes "dnscrypt"))) [
                  | inr (e, k) ↦ absurd (err-ne-ok _ _ (rw (text_eq_sound _ _ q5, k) at h))
                  | inl (stamp, k) ↦
                      rw (q1, q2, q3, q4, q5, k, text_eq_sound _ _ q5)
                        (exchange_dnscrypt-IsReport N.dnscrypt stamp wire)
                ]
              ]
            ]
          ]
        ]
      ]
