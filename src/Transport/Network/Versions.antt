-- ===== src/Transport/Network/Versions.antt =====
-- The versions of TLS that an answered query reports.
use encrypted_dns_skill.Base.{true, [], ◌≡◌, ◌⊎◌, ◌∙◌, inl, inr, Option-cases}
use encrypted_dns_skill.Dns.Query.{Random}
use encrypted_dns_skill.Errors.{ok}
use encrypted_dns_skill.Errors.Laws.{Fallible-cases}
use encrypted_dns_skill.Model.{QueryOptions, TransportInfo}
use encrypted_dns_skill.Platform.{Platform}
use encrypted_dns_skill.Provider.{Provider}
use encrypted_dns_skill.Query.{query_with_exchange, sent_wire}
use encrypted_dns_skill.Query.Laws.Accepted.{query-IsAccepted}
use encrypted_dns_skill.Text.{Text, Bytes, codes}
use encrypted_dns_skill.Transport.{response_of, info_after}
use encrypted_dns_skill.Transport.Dot.{dot_config, exchange_dot}
use encrypted_dns_skill.Transport.Dot.Answer.{exchange_dot-IsDotAnswer}
use encrypted_dns_skill.Transport.Doq.{doq_config, exchange_doq}
use encrypted_dns_skill.Transport.Doq.Answer.{exchange_doq-IsDoqAnswer}
use encrypted_dns_skill.Transport.DnsCrypt.{
  CryptNet, Resolver, crypt_client, remaining_timeout, ask_resolver, dial_resolver,
  exchange_dnscrypt,
}
use encrypted_dns_skill.Transport.Network.Answered.{
  IfAnswered, IfAnswered-intro, IfAnswered-elim, network-IfAnswered,
}
use encrypted_dns_skill.Transport.Network.{Network, network_exchange}
use encrypted_dns_skill.Transport.Network.Configured.{
  IsConfiguredNetwork, IsTls12, IsTls13, name_12, name_13, exchange_doh-IsTls12,
  exchange_doh3-IsTls13,
}

-- The version that a result of this protocol may name.
pub data IsVersion (protocol : Text) (info : TransportInfo) : Type 0 where
  over_tcp :
      (protocol ≡ codes "doh") ⊎ (protocol ≡ codes "dot")
      → IsTls12 info.tls_version
      → IsVersion protocol info
  over_udp :
      (protocol ≡ codes "doq") ⊎ (protocol ≡ codes "doh3")
      → IsTls13 info.tls_version
      → IsVersion protocol info
  without : protocol ≡ codes "dnscrypt" → info.tls_version ≡ [] → IsVersion protocol info

-- DNSCrypt has no TLS.
module _ {M : Type 0} (N : CryptNet M) where
  ask_resolver-tls_version :
      (query : M) (resolver : Resolver) (info : TransportInfo)
      → (ask_resolver N query resolver info).transport.tls_version ≡ info.tls_version
  unfolding ask_resolver
  ask_resolver-tls_version query resolver info =
      elim (Fallible-cases (remaining_timeout N.second)) [
        | inr (e, q) ↦ simp (q, ask_resolver)
        | inl (t, q) ↦ simp (q, ask_resolver)
      ]

  exchange_dnscrypt-tls_version :
      (stamp : Text) (wire : Bytes) → (exchange_dnscrypt N stamp wire).transport.tls_version ≡ []
  unfolding exchange_dnscrypt dial_resolver
  exchange_dnscrypt-tls_version stamp wire = elim (Option-cases (N.unpack wire)) [
    | inl q ↦ simp (q, exchange_dnscrypt)
    | inr (query, q) ↦ elim (Fallible-cases (remaining_timeout N.first)) [
      | inr (e, k) ↦ simp (q, exchange_dnscrypt, k, dial_resolver)
      | inl (t, k) ↦ elim (Fallible-cases (N.dial (crypt_client t) stamp)) [
        | inr (e, l) ↦ simp (q, exchange_dnscrypt, k, dial_resolver, l)
        | inl (resolver, l) ↦
            simp (q, exchange_dnscrypt, k, dial_resolver, l)
              (ask_resolver-tls_version query resolver _)
      ]
    ]
  ]

module _ {M : Type 0} (P : Platform) (N : Network M) (configured : IsConfiguredNetwork N) where
  dot-IsTls12 :
      (provider : Provider) (wire response : Bytes) (proxy : Text)
      → response_of (exchange_dot N.dot P provider wire proxy) ≡ ok response
      → IsTls12 (info_after (exchange_dot N.dot P provider wire proxy)).tls_version
  unfolding dot_config
  dot-IsTls12 provider wire response proxy h =
      let answer = exchange_dot-IsDotAnswer N.dot wire response P provider proxy h in
      let (low, high) =
        configured.dot (dot_config provider.dot_name) answer.state answer.handshaken in
      rw answer.versioned (name_12 answer.state.version low high)

  doq-IsTls13 :
      (provider : Provider) (wire response : Bytes)
      → response_of (exchange_doq N.doq provider wire) ≡ ok response
      → IsTls13 (info_after (exchange_doq N.doq provider wire)).tls_version
  unfolding doq_config
  doq-IsTls13 provider wire response h =
      let answer = exchange_doq-IsDoqAnswer N.doq wire response provider h in
      let (before, sure, versioned, negotiated, asked) = answer.asked in
      let (low, high) =
        configured.doq provider.doq_addr (doq_config provider.doq_name) _ answer.state
          answer.dialled in
      rw (asked.versioned ∙ versioned) (name_13 answer.state.tls.version low high)

  network-IsVersion :
      (provider : Provider) (wire : Bytes) (o : QueryOptions)
      → IfAnswered
          (IsVersion o.protocol)
          (network_exchange P N provider wire o).response
          (network_exchange P N provider wire o).transport
  network-IsVersion provider wire o =
      let A = IsVersion o.protocol in
      network-IfAnswered P N A provider wire o (record {
        doh = λ q. IfAnswered-intro A _ _ (λ response h. over_tcp (inl q) (
            IfAnswered-elim _ _ _ response
              (exchange_doh-IsTls12 N.doh P configured.doh provider wire o.method o.proxy) h));
        dot = λ q.
            IfAnswered-intro A _ _
              (λ response h. over_tcp (inr q) (dot-IsTls12 provider wire response o.proxy h));
        doq = λ q.
            IfAnswered-intro A _ _
              (λ response h. over_udp (inl q) (doq-IsTls13 provider wire response h));
        doh3 = λ q. IfAnswered-intro A _ _ (λ response h. over_udp (inr q) (
            IfAnswered-elim _ _ _ response
              (exchange_doh3-IsTls13 N.doh3 P configured.doh3 provider wire o.method) h));
        dnscrypt = λ stamp q.
            IfAnswered-intro A _ _
              (λ response h. without q (exchange_dnscrypt-tls_version N.dnscrypt stamp wire));
      })

  -- Of a completed query, the transport names the version TLS 1.3 over DoQ and DoH3, TLS 1.2 or
  -- TLS 1.3 over DoH and DoT, and none over DNSCrypt; no other protocol completes. The packages
  -- for TLS and QUIC are taken to keep to the least version that they are configured with, and to
  -- have none above TLS 1.3.
  pub query-IsVersion :
      (random : Random) (o : QueryOptions)
      → (query_with_exchange P random o (network_exchange P N)).completed ≡ true
      → IsVersion o.protocol (query_with_exchange P random o (network_exchange P N)).transport
  query-IsVersion random o h =
      let accepted = query-IsAccepted P random o (network_exchange P N) h in
      let answered = accepted.answered in
      rw answered.transported (
        IfAnswered-elim (IsVersion o.protocol) _ _ answered.response
          (network-IsVersion accepted.provider (sent_wire o.protocol accepted.built) o)
          answered.received)
