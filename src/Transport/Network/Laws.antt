-- ===== src/Transport/Network/Laws.antt =====
-- A completed query over the modelled transports.
use encrypted_dns_skill.Base.{true, Option, none, some, ◌≡◌, ◌∙◌, inl, inr, Option-cases}
use encrypted_dns_skill.Dns.Query.{Random}
use encrypted_dns_skill.Errors.{Fallible}
use encrypted_dns_skill.Errors.Laws.{Fallible-cases}
use encrypted_dns_skill.Model.{QueryOptions, TransportInfo}
use encrypted_dns_skill.Platform.{Platform}
use encrypted_dns_skill.Provider.{Provider}
use encrypted_dns_skill.Query.{query_with_exchange, sent_wire}
use encrypted_dns_skill.Query.Laws.Accepted.{query-IsAccepted}
use encrypted_dns_skill.Text.{Text, Bytes, codes}
use encrypted_dns_skill.Transport.{response_of, info_after}
use encrypted_dns_skill.Transport.DnsCrypt.{
  CryptNet, Resolver, crypt_client, remaining_timeout, ask_resolver, dial_resolver,
  exchange_dnscrypt,
}
use encrypted_dns_skill.Transport.Doq.{exchange_doq}
use encrypted_dns_skill.Transport.Dot.{exchange_dot}
use encrypted_dns_skill.Transport.Doq.Answer.{exchange_doq-IsDoqAnswer}
use encrypted_dns_skill.Transport.Dot.Answer.{exchange_dot-IsDotAnswer}
use encrypted_dns_skill.Transport.Https.{HttpNet, Client, exchange_https}
use encrypted_dns_skill.Transport.Doh.{
  doh_client, doh3_client, exchange_doh, exchange_doh3, note_version,
}
use encrypted_dns_skill.Transport.Https.Laws.{exchange_https-IsHttpAnswer}
use encrypted_dns_skill.Transport.Network.Answered.{
  IfAnswered, IfAnswered-intro, IfAnswered-elim, network-IfAnswered,
}
use encrypted_dns_skill.Transport.Network.{Network, network_exchange}

-- Where there is an answer, the server is authenticated.
abbrev IsSure : TransportInfo → Type 0
IsSure info = info.server_authenticated ≡ true

abbrev Sure : Fallible Bytes → TransportInfo → Type 0
Sure = IfAnswered IsSure

note_version-authenticated :
    (version : Option Text) (info : TransportInfo)
    → info.server_authenticated ≡ true
    → (note_version version info).server_authenticated ≡ true
note_version-authenticated none info h = h
note_version-authenticated (some version) info h = h

module _ (N : HttpNet) (P : Platform) (provider : Provider) (wire : Bytes) (method : Text) where
  https-Sure :
      (client : Client) (url protocol : Text)
      → Sure
          (exchange_https N P client url wire method protocol).0
          (exchange_https N P client url wire method protocol).1
  https-Sure client url protocol = IfAnswered-intro IsSure _ _ (λ response h.
      let (request, r, made, got, answer) =
        exchange_https-IsHttpAnswer N P client url wire method protocol response h in
      answer.authenticated)

  doh-Sure :
      (explicit : Text)
      → Sure
          (exchange_doh N P provider wire method explicit).0
          (exchange_doh N P provider wire method explicit).1
  unfolding exchange_doh
  doh-Sure explicit = elim (Fallible-cases (doh_client N P provider.doh_url explicit)) [
    | inr (e, q) ↦ rw (q, exchange_doh) tt
    | inl ((client, label), q) ↦
        let sure = https-Sure client provider.doh_url (codes "doh") in
        rw (q, exchange_doh)
          (IfAnswered-intro IsSure _ _ (λ response h. IfAnswered-elim IsSure _ _ response sure h))
  ]

  doh3-Sure :
      Sure (exchange_doh3 N P provider wire method).0 (exchange_doh3 N P provider wire method).1
  unfolding exchange_doh3
  doh3-Sure = elim (Fallible-cases (doh3_client N P provider.doh3_url)) [
    | inr (e, q) ↦ rw (q, exchange_doh3) tt
    | inl (client, q) ↦
        let sure = https-Sure client provider.doh3_url (codes "doh3") in
        rw (q, exchange_doh3)
          (IfAnswered-intro IsSure _ _ (λ response h.
            note_version-authenticated N.captured _ (IfAnswered-elim IsSure _ _ response sure h)))
  ]

module _ {M : Type 0} (N : CryptNet M) where
  ask_resolver-authenticated :
      (query : M) (resolver : Resolver) (info : TransportInfo)
      → (ask_resolver N query resolver info).transport.server_authenticated ≡ true
  unfolding ask_resolver
  ask_resolver-authenticated query resolver info =
      elim (Fallible-cases (remaining_timeout N.second)) [
        | inr (e, q) ↦ simp (q, ask_resolver)
        | inl (t, q) ↦ simp (q, ask_resolver)
      ]

  dnscrypt-Sure :
      (stamp : Text) (wire : Bytes)
      → Sure (exchange_dnscrypt N stamp wire).response (exchange_dnscrypt N stamp wire).transport
  unfolding exchange_dnscrypt dial_resolver
  dnscrypt-Sure stamp wire = elim (Option-cases (N.unpack wire)) [
    | inl q ↦ rw (q, exchange_dnscrypt) tt
    | inr (query, q) ↦ elim (Fallible-cases (remaining_timeout N.first)) [
      | inr (e, k) ↦ simp (q, exchange_dnscrypt, k, dial_resolver) tt
      | inl (t, k) ↦ elim (Fallible-cases (N.dial (crypt_client t) stamp)) [
        | inr (e, l) ↦ simp (q, exchange_dnscrypt, k, dial_resolver, l) tt
        | inl (resolver, l) ↦
            simp (q, exchange_dnscrypt, k, dial_resolver, l)
              (IfAnswered-intro IsSure _ _
                (λ response h. ask_resolver-authenticated query resolver _))
      ]
    ]
  ]

module _ {M : Type 0} (P : Platform) (N : Network M) where
  dot-Sure :
      (provider : Provider) (wire : Bytes) (proxy : Text)
      → Sure
          (response_of (exchange_dot N.dot P provider wire proxy))
          (info_after (exchange_dot N.dot P provider wire proxy))
  dot-Sure provider wire proxy = IfAnswered-intro IsSure _ _ (λ response h.
      (exchange_dot-IsDotAnswer N.dot wire response P provider proxy h).authenticated)

  doq-Sure :
      (provider : Provider) (wire : Bytes)
      → Sure
          (response_of (exchange_doq N.doq provider wire))
          (info_after (exchange_doq N.doq provider wire))
  doq-Sure provider wire = IfAnswered-intro IsSure _ _ (λ response h.
      let (before, sure, versioned, negotiated, asked) =
        (exchange_doq-IsDoqAnswer N.doq wire response provider h).asked in
      asked.authenticated ∙ sure)

  network-Sure :
      (provider : Provider) (wire : Bytes) (o : QueryOptions)
      → Sure
          (network_exchange P N provider wire o).response
          (network_exchange P N provider wire o).transport
  network-Sure provider wire o = network-IfAnswered P N IsSure provider wire o (record {
    doh = λ _. doh-Sure N.doh P provider wire o.method o.proxy;
    dot = λ _. dot-Sure provider wire o.proxy;
    doq = λ _. doq-Sure provider wire;
    doh3 = λ _. doh3-Sure N.doh3 P provider wire o.method;
    dnscrypt = λ stamp _. dnscrypt-Sure N.dnscrypt stamp wire;
  })

  -- Whatever the network does, the result of `queryWithExchange` over `exchangeProtocol` and the
  -- five transports is completed only if its transport says that the server is authenticated.
  pub query-authenticated :
      (random : Random) (o : QueryOptions)
      → (query_with_exchange P random o (network_exchange P N)).completed ≡ true
      → (query_with_exchange P random o (network_exchange P N)).transport.server_authenticated
        ≡ true
  query-authenticated random o h =
      let accepted = query-IsAccepted P random o (network_exchange P N) h in
      let answered = accepted.answered in
      rw answered.transported (
        IfAnswered-elim IsSure _ _ answered.response
          (network-Sure accepted.provider (sent_wire o.protocol accepted.built) o)
          answered.received)
