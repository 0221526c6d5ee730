-- ===== src/Transport/Doq/Answer.antt =====
-- `exchangeDoQ`: what an answer rests on.
use encrypted_dns_skill.Base.{
  true, none, ◌≡◌, refl, inl, inr, arith, Bool-cases, Option-cases, ◌==◌,
}
use encrypted_dns_skill.Errors.{ok}
use encrypted_dns_skill.Errors.Laws.{Fallible-cases, err-ne-ok}
use encrypted_dns_skill.Frame.{write_dns_frame}
use encrypted_dns_skill.Model.{TransportInfo}
use encrypted_dns_skill.Provider.{Provider}
use encrypted_dns_skill.Text.{Bytes, codes, text_eq}
use encrypted_dns_skill.Text.Equality.{text_eq_sound}
use encrypted_dns_skill.Transport.{quic_config, response_of, info_after}
use encrypted_dns_skill.Transport.Dot.{tls_version_name}
use encrypted_dns_skill.Transport.Doq.{
  DoqNet, QuicState, finish_query, write_stream, ask, check_connection, doq_config, exchange_doq,
}
use encrypted_dns_skill.Transport.Doq.Laws.{IsDoqState, IsOnly, receive_response-IsOnly}

-- The whole query was written on a stream of its own, which was closed, and the stream of the
-- response holds one message.
pub record IsAsked (N : DoqNet) (wire response : Bytes) (before after : TransportInfo)
    : Type 0 where
  pub streamed : N.open_stream_sync ≡ ok tt
  pub written : (write_dns_frame N.writer wire).error ≡ none
  pub finished : N.close ≡ ok tt
  pub only : IsOnly N.reader response
  pub authenticated : after.server_authenticated ≡ before.server_authenticated
  pub versioned : after.tls_version ≡ before.tls_version
  pub negotiated : after.alpn ≡ before.alpn

-- What an answer over DoQ rests on.
pub record IsDoqAnswer (N : DoqNet) (provider : Provider) (wire response : Bytes)
    (info : TransportInfo) : Type 0 where
  pub state : QuicState
  pub dialled : N.dial provider.doq_addr (doq_config provider.doq_name) quic_config ≡ ok state
  pub good : IsDoqState state.tls
  pub asked :
      (before : TransportInfo) × (before.server_authenticated ≡ true)
      × (before.tls_version ≡ tls_version_name state.tls.version)
      × (before.alpn ≡ state.tls.protocol)
      × IsAsked N wire response before info

module _ (N : DoqNet) (wire response : Bytes) where
  ask-IsAsked :
      (info : TransportInfo)
      → response_of (ask N wire info) ≡ ok response
      → IsAsked N wire response info (info_after (ask N wire info))
  unfolding ask write_stream finish_query
  ask-IsAsked info h = elim (Fallible-cases N.open_stream_sync) [
    | inr (e, q) ↦ absurd (err-ne-ok _ _ (rw (q, ask) at h))
    | inl (u, q) ↦ elim (Fallible-cases N.deadline) [
      | inr (e, k) ↦ absurd (err-ne-ok _ _ (rw (q, k, ask) at h))
      | inl (v, k) ↦ elim (Option-cases (write_dns_frame N.writer wire).error) [
        | inr (e, l) ↦ absurd (err-ne-ok _ _ (rw (q, k, ask, l, write_stream) at h))
        | inl l ↦ elim (Fallible-cases N.close) [
          | inr (e, m) ↦
              absurd (err-ne-ok _ _ (rw (q, k, ask, l, write_stream, m, finish_query) at h))
          | inl (w, m) ↦
              let received = rw (q, k, ask, l, write_stream, m, finish_query) at h in
              simp (q, k, ask, l, write_stream, m, finish_query)
                (record {
                  streamed = q;
                  written = l;
                  finished = m;
                  only = receive_response-IsOnly N.reader response received;
                  authenticated = refl;
                  versioned = refl;
                  negotiated = refl;
                })
        ]
      ]
    ]
  ]

  -- An answer over DoQ comes from a connection that was dialled with the provider's
  -- authentication name, with a verified chain of certificates and the protocol `doq`. The whole
  -- frame of the query was written on a new stream, which was closed, and the stream of the
  -- response holds one message, the answer, and nothing behind it. The result says that the
  -- server is authenticated, with the protocol and the version that were negotiated.
  pub exchange_doq-IsDoqAnswer :
      (provider : Provider)
      → response_of (exchange_doq N provider wire) ≡ ok response
      → IsDoqAnswer N provider wire response (info_after (exchange_doq N provider wire))
  unfolding exchange_doq check_connection
  exchange_doq-IsDoqAnswer provider h =
      elim (Fallible-cases (N.dial provider.doq_addr (doq_config provider.doq_name) quic_config)) [
        | inr (e, q) ↦ absurd (err-ne-ok _ _ (rw (q, exchange_doq) at h))
        | inl (state, q) ↦ elim (Bool-cases (state.tls.chains == 0)) [
          | inl t ↦ absurd (err-ne-ok _ _ (rw (q, exchange_doq, check_connection, t) at h))
          | inr t ↦ elim (Bool-cases (text_eq state.tls.protocol (codes "doq"))) [
            | inr u ↦ absurd (err-ne-ok _ _ (rw (q, exchange_doq, check_connection, t, u) at h))
            | inl u ↦
                let heard = rw (q, exchange_doq, check_connection, t, u) at h in
                rw (q, exchange_doq, check_connection, t, u)
                  (record {
                    state = state;
                    dialled = q;
                    good = (ground arith, text_eq_sound state.tls.protocol (codes "doq") u);
                    asked = (_, refl, refl, refl, ask-IsAsked _ heard);
                  })
          ]
        ]
      ]
