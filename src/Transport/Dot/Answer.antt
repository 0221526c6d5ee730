-- ===== src/Transport/Dot/Answer.antt =====
-- `exchangeDoT`: what an answer rests on.
use encrypted_dns_skill.Base.{
  true, not, ◌&&◌, Option, none, ◌≡◌, refl, sym, ap, inl, inr, arith, ◌∙◌, Bool-cases, Option-cases,
  ◌==◌,
}
use encrypted_dns_skill.Errors.{Error, Fallible, ok, err}
use encrypted_dns_skill.Errors.Laws.{Fallible-cases, err-ne-ok, ok-injective}
use encrypted_dns_skill.Frame.{Reader, Writer, write_dns_frame, read_dns_frame}
use encrypted_dns_skill.Model.{TransportInfo}
use encrypted_dns_skill.Platform.{Platform, Url}
use encrypted_dns_skill.Provider.{Provider}
use encrypted_dns_skill.Proxy.{resolve_proxy}
use encrypted_dns_skill.Text.{Text, Bytes, codes, text_eq, is_empty}
use encrypted_dns_skill.Transport.{TlsState, response_of, info_after}
use encrypted_dns_skill.Transport.Dial.{dial_tcp, wrap_error}
use encrypted_dns_skill.Transport.Dot.{
  DotNet, exchange_tcp_frame, https_url, dot_config, tls_version_name, converse, check_state,
  authenticate, connect, exchange_dot,
}
use encrypted_dns_skill.Transport.Dot.Laws.{IsDotState, dot_protocol}

-- What an answer over DoT rests on.
pub record IsDotAnswer (N : DotNet) (name : Text) (wire response : Bytes) (info : TransportInfo)
    : Type 0 where
  pub state : TlsState
  pub left : Reader
  pub handshaken : N.handshake (dot_config name) ≡ ok state
  pub good : IsDotState state
  pub written : (write_dns_frame N.writer wire).error ≡ none
  pub read : read_dns_frame N.reader ≡ ok (response, left)
  pub authenticated : info.server_authenticated ≡ true
  pub negotiated : info.alpn ≡ state.protocol
  pub versioned : info.tls_version ≡ tls_version_name state.version

exchange_tcp_frame-ok :
    (w : Writer) (r : Reader) (wire response : Bytes)
    → (exchange_tcp_frame w r wire).0 ≡ ok response
    → ((write_dns_frame w wire).error ≡ none)
      × ((left : Reader) × (read_dns_frame r ≡ ok (response, left)))
unfolding exchange_tcp_frame
exchange_tcp_frame-ok w r wire response h = elim (Option-cases (write_dns_frame w wire).error) [
  | inr (e, q) ↦ absurd (err-ne-ok _ _ (rw (q, exchange_tcp_frame) at h))
  | inl q ↦ elim (Fallible-cases (read_dns_frame r)) [
    | inr (e, k) ↦ absurd (err-ne-ok _ _ (rw (q, k, exchange_tcp_frame) at h))
    | inl ((m, left), k) ↦
        let same : m ≡ response = ok-injective (rw (q, k, exchange_tcp_frame) at h) in
        (q, (left, k ∙ ap (λ x. ok (x, left)) same))
  ]
]

module _ (N : DotNet) (wire response : Bytes) where
  wrapped-ok :
      (f : Error → Error) (m : Fallible Bytes) → wrap_error f m ≡ ok response → m ≡ ok response
  wrapped-ok f (ok a) h = h
  wrapped-ok f (err e) h = absurd (err-ne-ok _ _ h)

  authenticate-IsDotAnswer :
      (name : Text) (info : TransportInfo)
      → response_of (authenticate N name wire info) ≡ ok response
      → IsDotAnswer N name wire response (info_after (authenticate N name wire info))
  unfolding authenticate check_state converse
  authenticate-IsDotAnswer name info h = elim (Fallible-cases (N.handshake (dot_config name))) [
    | inr (e, q) ↦ absurd (err-ne-ok _ _ (rw (q, authenticate) at h))
    | inl (st, q) ↦ elim (Bool-cases (st.chains == 0)) [
      | inl t ↦ absurd (err-ne-ok _ _ (rw (q, authenticate, check_state, t) at h))
      | inr t ↦
          elim (Bool-cases
            (not (is_empty st.protocol) && not (text_eq st.protocol (codes "dot")))) [
              | inl u ↦ absurd (err-ne-ok _ _ (rw (q, authenticate, check_state, t, u) at h))
              | inr u ↦
                  let inner = wrapped-ok _ _ (rw (q, authenticate, check_state, t, u) at h) in
                  let (sent, (left, got)) =
                    exchange_tcp_frame-ok N.writer N.reader wire response inner in
                  rw (q, authenticate, check_state, t, u)
                    (record {
                      state = st;
                      left = left;
                      handshaken = q;
                      good = (ground arith, dot_protocol st.protocol u);
                      written = sent;
                      read = got;
                      authenticated = refl;
                      negotiated = refl;
                      versioned = refl;
                    })
            ]
    ]
  ]

  connect-ok :
      (P : Platform) (provider : Provider) (proxy : Option Url) (info : TransportInfo)
      → response_of (connect N P provider wire proxy info) ≡ ok response
      → (response_of (connect N P provider wire proxy info)
          ≡ response_of (authenticate N provider.dot_name wire info))
        × (info_after (connect N P provider wire proxy info)
            ≡ info_after (authenticate N provider.dot_name wire info))
  unfolding connect
  connect-ok P provider proxy info h =
      elim (Fallible-cases (dial_tcp N.sockets P provider.dot_addr proxy).0) [
        | inr (e, q) ↦ absurd (err-ne-ok _ _ (rw (q, connect) at h))
        | inl (u, q) ↦ elim (Fallible-cases N.deadline) [
          | inr (e, k) ↦ absurd (err-ne-ok _ _ (rw (q, connect, k) at h))
          | inl (v, k) ↦ (simp (q, connect, k), simp (q, connect, k))
        ]
      ]

  -- An answer over DoT is a message that was read from a connection whose handshake for the
  -- provider's authentication name succeeded, with a verified chain of certificates and the
  -- protocol `dot` or none, after the whole frame of the query was written; and the result says
  -- that the server is authenticated, with the protocol and the version that were negotiated.
  pub exchange_dot-IsDotAnswer :
      (P : Platform) (provider : Provider) (explicit : Text)
      → response_of (exchange_dot N P provider wire explicit) ≡ ok response
      → IsDotAnswer N provider.dot_name wire response
          (info_after (exchange_dot N P provider wire explicit))
  unfolding exchange_dot
  exchange_dot-IsDotAnswer P provider explicit h =
      elim (Fallible-cases
        (resolve_proxy P N.from_environment (https_url provider.dot_addr) explicit)) [
          | inr (e, q) ↦ absurd (err-ne-ok _ _ (rw (q, exchange_dot) at h))
          | inl (proxy, q) ↦
              let answered = rw (q, exchange_dot) at h in
              let (same, info_same) = connect-ok P provider proxy _ answered in
              rw (q, exchange_dot, info_same)
                (authenticate-IsDotAnswer provider.dot_name _ (sym same ∙ answered))
        ]
