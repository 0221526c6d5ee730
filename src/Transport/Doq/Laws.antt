-- ===== src/Transport/Doq/Laws.antt =====
-- `exchangeDoQ`: no query before the server is authenticated, and what is read of a response.
use encrypted_dns_skill.Base.{
  [], ◌∷◌, ◌≡◌, ◌≢◌, refl, ap, ◌∙◌, inl, inr, arith, Bool-cases, Option-cases, ◌==◌,
}
use encrypted_dns_skill.Errors.{Error, ok, end_of_file}
use encrypted_dns_skill.Errors.Laws.{Fallible-cases, err-ne-ok, ok-injective}
use encrypted_dns_skill.Frame.{Reader, write_dns_frame, read_dns_frame, frame_of}
use encrypted_dns_skill.Model.{TransportInfo}
use encrypted_dns_skill.Provider.{Provider}
use encrypted_dns_skill.Text.{Text, Bytes, codes, text_eq}
use encrypted_dns_skill.Text.Equality.{text_eq_sound}
use encrypted_dns_skill.Transport.{
  tls_handshake, payload, quic_close, quic_config, TlsState, IsCareful, silent, asked, events_of,
}
use encrypted_dns_skill.Transport.Doq.{
  DoqNet, read_trailing, check_trailing, receive_response, write_stream, ask, check_connection,
  doq_no_error, doq_config, exchange_doq,
}
use encrypted_dns_skill.Transport.Dot.Laws.{Careful-after, written_front}

-- A verified chain of certificates, and the protocol `doq`.
abbrev pub IsDoqState : TlsState → Type 0
IsDoqState state = (state.chains ≢ 0) × (state.protocol ≡ codes "doq")

module _ (N : DoqNet) where
  write_stream-events :
      (wire : Bytes) (info : TransportInfo)
      → events_of (write_stream N wire info) ≡ payload (write_dns_frame N.writer wire).sent ∷ []
  unfolding write_stream
  write_stream-events wire info = elim (Option-cases (write_dns_frame N.writer wire).error) [
    | inr (e, l) ↦ simp (l, write_stream)
    | inl l ↦ simp (l, write_stream)
  ]

  -- What is written after the handshake.
  ask-IsCareful :
      (name : Text) (state : TlsState) (wire : Bytes) (info : TransportInfo)
      → IsDoqState state
      → IsCareful name IsDoqState
          (frame_of wire)
          (tls_handshake name state ∷ events_of (ask N wire info))
  unfolding ask
  ask-IsCareful name state wire info good =
      let (unsent, split) = written_front N.writer wire in
      elim (Fallible-cases N.open_stream_sync) [
        | inr (e, q) ↦ simp (q, ask) (silent (tt, tt))
        | inl (u, q) ↦ elim (Fallible-cases N.deadline) [
          | inr (e, k) ↦ simp (q, k, ask) (silent (tt, tt))
          | inl (v, k) ↦
              simp (q, k, ask)
                (asked [] state _ unsent [] tt tt good split
                  (ap (◌∷◌ (tls_handshake name state)) (write_stream-events wire info)))
        ]
      ]

  -- Whatever the network does, an exchange over DoQ writes nothing of the query unless the
  -- connection was dialled for the provider's authentication name, with a verified chain of
  -- certificates and the protocol `doq` negotiated; what it writes then, after the handshake, is
  -- a front of the query's frame.
  pub exchange_doq-IsCareful :
      (provider : Provider) (wire : Bytes)
      → IsCareful provider.doq_name IsDoqState
          (frame_of wire)
          (events_of (exchange_doq N provider wire))
  unfolding exchange_doq check_connection
  exchange_doq-IsCareful provider wire =
      elim (Fallible-cases (N.dial provider.doq_addr (doq_config provider.doq_name) quic_config)) [
        | inr (e, q) ↦ rw (q, exchange_doq) (silent tt)
        | inl (state, q) ↦ elim (Bool-cases (state.tls.chains == 0)) [
          | inl t ↦ rw (q, exchange_doq, check_connection, t) (silent (tt, (tt, tt)))
          | inr t ↦ elim (Bool-cases (text_eq state.tls.protocol (codes "doq"))) [
            | inr u ↦ rw (q, exchange_doq, check_connection, t, u) (silent (tt, (tt, (tt, tt))))
            | inl u ↦
                rw (q, exchange_doq, check_connection, t, u)
                  (Careful-after (quic_close doq_no_error ∷ []) (tt, tt)
                    (ask-IsCareful provider.doq_name state.tls wire _
                      (ground arith, text_eq_sound state.tls.protocol (codes "doq") u)))
          ]
        ]
      ]

-- One message and the end of the stream were read.
pub record IsOnly (r : Reader) (response : Bytes) : Type 0 where
  pub left : Reader
  pub read : read_dns_frame r ≡ ok (response, left)
  pub ended : left.bytes ≡ []
  pub at_end : left.stop ≡ end_of_file

trailing-ended :
    (response response' : Bytes) (bytes : Bytes) (stop : Error)
    → check_trailing response (read_trailing bytes stop) ≡ ok response'
    → (response ≡ response') × (bytes ≡ []) × (stop ≡ end_of_file)
unfolding check_trailing read_trailing
trailing-ended response response' (c ∷ s) stop h = absurd (err-ne-ok _ _ h)
trailing-ended response response' [] end_of_file h = (ok-injective h, refl, refl)
trailing-ended response response' [] stop h = ground arith

-- The stream of a DoQ response holds one message and nothing behind it: where `readDNSFrame` and
-- the test behind it accept, the reader is at the end of the stream.
pub receive_response-IsOnly :
    (r : Reader) (response : Bytes) → receive_response r ≡ ok response → IsOnly r response
unfolding receive_response
receive_response-IsOnly r response h = elim (Fallible-cases (read_dns_frame r)) [
  | inr (e, q) ↦ absurd (err-ne-ok _ _ (rw (q, receive_response) at h))
  | inl ((m, left), q) ↦
      let (same, ended, at_end) =
        trailing-ended m response left.bytes left.stop (rw (q, receive_response) at h) in
      record { left = left; read = q ∙ ap (λ x. ok (x, left)) same; ended = ended; at_end = at_end }
]
