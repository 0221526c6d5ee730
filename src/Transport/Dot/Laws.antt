-- ===== src/Transport/Dot/Laws.antt =====
-- `exchangeDoT`: no query before the server is authenticated, whatever the network does.
use encrypted_dns_skill.Base.{
  false, not, ◌&&◌, List, [], ◌∷◌, ◌++◌, Option, ◌≡◌, ◌≢◌, ◌⊎◌, refl, sym, ap, inl, inr, arith, All,
  All-append, append_assoc, ◌∙◌, Bool-cases, Option-cases, ◌==◌,
}
use encrypted_dns_skill.Errors.Laws.{Fallible-cases}
use encrypted_dns_skill.Frame.{Reader, Writer, write_dns_frame, read_dns_frame, frame_of}
use encrypted_dns_skill.Frame.Writing.{write_dns_frame-IsWritten}
use encrypted_dns_skill.Model.{TransportInfo}
use encrypted_dns_skill.Platform.{Platform, Url}
use encrypted_dns_skill.Provider.{Provider}
use encrypted_dns_skill.Proxy.{resolve_proxy}
use encrypted_dns_skill.Text.{Text, Bytes, codes, text_eq, is_empty}
use encrypted_dns_skill.Text.Equality.{text_eq_sound}
use encrypted_dns_skill.Transport.{
  Event, TlsState, IsSilent, IsCareful, silent, asked, events_of, tcp_close,
}
use encrypted_dns_skill.Transport.Dial.{dial_tcp}
use encrypted_dns_skill.Transport.Dial.Laws.{dial_tcp-IsSilent}
use encrypted_dns_skill.Transport.Dot.{
  DotNet, exchange_tcp_frame, https_url, dot_config, converse, check_state, authenticate, connect,
  exchange_dot,
}

-- A verified chain of certificates, and the protocol `dot` or none.
abbrev pub IsDotState : TlsState → Type 0
IsDotState state = (state.chains ≢ 0) × ((state.protocol ≡ []) ⊎ (state.protocol ≡ codes "dot"))

pub dot_protocol :
    (t : Text)
    → (not (is_empty t) && not (text_eq t (codes "dot"))) ≡ false
    → (t ≡ []) ⊎ (t ≡ codes "dot")
dot_protocol [] h = inl refl
dot_protocol (c ∷ t) h = inr (text_eq_sound (c ∷ t) (codes "dot") (ground arith))

-- What was written is a front of the frame.
pub written_front :
    (w : Writer) (wire : Bytes)
    → (unsent : Bytes) × (frame_of wire ≡ (write_dns_frame w wire).sent ++ unsent)
written_front w wire = elim (write_dns_frame-IsWritten w wire) [
  | inl (low, high, written) ↦ (written.unsent, written.split)
  | inr (bad, nothing, e) ↦ (frame_of wire, rw nothing refl)
]

exchange_tcp_frame-sent :
    (w : Writer) (r : Reader) (wire : Bytes)
    → (exchange_tcp_frame w r wire).1 ≡ (write_dns_frame w wire).sent
unfolding exchange_tcp_frame
exchange_tcp_frame-sent w r wire = elim (Option-cases (write_dns_frame w wire).error) [
  | inr (e, q) ↦ rw (q, exchange_tcp_frame)
  | inl q ↦ elim (Fallible-cases (read_dns_frame r)) [
    | inr (e, k) ↦ rw (q, k, exchange_tcp_frame)
    | inl (m, k) ↦ rw (q, k, exchange_tcp_frame)
  ]
]

-- What stands behind a silent front.
Careful-before :
    {name : Text} {good : TlsState → Type 0} {frame : Bytes} {events : List Event}
    (before : List Event)
    → All IsSilent before
    → IsCareful name good frame events
    → IsCareful name good frame (before ++ events)
Careful-before before h (silent k) = silent (All-append IsSilent before _ h k)
Careful-before before h (asked front state sent unsent after k calm good split e) =
    asked (before ++ front) state sent unsent after (All-append IsSilent before front h k) calm good
      split (ap (◌++◌ before) e ∙ sym (append_assoc before front _))

-- What stands in front of a silent end.
pub Careful-after :
    {name : Text} {good : TlsState → Type 0} {frame : Bytes} {events : List Event}
    (end : List Event)
    → All IsSilent end
    → IsCareful name good frame events
    → IsCareful name good frame (events ++ end)
Careful-after end h (silent k) = silent (All-append IsSilent _ end k h)
Careful-after end h (asked front state sent unsent after k calm good split e) =
    asked front state sent unsent (after ++ end) k (All-append IsSilent after end calm h) good split
      (ap (λ x. x ++ end) e ∙ append_assoc front _ end)

module _ (N : DotNet) where
  authenticate-IsCareful :
      (name : Text) (wire : Bytes) (info : TransportInfo)
      → IsCareful name IsDotState (frame_of wire) (events_of (authenticate N name wire info))
  unfolding authenticate check_state converse
  authenticate-IsCareful name wire info = elim (Fallible-cases (N.handshake (dot_config name))) [
    | inr (e, q) ↦ rw (q, authenticate) (silent tt)
    | inl (state, q) ↦ elim (Bool-cases (state.chains == 0)) [
      | inl t ↦ rw (q, authenticate, check_state, t) (silent (tt, tt))
      | inr t ↦
          elim (Bool-cases
            (not (is_empty state.protocol) && not (text_eq state.protocol (codes "dot")))) [
              | inl u ↦ rw (q, authenticate, check_state, t, u) (silent (tt, tt))
              | inr u ↦
                  let (unsent, split) = written_front N.writer wire in
                  rw (q, authenticate, check_state, t, u)
                    (asked [] state _ unsent [] tt tt (ground arith, dot_protocol state.protocol u)
                      (rw (exchange_tcp_frame-sent N.writer N.reader wire) split) refl)
            ]
    ]
  ]

  connect-IsCareful :
      (P : Platform) (provider : Provider) (wire : Bytes) (proxy : Option Url)
      (info : TransportInfo)
      → IsCareful provider.dot_name IsDotState
          (frame_of wire)
          (events_of (connect N P provider wire proxy info))
  unfolding connect
  connect-IsCareful P provider wire proxy info =
      let before = (dial_tcp N.sockets P provider.dot_addr proxy).1 in
      let calm = dial_tcp-IsSilent N.sockets P provider.dot_addr proxy in
      elim (Fallible-cases (dial_tcp N.sockets P provider.dot_addr proxy).0) [
        | inr (e, q) ↦ rw (q, connect) (silent calm)
        | inl (u, q) ↦ elim (Fallible-cases N.deadline) [
          | inr (e, k) ↦ rw (q, connect, k) (silent (All-append IsSilent before _ calm (tt, tt)))
          | inl (v, k) ↦
              rw (q, connect, k)
                (Careful-before before calm (
                  Careful-after (tcp_close ∷ []) (tt, tt)
                    (authenticate-IsCareful provider.dot_name wire info)))
        ]
      ]

  -- Whatever the network does, an exchange over DoT writes nothing of the query unless a
  -- handshake for the provider's authentication name has succeeded right before, with a verified
  -- chain of certificates and the protocol `dot` or none negotiated; what it writes then is a
  -- front of the query's frame. This holds of a connection through a proxy as well.
  pub exchange_dot-IsCareful :
      (P : Platform) (provider : Provider) (wire : Bytes) (explicit : Text)
      → IsCareful provider.dot_name IsDotState
          (frame_of wire)
          (events_of (exchange_dot N P provider wire explicit))
  unfolding exchange_dot
  exchange_dot-IsCareful P provider wire explicit =
      elim (Fallible-cases
        (resolve_proxy P N.from_environment (https_url provider.dot_addr) explicit)) [
          | inr (e, q) ↦ rw (q, exchange_dot) (silent tt)
          | inl (proxy, q) ↦ rw (q, exchange_dot) (connect-IsCareful P provider wire proxy _)
        ]
