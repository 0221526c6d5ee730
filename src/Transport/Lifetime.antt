-- ===== src/Transport/Lifetime.antt =====
-- The connections of TCP that `dialTCP` and `exchangeDoT` make: each is used while it is open, and
-- closed.
use encrypted_dns_skill.Base.{
  false, true, not, ◌&&◌, Bool, List, [], ◌∷◌, ◌++◌, Option, none, some, inl, inr, Bool-cases, ◌==◌,
}
use encrypted_dns_skill.Errors.{Fallible, ok, err, is_ok}
use encrypted_dns_skill.Errors.Laws.{Fallible-cases}
use encrypted_dns_skill.Model.{TransportInfo}
use encrypted_dns_skill.Platform.{Platform, Url}
use encrypted_dns_skill.Provider.{Provider}
use encrypted_dns_skill.Proxy.{resolve_proxy}
use encrypted_dns_skill.Text.{Text, Bytes, codes, text_eq, is_empty}
use encrypted_dns_skill.Transport.{
  Event, tcp_connect, proxy_handshake, connect_request, tls_handshake, payload, tcp_close,
  events_of,
}
use encrypted_dns_skill.Transport.Dial.{
  Sockets, proxy_address, close_on_error, request_tunnel, secure_tunnel, open_tunnel, proxy_config,
  dial_tcp,
}
use encrypted_dns_skill.Transport.Dot.{
  DotNet, https_url, dot_config, converse, check_state, authenticate, connect, exchange_dot,
}

-- What needs an open connection.
abbrev pub IsUse : Event → Type 0
IsUse (proxy_handshake name) = Unit
IsUse (connect_request target credentials) = Unit
IsUse (tls_handshake name state) = Unit
IsUse (payload bytes) = Unit
IsUse event = ⊥

-- The calls on connections of TCP, from a moment at which one is open or none to another.
pub data IsUsed : Bool → List Event → Bool → Type 0 where
  done : (opened : Bool) → IsUsed opened [] opened
  connects :
      {events : List Event} {opened : Bool} (address : Text)
      → IsUsed true events opened
      → IsUsed false (tcp_connect address ∷ events) opened
  closes :
      {events : List Event} {opened : Bool}
      → IsUsed false events opened
      → IsUsed true (tcp_close ∷ events) opened
  uses :
      {events : List Event} {opened : Bool} (event : Event)
      → IsUse event
      → IsUsed true events opened
      → IsUsed true (event ∷ events) opened

IsUsed-append :
    {first second third : Bool} {events events' : List Event}
    → IsUsed first events second
    → IsUsed second events' third
    → IsUsed first (events ++ events') third
IsUsed-append (done opened) k = k
IsUsed-append (connects address h) k = connects address (IsUsed-append h k)
IsUsed-append (closes h) k = closes (IsUsed-append h k)
IsUsed-append (uses event used h) k = uses event used (IsUsed-append h k)

close_on_error-IsUsed : (m : Fallible (Unit {0})) → IsUsed true (close_on_error m) (is_ok m)
unfolding close_on_error
close_on_error-IsUsed (ok u) = done true
close_on_error-IsUsed (err e) = closes (done false)

module _ (S : Sockets) where
  request_tunnel-IsUsed :
      (target : Text) (proxy : Url)
      → IsUsed true (request_tunnel S target proxy).1 (is_ok (request_tunnel S target proxy).0)
  unfolding request_tunnel
  request_tunnel-IsUsed target proxy = uses _ tt (close_on_error-IsUsed _)

  secure_tunnel-IsUsed :
      (target : Text) (proxy : Url)
      → IsUsed true (secure_tunnel S target proxy).1 (is_ok (secure_tunnel S target proxy).0)
  unfolding secure_tunnel
  secure_tunnel-IsUsed target proxy = elim (Bool-cases (text_eq proxy.scheme (codes "https"))) [
    | inr q ↦ rw (q, secure_tunnel) (request_tunnel-IsUsed target proxy)
    | inl q ↦ elim (Fallible-cases (S.proxy_tls (proxy_config proxy))) [
      | inr (e, k) ↦ rw (q, secure_tunnel, k) (uses _ tt (closes (done false)))
      | inl (u, k) ↦ rw (q, secure_tunnel, k) (uses _ tt (request_tunnel-IsUsed target proxy))
    ]
  ]

  open_tunnel-IsUsed :
      (target : Text) (proxy : Url)
      → IsUsed true (open_tunnel S target proxy).1 (is_ok (open_tunnel S target proxy).0)
  unfolding open_tunnel
  open_tunnel-IsUsed target proxy = elim (Fallible-cases S.proxy_deadline) [
    | inr (e, k) ↦ rw (k, open_tunnel) (closes (done false))
    | inl (u, k) ↦ rw (k, open_tunnel) (secure_tunnel-IsUsed target proxy)
  ]

  -- `dialTCP` leaves a connection open where it succeeds and none where it fails.
  dial_tcp-IsUsed :
      (P : Platform) (target : Text) (proxy : Option Url)
      → IsUsed false (dial_tcp S P target proxy).1 (is_ok (dial_tcp S P target proxy).0)
  unfolding dial_tcp
  dial_tcp-IsUsed P target none = elim (Fallible-cases (S.dial target)) [
    | inr (e, k) ↦ rw (k, dial_tcp) (done false)
    | inl (u, k) ↦ rw (k, dial_tcp) (connects _ (done true))
  ]
  dial_tcp-IsUsed P target (some proxy) = elim (Fallible-cases (S.dial (proxy_address P proxy))) [
    | inr (e, k) ↦ rw (k, dial_tcp) (done false)
    | inl (u, k) ↦ rw (k, dial_tcp) (connects _ (open_tunnel-IsUsed target proxy))
  ]

module _ (N : DotNet) where
  -- What follows on the open connection only uses it.
  authenticate-IsUsed :
      (name : Text) (wire : Bytes) (info : TransportInfo)
      → IsUsed true (events_of (authenticate N name wire info)) true
  unfolding authenticate check_state converse
  authenticate-IsUsed name wire info = elim (Fallible-cases (N.handshake (dot_config name))) [
    | inr (e, q) ↦ rw (q, authenticate) (done true)
    | inl (state, q) ↦ elim (Bool-cases (state.chains == 0)) [
      | inl t ↦ rw (q, authenticate, check_state, t) (uses _ tt (done true))
      | inr t ↦
          elim (Bool-cases
            (not (is_empty state.protocol) && not (text_eq state.protocol (codes "dot")))) [
              | inl u ↦ rw (q, authenticate, check_state, t, u) (uses _ tt (done true))
              | inr u ↦ rw (q, authenticate, check_state, t, u) (uses _ tt (uses _ tt (done true)))
            ]
    ]
  ]

  connect-IsClosed :
      (P : Platform) (provider : Provider) (wire : Bytes) (proxy : Option Url)
      (info : TransportInfo)
      → IsUsed false (events_of (connect N P provider wire proxy info)) false
  unfolding connect
  connect-IsClosed P provider wire proxy info =
      let dialled = dial_tcp-IsUsed N.sockets P provider.dot_addr proxy in
      let last = closes (done false) in
      elim (Fallible-cases (dial_tcp N.sockets P provider.dot_addr proxy).0) [
        | inr (e, q) ↦ rw (q, connect) (rw q at dialled)
        | inl (u, q) ↦ elim (Fallible-cases N.deadline) [
          | inr (e, k) ↦ rw (q, connect, k) (IsUsed-append (rw q at dialled) last)
          | inl (v, k) ↦
              rw (q, connect, k)
                (IsUsed-append (rw q at dialled)
                  (IsUsed-append (authenticate-IsUsed provider.dot_name wire info) last))
        ]
      ]

  -- Whatever the network does, an exchange over DoT leaves no connection of TCP open, on success
  -- and on every error, at a proxy or at the server; it closes no connection twice; and all that
  -- it does on a connection, it does while the connection is open.
  pub exchange_dot-IsClosed :
      (P : Platform) (provider : Provider) (wire : Bytes) (explicit : Text)
      → IsUsed false (events_of (exchange_dot N P provider wire explicit)) false
  unfolding exchange_dot
  exchange_dot-IsClosed P provider wire explicit =
      elim (Fallible-cases
        (resolve_proxy P N.from_environment (https_url provider.dot_addr) explicit)) [
          | inr (e, q) ↦ rw (q, exchange_dot) (done false)
          | inl (proxy, q) ↦ rw (q, exchange_dot) (connect-IsClosed P provider wire proxy _)
        ]
