-- ===== src/Transport/Dial/Laws.antt =====
-- `dialTCP`: what is sent before there is a tunnel.
use encrypted_dns_skill.Base.{
  ℕ, List, [], ◌∷◌, Option, none, some, ◌≡◌, ◌≢◌, ap, ◌∙◌, inl, inr, arith, All, Bool-cases,
}
use encrypted_dns_skill.Errors.{Fallible, ok, err}
use encrypted_dns_skill.Errors.Laws.{Fallible-cases, err-ne-ok}
use encrypted_dns_skill.Frame.{read_connect_response}
use encrypted_dns_skill.Platform.{Platform, Url}
use encrypted_dns_skill.Text.{Text, Bytes, codes, text_eq}
use encrypted_dns_skill.Text.Equality.{text_eq_sound, text_eq_complete}
use encrypted_dns_skill.Transport.{Event, IsSilent, tcp_connect, proxy_handshake, connect_request}
use encrypted_dns_skill.Transport.Dial.{
  Sockets, proxy_address, authorization, check_status, close_on_error, await_tunnel, request_tunnel,
  secure_tunnel, open_tunnel, proxy_config, dial_tcp,
}

close-IsSilent : (m : Fallible (Unit {0})) → All IsSilent (close_on_error m)
unfolding close_on_error
close-IsSilent (ok u) = tt
close-IsSilent (err e) = (tt, tt)

module _ (S : Sockets) where
  secure-IsSilent : (target : Text) (proxy : Url) → All IsSilent (secure_tunnel S target proxy).1
  unfolding secure_tunnel request_tunnel
  secure-IsSilent target proxy = elim (Bool-cases (text_eq proxy.scheme (codes "https"))) [
    | inr q ↦ rw (q, secure_tunnel) (tt, close-IsSilent _)
    | inl q ↦ elim (Fallible-cases (S.proxy_tls (proxy_config proxy))) [
      | inr (e, k) ↦ rw (q, secure_tunnel, k) (tt, (tt, tt))
      | inl (u, k) ↦ rw (q, secure_tunnel, k) (tt, (tt, close-IsSilent _))
    ]
  ]

  open-IsSilent : (target : Text) (proxy : Url) → All IsSilent (open_tunnel S target proxy).1
  unfolding open_tunnel
  open-IsSilent target proxy = elim (Fallible-cases S.proxy_deadline) [
    | inr (e, k) ↦ rw (k, open_tunnel) (tt, tt)
    | inl (u, k) ↦ rw (k, open_tunnel) (secure-IsSilent target proxy)
  ]

  pub dial_tcp-IsSilent :
      (P : Platform) (target : Text) (proxy : Option Url)
      → All IsSilent (dial_tcp S P target proxy).1
  unfolding dial_tcp
  dial_tcp-IsSilent P target none = elim (Fallible-cases (S.dial target)) [
    | inr (e, k) ↦ rw (k, dial_tcp) tt
    | inl (u, k) ↦ rw (k, dial_tcp) (tt, tt)
  ]
  dial_tcp-IsSilent P target (some proxy) = elim (Fallible-cases (S.dial (proxy_address P proxy))) [
    | inr (e, k) ↦ rw (k, dial_tcp) tt
    | inl (u, k) ↦ rw (k, dial_tcp) (tt, open-IsSilent target proxy)
  ]

-- The tunnel was asked for, and the proxy agreed.
pub record IsOpen (S : Sockets) (target : Text) (proxy : Url) : Type 0 where
  pub header : Bytes
  pub rest : Bytes
  pub requested : S.write_request target (authorization proxy.user) ≡ ok tt
  pub answered : read_connect_response S.answer ≡ ok (header, rest)
  pub agreed : S.status_of header ≡ ok 200

-- The calls that open a tunnel, in their order: with a proxy of the scheme `https`, a handshake
-- with it that succeeded stands before the request, which may hold credentials.
pub data IsTunnel (S : Sockets) (P : Platform) (target : Text) (proxy : Url)
    : List Event → Type 0 where
  plain :
      proxy.scheme ≢ codes "https"
      → IsTunnel S P target proxy (
          tcp_connect (proxy_address P proxy)
          ∷ connect_request target (authorization proxy.user)
          ∷ [])
  secured :
      proxy.scheme ≡ codes "https"
      → S.proxy_tls (proxy_config proxy) ≡ ok tt
      → IsTunnel S P target proxy (
          tcp_connect (proxy_address P proxy)
          ∷ proxy_handshake proxy.hostname
          ∷ connect_request target (authorization proxy.user)
          ∷ [])

check_status-eq-ok : (n : ℕ) {u : Unit {0}} → check_status n ≡ ok u → n ≡ 200
unfolding check_status
check_status-eq-ok n h = ground arith

module _ (S : Sockets) where
  await-IsOpen :
      (target : Text) (proxy : Url) {u : Unit {0}}
      → S.write_request target (authorization proxy.user) ≡ ok tt
      → await_tunnel S ≡ ok u
      → IsOpen S target proxy
  unfolding await_tunnel check_status
  await-IsOpen target proxy q h = elim (Fallible-cases (read_connect_response S.answer)) [
    | inr (e, k) ↦ absurd (err-ne-ok _ _ (rw (k, await_tunnel) at h))
    | inl ((header, rest), k) ↦ elim (Fallible-cases (S.status_of header)) [
      | inr (e, l) ↦ absurd (err-ne-ok _ _ (rw (k, await_tunnel, l) at h))
      | inl (n, l) ↦ record {
        header = header;
        rest = rest;
        requested = q;
        answered = k;
        agreed = let m = rw (k, await_tunnel, l) at h in l ∙ ap ok (check_status-eq-ok n m);
      }
    ]
  ]

  request-IsOpen :
      (target : Text) (proxy : Url) {u : Unit {0}}
      → (request_tunnel S target proxy).0 ≡ ok u
      → IsOpen S target proxy
  unfolding request_tunnel
  request-IsOpen target proxy h =
      elim (Fallible-cases (S.write_request target (authorization proxy.user))) [
        | inr (e, k) ↦ absurd (err-ne-ok _ _ (rw (k, request_tunnel) at h))
        | inl (u, k) ↦ await-IsOpen target proxy k (rw (k, request_tunnel) at h)
      ]

  -- A tunnel that was opened is not closed.
  request_tunnel-events :
      (target : Text) (proxy : Url) {u : Unit {0}}
      → (request_tunnel S target proxy).0 ≡ ok u
      → (request_tunnel S target proxy).1 ≡ connect_request target (authorization proxy.user) ∷ []
  unfolding request_tunnel close_on_error
  request_tunnel-events target proxy h =
      ap (λ result. connect_request target (authorization proxy.user) ∷ close_on_error result) h

  secure-IsTunnel :
      (P : Platform) (target : Text) (proxy : Url) {u : Unit {0}}
      → (secure_tunnel S target proxy).0 ≡ ok u
      → IsOpen S target proxy
        × IsTunnel S P target proxy
            (tcp_connect (proxy_address P proxy) ∷ (secure_tunnel S target proxy).1)
  unfolding secure_tunnel
  secure-IsTunnel P target proxy h = elim (Bool-cases (text_eq proxy.scheme (codes "https"))) [
    | inr q ↦ (
      request-IsOpen target proxy (rw (q, secure_tunnel) at h),
      rw (q, secure_tunnel, request_tunnel-events target proxy (rw (q, secure_tunnel) at h))
          (plain (λ e. ground (arith, text_eq_complete _ _ e))),
    )
    | inl q ↦ elim (Fallible-cases (S.proxy_tls (proxy_config proxy))) [
      | inr (e, k) ↦ absurd (err-ne-ok _ _ (rw (q, secure_tunnel, k) at h))
      | inl (v, k) ↦ (
        request-IsOpen target proxy (rw (q, secure_tunnel, k) at h),
        rw (q, secure_tunnel, k, request_tunnel-events target proxy (rw (q, secure_tunnel, k) at h))
            (secured (text_eq_sound _ _ q) k),
      )
    ]
  ]

  open_tunnel-ok :
      (target : Text) (proxy : Url) {u : Unit {0}}
      → (open_tunnel S target proxy).0 ≡ ok u
      → open_tunnel S target proxy ≡ secure_tunnel S target proxy
  unfolding open_tunnel
  open_tunnel-ok target proxy h = elim (Fallible-cases S.proxy_deadline) [
    | inr (e, l) ↦ absurd (err-ne-ok _ _ (rw (l, open_tunnel) at h))
    | inl (v, l) ↦ simp (l, open_tunnel)
  ]

  -- Where `dialTCP` succeeds over a proxy, it has connected to the proxy alone, with a handshake
  -- that succeeded if the proxy's scheme is `https`, before it sent the request for the target,
  -- which is all that may hold the credentials; and the proxy has answered with the status 200.
  pub dial_tcp-IsTunnel :
      (P : Platform) (target : Text) (proxy : Url)
      → (dial_tcp S P target (some proxy)).0 ≡ ok tt
      → IsOpen S target proxy × IsTunnel S P target proxy (dial_tcp S P target (some proxy)).1
  unfolding dial_tcp
  dial_tcp-IsTunnel P target proxy h = elim (Fallible-cases (S.dial (proxy_address P proxy))) [
    | inr (e, k) ↦ absurd (err-ne-ok _ _ (rw (k, dial_tcp) at h))
    | inl (u, k) ↦
        let opened = open_tunnel-ok target proxy (rw (k, dial_tcp) at h) in
        rw (k, dial_tcp, opened) (secure-IsTunnel P target proxy (rw (k, dial_tcp, opened) at h))
  ]
