-- ===== src/Transport/Network/Credentials.antt =====
-- The credentials of an explicit proxy: what a result could tell of them.
use encrypted_dns_skill.Base.{
  false, not, ◌&&◌, ◌||◌, List, Option, none, some, ◌≡◌, refl, sym, ap, ◌∙◌, inl, inr, Bool-cases,
}
use encrypted_dns_skill.Errors.{Error, Fallible, ok, err, ◌>>=◌, write_connect}
use encrypted_dns_skill.Errors.Laws.{Fallible-cases}
use encrypted_dns_skill.Model.{TransportInfo}
use encrypted_dns_skill.Platform.{Platform, Url, to_lower}
use encrypted_dns_skill.Provider.{Provider}
use encrypted_dns_skill.Proxy.{
  check_proxy, accept_url, parse_proxy_url, resolve_proxy, proxy_display_url,
}
use encrypted_dns_skill.Text.{Text, Bytes, codes, text_eq, is_empty}
use encrypted_dns_skill.Transport.{Event, response_of, info_after}
use encrypted_dns_skill.Transport.Dial.{
  Sockets, wrap_error, proxy_address, authorization, await_tunnel, request_tunnel, secure_tunnel,
  open_tunnel, proxy_config, dial_tcp,
}
use encrypted_dns_skill.Transport.Dot.{DotNet, https_url, connect, exchange_dot}

abbrev pub Credentials : Type 0
Credentials = Option (Text × Text)

abbrev pub with_user : Url → Credentials → Url
with_user u credentials = record u { user = credentials }

-- Two outcomes of `url.Parse` that differ in the credentials alone.
pub data IsSameUrl (a b : Credentials) : Option Url → Option Url → Type 0 where
  neither : IsSameUrl a b none none
  both : (u : Url) → IsSameUrl a b (some (with_user u a)) (some (with_user u b))

-- Two proxies that are refused alike, or differ in the credentials alone.
pub data IsSameProxy (a b : Credentials) : Fallible Url → Fallible Url → Type 0 where
  refused : (e : Error) → IsSameProxy a b (err e) (err e)
  accepted : (u : Url) → IsSameProxy a b (ok (with_user u a)) (ok (with_user u b))

-- The same of what `resolveProxy` gives.
pub data IsSameChoice (a b : Credentials)
    : Fallible (Option Url) → Fallible (Option Url) → Type 0 where
  declined : (e : Error) → IsSameChoice a b (err e) (err e)
  chosen : (u : Url) → IsSameChoice a b (ok (some (with_user u a))) (ok (some (with_user u b)))

-- Two exchanges that return the same.
abbrev pub IsSameAnswer :
    Fallible Bytes × TransportInfo × List Event
    → Fallible Bytes × TransportInfo × List Event
    → Type 0
IsSameAnswer x y = (response_of x ≡ response_of y) × (info_after x ≡ info_after y)

module _ (P : Platform) (a b : Credentials) where
  check_proxy-IsSameProxy :
      (u : Url) → IsSameProxy a b (check_proxy (with_user u a)) (check_proxy (with_user u b))
  unfolding check_proxy
  check_proxy-IsSameProxy u =
      elim (Bool-cases
        (not (text_eq u.scheme (codes "http")) && not (text_eq u.scheme (codes "https")))) [
          | inl q ↦ rw q (refused _)
          | inr q ↦
              elim (Bool-cases (
                not (is_empty u.path) && not (text_eq u.path (codes "/"))
                || not (is_empty u.raw_query)
                || not (is_empty u.fragment))) [
                  | inl t ↦ rw (q, t) (refused _)
                  | inr t ↦ rw (q, t) (accepted u)
                ]
        ]

  accept_url-IsSameProxy :
      {x y : Option Url} → IsSameUrl a b x y → IsSameProxy a b (accept_url P x) (accept_url P y)
  unfolding accept_url
  accept_url-IsSameProxy neither = refused _
  accept_url-IsSameProxy (both u) = elim (Bool-cases (is_empty u.host || is_empty u.hostname)) [
    | inl q ↦ rw q (refused _)
    | inr q ↦ rw q (check_proxy-IsSameProxy (record u { scheme = to_lower P u.scheme }))
  ]

  pub parse_proxy_url-IsSameProxy :
      (x y : Text)
      → IsSameUrl a b (P.parse_url x) (P.parse_url y)
      → IsSameProxy a b (parse_proxy_url P x) (parse_proxy_url P y)
  unfolding parse_proxy_url
  parse_proxy_url-IsSameProxy x y h = accept_url-IsSameProxy h

  choice :
      {m m' : Fallible Url}
      → IsSameProxy a b m m'
      → IsSameChoice a b (m >>= λ url. ok (some url)) (m' >>= λ url. ok (some url))
  choice (refused e) = declined e
  choice (accepted u) = chosen u

  pub resolve_proxy-IsSameChoice :
      (from_environment : Url → Fallible (Option Url)) (endpoint : Url) (x y : Text)
      → is_empty x ≡ false
      → is_empty y ≡ false
      → IsSameUrl a b (P.parse_url x) (P.parse_url y)
      → IsSameChoice a b
          (resolve_proxy P from_environment endpoint x)
          (resolve_proxy P from_environment endpoint y)
  unfolding resolve_proxy
  resolve_proxy-IsSameChoice from_environment endpoint x y hx hy h =
      rw (hx, hy) (choice (parse_proxy_url-IsSameProxy x y h))

-- A proxy that answers the two credentials alike.
abbrev pub IsBlindProxy : Credentials → Credentials → Sockets → Type 0
IsBlindProxy a b S =
    (target : Text)
    → S.write_request target (authorization a) ≡ S.write_request target (authorization b)

module _ (a b : Credentials) (S : Sockets) (blind : IsBlindProxy a b S) where
  request_tunnel-same :
      (target : Text) (u : Url)
      → (request_tunnel S target (with_user u a)).0 ≡ (request_tunnel S target (with_user u b)).0
  unfolding request_tunnel
  request_tunnel-same target u =
      ap (λ m. wrap_error write_connect m >>= λ _. await_tunnel S) (blind target)

  secure_tunnel-same :
      (target : Text) (u : Url)
      → (secure_tunnel S target (with_user u a)).0 ≡ (secure_tunnel S target (with_user u b)).0
  unfolding secure_tunnel proxy_config
  secure_tunnel-same target u = elim (Bool-cases (text_eq u.scheme (codes "https"))) [
    | inr q ↦ rw q (request_tunnel-same target u)
    | inl q ↦ elim (Fallible-cases (S.proxy_tls (proxy_config u))) [
      | inr (e, k) ↦ rw (q, k) refl
      | inl (v, k) ↦ rw (q, k) (request_tunnel-same target u)
    ]
  ]

  open_tunnel-same :
      (target : Text) (u : Url)
      → (open_tunnel S target (with_user u a)).0 ≡ (open_tunnel S target (with_user u b)).0
  unfolding open_tunnel
  open_tunnel-same target u = elim (Fallible-cases S.proxy_deadline) [
    | inr (e, k) ↦ simp (k, open_tunnel)
    | inl (v, k) ↦ simp (k, open_tunnel) (secure_tunnel-same target u)
  ]

  dial_tcp-same :
      (P : Platform) (target : Text) (u : Url)
      → (dial_tcp S P target (some (with_user u a))).0
        ≡ (dial_tcp S P target (some (with_user u b))).0
  unfolding dial_tcp proxy_address
  dial_tcp-same P target u = elim (Fallible-cases (S.dial (proxy_address P u))) [
    | inr (e, k) ↦ simp (k, dial_tcp, proxy_address)
    | inl (v, k) ↦ simp (k, dial_tcp, proxy_address) (open_tunnel-same target u)
  ]

module _ (P : Platform) (a b : Credentials) (N : DotNet) (blind : IsBlindProxy a b N.sockets) where
  connect-IsSameAnswer :
      (provider : Provider) (wire : Bytes) (u : Url) (info : TransportInfo)
      → IsSameAnswer
          (connect N P provider wire (some (with_user u a)) info)
          (connect N P provider wire (some (with_user u b)) info)
  unfolding connect
  connect-IsSameAnswer provider wire u info =
      let same = dial_tcp-same a b N.sockets blind P provider.dot_addr u in
      elim (Fallible-cases (dial_tcp N.sockets P provider.dot_addr (some (with_user u a))).0) [
        | inr (e, q) ↦ let q' = sym same ∙ q in (simp (q, q', connect), simp (q, q', connect))
        | inl (v, q) ↦
            let q' = sym same ∙ q in
            elim (Fallible-cases N.deadline) [
              | inr (e, k) ↦ (simp (q, q', k, connect), simp (q, q', k, connect))
              | inl (w, k) ↦ (simp (q, q', k, connect), simp (q, q', k, connect))
            ]
      ]

  resolved-IsSameAnswer :
      (provider : Provider) (wire : Bytes) (x y : Text) {m m' : Fallible (Option Url)}
      → resolve_proxy P N.from_environment (https_url provider.dot_addr) x ≡ m
      → resolve_proxy P N.from_environment (https_url provider.dot_addr) y ≡ m'
      → IsSameChoice a b m m'
      → IsSameAnswer (exchange_dot N P provider wire x) (exchange_dot N P provider wire y)
  unfolding exchange_dot proxy_display_url
  resolved-IsSameAnswer provider wire x y q q' (declined e) =
      (simp (q, q', exchange_dot), simp (q, q', exchange_dot))
  resolved-IsSameAnswer provider wire x y q q' (chosen u) =
      simp (q, q', exchange_dot) (connect-IsSameAnswer provider wire u _)

  pub exchange_dot-IsSameAnswer :
      (provider : Provider) (wire : Bytes) (x y : Text)
      → is_empty x ≡ false
      → is_empty y ≡ false
      → IsSameUrl a b (P.parse_url x) (P.parse_url y)
      → IsSameAnswer (exchange_dot N P provider wire x) (exchange_dot N P provider wire y)
  exchange_dot-IsSameAnswer provider wire x y hx hy h =
      resolved-IsSameAnswer provider wire x y refl refl (
        resolve_proxy-IsSameChoice P a b N.from_environment (https_url provider.dot_addr) x y hx hy
          h)
