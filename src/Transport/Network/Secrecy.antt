-- ===== src/Transport/Network/Secrecy.antt =====
-- The result of a query tells nothing of the credentials of its explicit proxy.
use encrypted_dns_skill.Base.{
  false, Option, some, ◌≡◌, refl, ap, inl, inr, Bool-cases, Option-cases, ℕ,
}
use encrypted_dns_skill.Capability.{proxy_supported}
use encrypted_dns_skill.Dns.Query.{Built, Random, build_query}
use encrypted_dns_skill.Errors.{Fallible, ok, ◌>>=◌}
use encrypted_dns_skill.Errors.Laws.{Fallible-cases}
use encrypted_dns_skill.Model.{QueryOptions, Result}
use encrypted_dns_skill.Platform.{Platform, Url}
use encrypted_dns_skill.Provider.{Provider, endpoint, find_provider}
use encrypted_dns_skill.Proxy.{validate_proxy_url, resolve_proxy, proxy_display_url}
use encrypted_dns_skill.Query.{
  Exchanged, exchange_protocol, initial_result, receive, send, with_provider, with_query,
  query_with_exchange, sent_wire,
}
use encrypted_dns_skill.Text.{Text, Bytes, codes, text_eq, is_empty}
use encrypted_dns_skill.Transport.Doh.{doh_transport, doh_client, exchange_doh}
use encrypted_dns_skill.Transport.Https.{
  HttpNet, Client, Request, over_tls, request_of, perform, exchange_https,
}
use encrypted_dns_skill.Transport.Network.{Network, transports, network_exchange}
use encrypted_dns_skill.Transport.Network.Credentials.{
  Credentials, with_user, IsSameUrl, IsSameProxy, refused, accepted, IsSameChoice, declined, chosen,
  IsBlindProxy, exchange_dot-IsSameAnswer, resolve_proxy-IsSameChoice, parse_proxy_url-IsSameProxy,
}

-- An HTTP client that gets the same over a proxy with the one and with the other credentials.
abbrev pub IsBlindClient : Credentials → Credentials → HttpNet → Type 0
IsBlindClient a b N =
    (u : Url) (redirect : Url → ℕ → Fallible (Unit {0})) (request : Request)
    → N.send_request
        (record {
          transport = over_tls (doh_transport (some (with_user u a)));
          redirect = redirect;
        })
        request
      ≡ N.send_request
          (record {
            transport = over_tls (doh_transport (some (with_user u b)));
            redirect = redirect;
          })
          request

module _ (N : HttpNet) (P : Platform) where
  -- An exchange over HTTPS depends on the client by the requests that it sends.
  exchange_https-same :
      (client client' : Client) (url : Text) (wire : Bytes) (method protocol : Text)
      → ((request : Request) → N.send_request client request ≡ N.send_request client' request)
      → exchange_https N P client url wire method protocol
        ≡ exchange_https N P client' url wire method protocol
  unfolding exchange_https perform
  exchange_https-same client client' url wire method protocol same =
      elim (Fallible-cases (request_of N P url wire method)) [
        | inr (e, q) ↦ simp (q, exchange_https)
        | inl (request, q) ↦ elim (Fallible-cases (N.new_request request)) [
          | inr (e, k) ↦ simp (q, k, exchange_https, perform)
          | inl (v, k) ↦ simp (q, k, exchange_https, perform, same request)
        ]
      ]

module _ (P : Platform) (a b : Credentials) (N : HttpNet) (blind : IsBlindClient a b N) where
  resolved-same :
      (provider : Provider) (wire : Bytes) (method x y : Text) (origin : Url)
      {m m' : Fallible (Option Url)}
      → P.parse_url provider.doh_url ≡ some origin
      → resolve_proxy P N.from_environment origin x ≡ m
      → resolve_proxy P N.from_environment origin y ≡ m'
      → IsSameChoice a b m m'
      → exchange_doh N P provider wire method x ≡ exchange_doh N P provider wire method y
  unfolding exchange_doh doh_client proxy_display_url
  resolved-same provider wire method x y origin o q q' (declined e) =
      simp (o, q, q', exchange_doh, doh_client)
  resolved-same provider wire method x y origin o q q' (chosen u) =
      simp (o, q, q', exchange_doh, doh_client)
        (ap (λ r. (r.0, record r.1 { proxy = proxy_display_url P (some (with_user u a)) }))
          (exchange_https-same N P _ _ provider.doh_url wire method (codes "doh")
            (λ request. blind u _ request)))

  exchange_doh-same :
      (provider : Provider) (wire : Bytes) (method x y : Text)
      → is_empty x ≡ false
      → is_empty y ≡ false
      → IsSameUrl a b (P.parse_url x) (P.parse_url y)
      → exchange_doh N P provider wire method x ≡ exchange_doh N P provider wire method y
  unfolding exchange_doh doh_client
  exchange_doh-same provider wire method x y hx hy h =
      elim (Option-cases (P.parse_url provider.doh_url)) [
        | inl o ↦ simp (o, exchange_doh, doh_client)
        | inr (origin, o) ↦
            resolved-same provider wire method x y origin o refl refl
              (resolve_proxy-IsSameChoice P a b N.from_environment origin x y hx hy h)
      ]

-- What is outside answers the two credentials alike.
pub record IsBlind {M : Type 0} (a b : Credentials) (N : Network M) : Type 0 where
  pub doh : IsBlindClient a b N.doh
  pub dot : IsBlindProxy a b N.dot.sockets

abbrev over_proxy : QueryOptions → Text → QueryOptions
over_proxy o proxy = record o { proxy = proxy }

module _ {M : Type 0} (P : Platform) (N : Network M) (a b : Credentials) (blind : IsBlind a b N)
    (x y : Text) (hx : is_empty x ≡ false) (hy : is_empty y ≡ false)
    (h : IsSameUrl a b (P.parse_url x) (P.parse_url y)) where
  network_exchange-same :
      (provider : Provider) (wire : Bytes) (o : QueryOptions)
      → network_exchange P N provider wire (over_proxy o x)
        ≡ network_exchange P N provider wire (over_proxy o y)
  unfolding network_exchange exchange_protocol transports
  network_exchange-same provider wire o = elim (Bool-cases (text_eq o.protocol (codes "doh"))) [
    | inl q1 ↦
        rw (q1, exchange_doh-same P a b N.doh blind.doh provider wire o.method x y hx hy h) refl
    | inr q1 ↦ elim (Bool-cases (text_eq o.protocol (codes "dot"))) [
      | inr q2 ↦ rw (q1, q2) refl
      | inl q2 ↦
          let (response, info) =
            exchange_dot-IsSameAnswer P a b N.dot blind.dot provider wire x y hx hy h in
          rw (q1, q2, response, info) refl
    ]
  ]

  validated :
      {m m' : Fallible Url}
      → IsSameProxy a b m m'
      → (m >>= λ _. ok (tt {0})) ≡ (m' >>= λ _. ok (tt {0}))
  validated (refused e) = refl
  validated (accepted u) = refl

  validate_proxy_url-same : validate_proxy_url P x ≡ validate_proxy_url P y
  unfolding validate_proxy_url
  validate_proxy_url-same = rw (hx, hy) (validated (parse_proxy_url-IsSameProxy P a b x y h))

  receive-same :
      (o : QueryOptions) (built : Built) (exchanged : Exchanged) (r : Result)
      → receive P (over_proxy o x) built exchanged r ≡ receive P (over_proxy o y) built exchanged r
  unfolding receive
  receive-same o built exchanged r = refl

  send-same :
      (o : QueryOptions) (built : Built) (provider : Provider) (r : Result)
      → send P (network_exchange P N) (over_proxy o x) built provider r
        ≡ send P (network_exchange P N) (over_proxy o y) built provider r
  unfolding send
  send-same o built provider r = elim (Fallible-cases (endpoint P provider o.protocol)) [
    | inr (e, q) ↦ simp (q, send)
    | inl (address, q) ↦
        simp (q, send, network_exchange-same provider (sent_wire o.protocol built) o)
          (receive-same o built _ _)
  ]

  with_provider-same :
      (o : QueryOptions) (built : Built) (provider : Provider) (r : Result)
      → with_provider P (network_exchange P N) (over_proxy o x) built provider r
        ≡ with_provider P (network_exchange P N) (over_proxy o y) built provider r
  unfolding with_provider
  with_provider-same o built provider r = elim (Fallible-cases (validate_proxy_url P y)) [
    | inr (e, q) ↦ simp (validate_proxy_url-same, q, with_provider)
    | inl (u, q) ↦ elim (Bool-cases (proxy_supported o.protocol)) [
      | inr t ↦ simp (validate_proxy_url-same, q, with_provider, hx, hy, t)
      | inl t ↦
          simp (validate_proxy_url-same, q, with_provider, hx, hy, t) (send-same o built provider r)
    ]
  ]

  -- Two texts for an explicit proxy, neither of them empty, that are no URLs, or URLs that differ
  -- in their credentials alone, give one and the same result of a query, the errors included,
  -- where the proxy and the HTTP client answer the two alike: the result shows nothing of the
  -- credentials.
  pub query_secret :
      (random : Random) (o : QueryOptions)
      → query_with_exchange P random (record o { proxy = x }) (network_exchange P N)
        ≡ query_with_exchange P random (record o { proxy = y }) (network_exchange P N)
  unfolding query_with_exchange with_query initial_result
  query_secret random o = elim (Fallible-cases (build_query P random o.name o.record_type)) [
    | inr (e, q) ↦ simp (q, query_with_exchange, initial_result)
    | inl (built, q) ↦ elim (Fallible-cases (find_provider P o.provider)) [
      | inr (e, k) ↦ simp (q, k, query_with_exchange, with_query, initial_result)
      | inl (provider, k) ↦
          simp (q, k, query_with_exchange, with_query) (with_provider-same o built provider _)
    ]
  ]
