-- ===== src/Query/Laws/Isolation.antt =====
-- What an exchange is given, and that refused options never reach it.
use encrypted_dns_skill.Base.{
  true, false, not, ◌&&◌, [], ◌≡◌, ◌⊎◌, refl, inl, inr, arith, Bool-cases,
}
use encrypted_dns_skill.Capability.{proxy_supported}
use encrypted_dns_skill.Dns.Query.{Random, Built, build_query}
use encrypted_dns_skill.Errors.{ok}
use encrypted_dns_skill.Errors.Laws.{Fallible-cases}
use encrypted_dns_skill.Model.{QueryOptions}
use encrypted_dns_skill.Platform.{Platform}
use encrypted_dns_skill.Provider.{Provider, endpoint, find_provider}
use encrypted_dns_skill.Proxy.{validate_proxy_url}
use encrypted_dns_skill.Query.{
  Exchange, send, with_provider, with_query, query_with_exchange, sent_wire,
}
use encrypted_dns_skill.Text.Equality.{is_empty_sound}
use encrypted_dns_skill.Text.{Text, Bytes, is_empty}

-- The call of an exchange that a query may make: its provider was found by name and has an
-- endpoint for the protocol, its proxy is valid and usable, and the wire is the built one, with
-- its ID cleared for DoH, DoH3 and DoQ.
pub record IsSendable (P : Platform) (random : Random) (o : QueryOptions) (p : Provider)
    (wire : Bytes) : Type 0 where
  pub built : Built
  pub address : Text
  pub built_ok : build_query P random o.name o.record_type ≡ ok built
  pub found : find_provider P o.provider ≡ ok p
  pub proxy_valid : validate_proxy_url P o.proxy ≡ ok tt
  pub proxy_usable : (o.proxy ≡ []) ⊎ (proxy_supported o.protocol ≡ true)
  pub addressed : endpoint P p o.protocol ≡ ok address
  pub is_sent : wire ≡ sent_wire o.protocol built

usable :
    (proxy protocol : Text)
    → (not (is_empty proxy) && not (proxy_supported protocol)) ≡ false
    → (proxy ≡ []) ⊎ (proxy_supported protocol ≡ true)
usable proxy protocol h = elim (Bool-cases (is_empty proxy)) [
  | inl t ↦ inl (is_empty_sound proxy t)
  | inr t ↦ inr (ground arith)
]

module _ (P : Platform) (random : Random) (o : QueryOptions) (ex ex' : Exchange)
    (agree : (p : Provider) (wire : Bytes)
      → IsSendable P random o p wire
      → ex p wire o ≡ ex' p wire o) where
  -- The result of a query depends on its exchange only by its calls with a provider that was found
  -- and has an endpoint for the protocol, a valid proxy that the protocol can use, and the built
  -- wire, its ID cleared for DoH, DoH3 and DoQ: two exchanges that agree on these calls give the
  -- same result.
  pub query_isolated : query_with_exchange P random o ex ≡ query_with_exchange P random o ex'
  unfolding query_with_exchange with_query with_provider send
  query_isolated = elim (Fallible-cases (build_query P random o.name o.record_type)) [
    | inr (e, q1) ↦ rw (q1, query_with_exchange)
    | inl (b, q1) ↦ elim (Fallible-cases (find_provider P o.provider)) [
      | inr (e, q2) ↦ rw (q1, q2, query_with_exchange, with_query)
      | inl (p, q2) ↦ elim (Fallible-cases (validate_proxy_url P o.proxy)) [
        | inr (e, q3) ↦ rw (q1, q2, q3, query_with_exchange, with_query, with_provider)
        | inl (u, q3) ↦
            elim (Bool-cases (not (is_empty o.proxy) && not (proxy_supported o.protocol))) [
              | inl t ↦ rw (q1, q2, q3, t, query_with_exchange, with_query, with_provider)
              | inr t ↦ elim (Fallible-cases (endpoint P p o.protocol)) [
                | inr (e, q4) ↦
                    rw (q1, q2, q3, t, q4, query_with_exchange, with_query, with_provider, send)
                | inl (a, q4) ↦ rw (
                  q1,
                  q2,
                  q3,
                  t,
                  q4,
                  agree p (sent_wire o.protocol b) (record {
                    built = b;
                    address = a;
                    built_ok = q1;
                    found = q2;
                    proxy_valid = q3;
                    proxy_usable = usable o.proxy o.protocol t;
                    addressed = q4;
                    is_sent = refl;
                  }),
                  query_with_exchange,
                  with_query,
                  with_provider,
                  send,
                )
              ]
            ]
      ]
    ]
  ]
