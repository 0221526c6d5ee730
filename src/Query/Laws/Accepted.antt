-- ===== src/Query/Laws/Accepted.antt =====
-- What a completed query has passed.
use encrypted_dns_skill.Base.{true, false, not, ◌&&◌, ◌≡◌, refl, inl, inr, arith, Bool-cases}
use encrypted_dns_skill.Capability.{proxy_supported}
use encrypted_dns_skill.Dns.Age.{apply_http_age}
use encrypted_dns_skill.Dns.Query.{Random, Built, build_query}
use encrypted_dns_skill.Dns.Response.{parse_response}
use encrypted_dns_skill.Dns.Response.Laws.{IsReply, parse_response-IsReply}
use encrypted_dns_skill.Errors.{Error, ok}
use encrypted_dns_skill.Errors.Laws.{Fallible-cases}
use encrypted_dns_skill.Model.{QueryOptions, QueryInfo, DnsInfo, Result}
use encrypted_dns_skill.Platform.{Platform}
use encrypted_dns_skill.Provider.{Provider, endpoint, find_provider}
use encrypted_dns_skill.Proxy.{validate_proxy_url}
use encrypted_dns_skill.Query.{
  Exchange, Exchanged, finish, receive, send, with_provider, with_query, query_with_exchange,
  sent_wire, sent_id, failed, initial_result, endpoint_class,
}
use encrypted_dns_skill.Text.{Text, Bytes, codes, is_empty}

-- The response to a query was received and accepted, and the result reports it.
pub record IsReceived (P : Platform) (o : QueryOptions) (b : Built) (x : Exchanged) (r : Result)
    : Type 0 where
  pub response : Bytes
  pub dns : DnsInfo
  pub received : x.response ≡ ok response
  pub reply : IsReply P response (sent_id o.protocol b) b.query dns
  pub reported : r.dns ≡ apply_http_age dns x.transport.http_age_seconds
  pub transported : r.transport ≡ x.transport

-- Every step of a query succeeded, and the exchange was made once all before it had.
pub record IsAccepted (P : Platform) (random : Random) (o : QueryOptions) (ex : Exchange)
    (r : Result) : Type 0 where
  pub built : Built
  pub provider : Provider
  pub address : Text
  pub built_ok : build_query P random o.name o.record_type ≡ ok built
  pub found : find_provider P o.provider ≡ ok provider
  pub proxy_valid : validate_proxy_url P o.proxy ≡ ok tt
  pub proxy_usable : (not (is_empty o.proxy) && not (proxy_supported o.protocol)) ≡ false
  pub addressed : endpoint P provider o.protocol ≡ ok address
  pub answered : IsReceived P o built (ex provider (sent_wire o.protocol built) o) r

initial-incomplete : (o : QueryOptions) (q : QueryInfo) → (initial_result o q).completed ≡ false
unfolding initial_result
initial-incomplete o q = refl

module _ (P : Platform) where
  failed-incomplete :
      (class : Text) (e : Error) (r : Result)
      → r.completed ≡ false
      → (failed class e r).completed ≡ true
      → ⊥
  unfolding failed
  failed-incomplete class e r h k = cc

  receive-IsReceived :
      (o : QueryOptions) (b : Built) (x : Exchanged) (r : Result)
      → r.completed ≡ false
      → (receive P o b x r).completed ≡ true
      → IsReceived P o b x (receive P o b x r)
  unfolding receive finish
  receive-IsReceived o b x r open' h = elim (Fallible-cases x.response) [
    | inr (e, q) ↦ absurd (failed-incomplete (codes "transport") e _ open' (rw (q, receive) at h))
    | inl (w, q) ↦ elim (Fallible-cases (parse_response P w (sent_id o.protocol b) b.query)) [
      | inr (e, k) ↦
          absurd (failed-incomplete (codes "protocol") e _ open' (rw (q, k, receive, finish) at h))
      | inl (d, k) ↦ record {
        response = w;
        dns = d;
        received = q;
        reply = (parse_response-IsReply P w (sent_id o.protocol b) b.query d).0 k;
        reported = ground arith;
        transported = ground arith;
      }
    ]
  ]

  send-IsReceived :
      (ex : Exchange) (o : QueryOptions) (b : Built) (p : Provider) (r : Result)
      → r.completed ≡ false
      → (send P ex o b p r).completed ≡ true
      → (address : Text) × (endpoint P p o.protocol ≡ ok address)
        × IsReceived P o b (ex p (sent_wire o.protocol b) o) (send P ex o b p r)
  unfolding send
  send-IsReceived ex o b p r open' h = elim (Fallible-cases (endpoint P p o.protocol)) [
    | inr (e, q) ↦ absurd (failed-incomplete (endpoint_class P e) e _ open' (rw (q, send) at h))
    | inl (a, q) ↦ (a, q, rw (q, send) (receive-IsReceived o b _ _ open' (rw (q, send) at h)))
  ]

  with_provider-IsReceived :
      (ex : Exchange) (o : QueryOptions) (b : Built) (p : Provider) (r : Result)
      → r.completed ≡ false
      → (with_provider P ex o b p r).completed ≡ true
      → (validate_proxy_url P o.proxy ≡ ok tt)
        × ((not (is_empty o.proxy) && not (proxy_supported o.protocol)) ≡ false)
        × (with_provider P ex o b p r ≡ send P ex o b p r)
  unfolding with_provider
  with_provider-IsReceived ex o b p r open' h =
      elim (Fallible-cases (validate_proxy_url P o.proxy)) [
        | inr (e, q) ↦
            absurd (failed-incomplete (codes "input") e _ open' (rw (q, with_provider) at h))
        | inl (u, q) ↦
            elim (Bool-cases (not (is_empty o.proxy) && not (proxy_supported o.protocol))) [
              | inl t ↦ absurd (
                  failed-incomplete (codes "unsupported") _ _ open' (rw (q, t, with_provider) at h))
              | inr t ↦ (q, t, rw (q, t, with_provider))
            ]
      ]

  with_query-IsReceived :
      (ex : Exchange) (o : QueryOptions) (b : Built)
      → (with_query P ex o b).completed ≡ true
      → (p : Provider) × (find_provider P o.provider ≡ ok p)
        × (with_query P ex o b ≡ with_provider P ex o b p (initial_result o b.query))
  unfolding with_query
  with_query-IsReceived ex o b h = elim (Fallible-cases (find_provider P o.provider)) [
    | inr (e, q) ↦
        absurd
          (failed-incomplete (codes "input") e _ (initial-incomplete o _) (rw (q, with_query) at h))
    | inl (p, q) ↦ (p, q, rw (q, with_query))
  ]

  query-IsBuilt :
      (random : Random) (o : QueryOptions) (ex : Exchange)
      → (query_with_exchange P random o ex).completed ≡ true
      → (b : Built) × (build_query P random o.name o.record_type ≡ ok b)
        × (query_with_exchange P random o ex ≡ with_query P ex o b)
  unfolding query_with_exchange
  query-IsBuilt random o ex h = elim (Fallible-cases (build_query P random o.name o.record_type)) [
    | inr (e, q) ↦ absurd (
        failed-incomplete (codes "input") e _ (initial-incomplete o _)
          (rw (q, query_with_exchange) at h))
    | inl (b, q) ↦ (b, q, rw (q, query_with_exchange))
  ]

  -- A completed query has passed every check: the question was built, the provider is a built-in
  -- one with an endpoint for the protocol, the proxy is valid and usable, the exchange that was
  -- made with the built wire returned bytes, and these are an accepted reply to the question,
  -- with the ID that was sent. The result reports what the reply says, aged by the HTTP age, and
  -- the transport that the exchange reported.
  pub query-IsAccepted :
      (random : Random) (o : QueryOptions) (ex : Exchange)
      → (query_with_exchange P random o ex).completed ≡ true
      → IsAccepted P random o ex (query_with_exchange P random o ex)
  query-IsAccepted random o ex h =
      let (b, built, e1) = query-IsBuilt random o ex h in
      let (p, found, e2) = with_query-IsReceived ex o b (rw e1 at h) in
      let fresh : (initial_result o b.query).completed ≡ false = initial-incomplete o _ in
      let k : (with_provider P ex o b p (initial_result o b.query)).completed ≡ true =
        rw (e1, e2) at h in
      let (valid, usable, e3) = with_provider-IsReceived ex o b p _ fresh k in
      let (address, addressed, answered) = send-IsReceived ex o b p _ fresh (rw e3 at k) in
      record {
        built = b;
        provider = p;
        address = address;
        built_ok = built;
        found = found;
        proxy_valid = valid;
        proxy_usable = usable;
        addressed = addressed;
        answered = rw (e1, e2, e3) answered;
      }
