-- ===== src/Query/Laws/Shape.antt =====
-- The forms that the result of a query can have, from which its general laws follow.
use encrypted_dns_skill.Base.{ℕ, false, not, ◌&&◌, [], ◌≡◌, refl, none, some, inl, inr, Bool-cases}
use encrypted_dns_skill.Capability.{proxy_supported}
use encrypted_dns_skill.Dns.Query.{Random, Built, build_query}
use encrypted_dns_skill.Dns.Response.{parse_response}
use encrypted_dns_skill.Errors.{Error}
use encrypted_dns_skill.Errors.Laws.{Fallible-cases}
use encrypted_dns_skill.Model.{QueryOptions, QueryInfo, Result}
use encrypted_dns_skill.Platform.{Platform}
use encrypted_dns_skill.Provider.{Provider, endpoint, find_provider, is_unsupported}
use encrypted_dns_skill.Proxy.{validate_proxy_url}
use encrypted_dns_skill.Query.{
  Exchange, Exchanged, finish, receive, send, with_provider, with_query, query_with_exchange,
  failed, initial_result, endpoint_class,
}
use encrypted_dns_skill.Text.{Text, Bytes, codes, is_empty}

-- Nothing has been decided of a result.
pub record IsFresh (r : Result) : Type 0 where
  pub incomplete : r.completed ≡ false
  pub no_error : r.error ≡ none
  pub listed : r.dns.answers ≡ some []

-- The classes of the errors that are found before a response is read.
pub data IsEarly : Text → Type 0 where
  input : {class : Text} → class ≡ codes "input" → IsEarly class
  unsupported : {class : Text} → class ≡ codes "unsupported" → IsEarly class
  transport : {class : Text} → class ≡ codes "transport" → IsEarly class

-- A result is that of an early error, or of the reading of a response.
pub data Shape (P : Platform) (r : Result) : Type 0 where
  refused :
      (class : Text) (e : Error) (s : Result)
      → IsEarly class
      → IsFresh s
      → r ≡ failed class e s
      → Shape P r
  parsed :
      (w : Bytes) (id : ℕ) (q : QueryInfo) (s : Result)
      → IsFresh s
      → r ≡ finish P (parse_response P w id q) s
      → Shape P r

module _ (P : Platform) where
  endpoint_class-IsEarly : (e : Error) → IsEarly (endpoint_class P e)
  unfolding endpoint_class
  endpoint_class-IsEarly e = elim (Bool-cases (is_unsupported e)) [
    | inl t ↦ rw (t, endpoint_class) (unsupported refl)
    | inr t ↦ rw (t, endpoint_class) (input refl)
  ]

  receive-Shape :
      (o : QueryOptions) (b : Built) (x : Exchanged) (r : Result)
      → IsFresh r
      → Shape P (receive P o b x r)
  unfolding receive
  receive-Shape o b x r h = elim (Fallible-cases x.response) [
    | inl (w, q) ↦
        rw (q, receive)
          (parsed w _ _ _
            (record { incomplete = h.incomplete; no_error = h.no_error; listed = h.listed }) refl)
    | inr (e, q) ↦
        rw (q, receive)
          (refused _ e _ (transport refl)
            (record { incomplete = h.incomplete; no_error = h.no_error; listed = h.listed }) refl)
  ]

  send-Shape :
      (ex : Exchange) (o : QueryOptions) (b : Built) (p : Provider) (r : Result)
      → IsFresh r
      → Shape P (send P ex o b p r)
  unfolding send
  send-Shape ex o b p r h = elim (Fallible-cases (endpoint P p o.protocol)) [
    | inl (a, q) ↦
        rw (q, send)
          (receive-Shape o b _ _
            (record { incomplete = h.incomplete; no_error = h.no_error; listed = h.listed }))
    | inr (e, q) ↦
        rw (q, send)
          (refused _ e _ (endpoint_class-IsEarly e)
            (record { incomplete = h.incomplete; no_error = h.no_error; listed = h.listed }) refl)
  ]

  with_provider-Shape :
      (ex : Exchange) (o : QueryOptions) (b : Built) (p : Provider) (r : Result)
      → IsFresh r
      → Shape P (with_provider P ex o b p r)
  unfolding with_provider
  with_provider-Shape ex o b p r h = elim (Fallible-cases (validate_proxy_url P o.proxy)) [
    | inr (e, q) ↦ rw (q, with_provider) (refused _ e _ (input refl) h refl)
    | inl (u, q) ↦ elim (Bool-cases (not (is_empty o.proxy) && not (proxy_supported o.protocol))) [
      | inl t ↦ rw (q, t, with_provider) (refused _ _ _ (unsupported refl) h refl)
      | inr t ↦ rw (q, t, with_provider) (send-Shape ex o b p r h)
    ]
  ]

  initial-IsFresh : (o : QueryOptions) (q : QueryInfo) → IsFresh (initial_result o q)
  unfolding initial_result
  initial-IsFresh o q = record { incomplete = refl; no_error = refl; listed = refl }

  -- Every result of a query has one of the two forms.
  pub query-Shape :
      (random : Random) (o : QueryOptions) (ex : Exchange)
      → Shape P (query_with_exchange P random o ex)
  unfolding query_with_exchange with_query
  query-Shape random o ex = elim (Fallible-cases (build_query P random o.name o.record_type)) [
    | inr (e, q) ↦
        rw (q, query_with_exchange) (refused _ e _ (input refl) (initial-IsFresh o _) refl)
    | inl (b, q) ↦ elim (Fallible-cases (find_provider P o.provider)) [
      | inr (e, k) ↦
          rw (q, k, query_with_exchange, with_query)
            (refused _ e _ (input refl) (initial-IsFresh o _) refl)
      | inl (p, k) ↦
          rw (q, k, query_with_exchange, with_query)
            (with_provider-Shape ex o b p _ (initial-IsFresh o _))
    ]
  ]
