-- ===== src/Schema/Carried.antt =====
-- What every step of a query keeps of its result, of what the schema wants.
use encrypted_dns_skill.Base.{
  ℕ, IsNatural, true, false, not, ◌&&◌, some, ◌∙◌, ap, ◌≡◌, refl, inl, inr, arith, Bool-cases,
}
use encrypted_dns_skill.Capability.{capabilities, lists_protocol, known_protocol, proxy_supported}
use encrypted_dns_skill.Dns.Age.{apply_http_age}
use encrypted_dns_skill.Dns.Query.{Random, Built, build_query}
use encrypted_dns_skill.Dns.Query.Laws.{build_query-IsBuilt}
use encrypted_dns_skill.Dns.Response.{info_of, parse_response}
use encrypted_dns_skill.Dns.Response.Laws.{parse_response-IsReply}
use encrypted_dns_skill.Dns.Tables.{record_types, lookup_type, record_type}
use encrypted_dns_skill.Errors.{ok}
use encrypted_dns_skill.Errors.Laws.{Fallible-cases}
use encrypted_dns_skill.Model.{QueryOptions, QueryInfo, DnsInfo, TransportInfo, Result, no_dns}
use encrypted_dns_skill.Platform.{Platform}
use encrypted_dns_skill.Provider.{Provider, endpoint, find_provider}
use encrypted_dns_skill.Proxy.{validate_proxy_url}
use encrypted_dns_skill.Query.{
  Exchange, Exchanged, failed, initial_result, finish, receive, send, with_provider, with_query,
  query_with_exchange, sent_wire,
}
use encrypted_dns_skill.Schema.{is_listed}
use encrypted_dns_skill.Schema.Replies.{
  UnpacksBodies, reply-AllAnswers, apply_http_age-AllAnswers, apply_http_age-unvalidated,
}
use encrypted_dns_skill.Schema.Result.{protocols, query_types}
use encrypted_dns_skill.Schema.Single.{AllAnswers}
use encrypted_dns_skill.Text.{Text, Bytes, codes, is_empty}
use encrypted_dns_skill.Text.Equality.{text_eq_sym}
use encrypted_dns_skill.Transport.Network.Reported.{IsReport}

-- An exchange over a known protocol reports it, and an age that is not negative.
abbrev pub Reports : Platform → Exchange → Type 0
Reports P ex =
    (p : Provider) (wire : Bytes) (o : QueryOptions) (address : Text)
    → known_protocol o.protocol ≡ true
    → endpoint P p o.protocol ≡ ok address
    → IsReport o.protocol (ex p wire o).transport

-- What does not depend on how a query ends.
pub record HasParts (v : ℕ) (op : Text) (q : QueryInfo) (t : TransportInfo) (d : DnsInfo)
    : Type 0 where
  pub version : v ≡ 1
  pub operated : op ≡ codes "query"
  pub typed : is_listed query_types q.qtype ≡ true
  pub carried : is_listed protocols t.protocol ≡ true
  pub aged : IsNatural t.http_age_seconds
  pub unvalidated : d.client_validated_dnssec ≡ false
  pub answered : AllAnswers d.answers

-- A result in the making.
abbrev pub IsCarried : Result → Type 0
IsCarried r = HasParts r.schema_version r.operation r.query r.transport r.dns

pub record_type-listed :
    (t : Text) {n : ℕ} → record_type t ≡ some n → is_listed query_types t ≡ true
unfolding record_type record_types lookup_type query_types
record_type-listed t h = ground (
  arith,
  text_eq_sym t (codes "A"),
  text_eq_sym t (codes "AAAA"),
  text_eq_sym t (codes "CNAME"),
  text_eq_sym t (codes "MX"),
  text_eq_sym t (codes "TXT"),
  text_eq_sym t (codes "NS"),
  text_eq_sym t (codes "SOA"),
  text_eq_sym t (codes "CAA"),
  text_eq_sym t (codes "SRV"),
  text_eq_sym t (codes "PTR"),
  text_eq_sym t (codes "HTTPS"),
  text_eq_sym t (codes "SVCB"),
)

known-listed : (p : Text) → known_protocol p ≡ true → is_listed protocols p ≡ true
unfolding known_protocol lists_protocol capabilities protocols
known-listed p h = h

module _ (P : Platform) (unpacks : UnpacksBodies P) where
  -- The DNS part of a result is replaced.
  with_dns-HasParts :
      {v : ℕ} {op : Text} {q : QueryInfo} {t : TransportInfo} {d : DnsInfo} (e : DnsInfo)
      → HasParts v op q t d
      → e.client_validated_dnssec ≡ false
      → AllAnswers e.answers
      → HasParts v op q t e
  with_dns-HasParts e h v a = record {
    version = h.version;
    operated = h.operated;
    typed = h.typed;
    carried = h.carried;
    aged = h.aged;
    unvalidated = v;
    answered = a;
  }

  finish-IsCarried :
      (w : Bytes) (id : ℕ) (q : QueryInfo) (r : Result)
      → IsCarried r
      → IsCarried (finish P (parse_response P w id q) r)
  unfolding finish failed info_of
  finish-IsCarried w id q r h = elim (Fallible-cases (parse_response P w id q)) [
    | inr (e, k) ↦ rw (k, finish) (with_dns-HasParts no_dns h refl tt)
    | inl (d, k) ↦
        let reply = (parse_response-IsReply P w id q d).0 k in
        let age = r.transport.http_age_seconds in
        let info = reply.info in
        rw (k, finish)
          (with_dns-HasParts (apply_http_age d age) h
            (apply_http_age-unvalidated d age ∙ ap (λ i. i.client_validated_dnssec) info)
            (apply_http_age-AllAnswers d age (reply-AllAnswers P w id q d unpacks reply)))
  ]

  receive-IsCarried :
      (o : QueryOptions) (b : Built) (x : Exchanged) (r : Result)
      → IsReport o.protocol x.transport
      → known_protocol o.protocol ≡ true
      → IsCarried r
      → IsCarried (receive P o b x r)
  unfolding receive failed
  receive-IsCarried o b x r report known h =
      let listed = known-listed o.protocol known in
      let transported : HasParts r.schema_version r.operation r.query x.transport r.dns = record {
        version = h.version;
        operated = h.operated;
        typed = h.typed;
        carried = rw report.named listed;
        aged = report.aged;
        unvalidated = h.unvalidated;
        answered = h.answered;
      } in
      elim (Fallible-cases x.response) [
        | inr (e, q) ↦ rw (q, receive) transported
        | inl (w, q) ↦ rw (q, receive) (finish-IsCarried w _ _ _ transported)
      ]

  initial-IsCarried :
      (o : QueryOptions) (q : QueryInfo)
      → known_protocol o.protocol ≡ true
      → is_listed query_types q.qtype ≡ true
      → IsCarried (initial_result o q)
  unfolding initial_result
  initial-IsCarried o q known typed = record {
    version = refl;
    operated = refl;
    typed = typed;
    carried = known-listed o.protocol known;
    aged = tt;
    unvalidated = refl;
    answered = tt;
  }

  module _ (ex : Exchange) (reports : Reports P ex) (o : QueryOptions)
      (known : known_protocol o.protocol ≡ true) where
    send-IsCarried :
        (b : Built) (p : Provider) (r : Result) → IsCarried r → IsCarried (send P ex o b p r)
    unfolding send failed
    send-IsCarried b p r h = elim (Fallible-cases (endpoint P p o.protocol)) [
      | inr (e, q) ↦ rw (q, send) h
      | inl (a, q) ↦
          rw (q, send)
            (receive-IsCarried o b _ _ (reports p (sent_wire o.protocol b) o a known q) known h)
    ]

    with_provider-IsCarried :
        (b : Built) (p : Provider) (r : Result)
        → IsCarried r
        → IsCarried (with_provider P ex o b p r)
    unfolding with_provider failed
    with_provider-IsCarried b p r h = elim (Fallible-cases (validate_proxy_url P o.proxy)) [
      | inr (e, q) ↦ rw (q, with_provider) h
      | inl (u, q) ↦
          elim (Bool-cases (not (is_empty o.proxy) && not (proxy_supported o.protocol))) [
            | inl t ↦ rw (q, t, with_provider) h
            | inr t ↦ rw (q, t, with_provider) (send-IsCarried b p r h)
          ]
    ]

    pub query-IsCarried :
        (random : Random)
        → is_listed query_types o.record_type ≡ true
        → IsCarried (query_with_exchange P random o ex)
    unfolding query_with_exchange with_query failed
    query-IsCarried random typed =
        elim (Fallible-cases (build_query P random o.name o.record_type)) [
          | inr (e, q) ↦ rw (q, query_with_exchange) (initial-IsCarried o _ known typed)
          | inl (b, q) ↦
              let facts = build_query-IsBuilt P random o.name o.record_type b q in
              let listed : is_listed query_types b.query.qtype ≡ true =
                rw facts.typed (record_type-listed _ facts.numbered) in
              let fresh = initial-IsCarried o b.query known listed in
              elim (Fallible-cases (find_provider P o.provider)) [
                | inr (e, k) ↦ rw (q, k, query_with_exchange, with_query) fresh
                | inl (p, k) ↦
                    rw (q, k, query_with_exchange, with_query) (with_provider-IsCarried b p _ fresh)
              ]
        ]
