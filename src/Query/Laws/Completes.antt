-- ===== src/Query/Laws/Completes.antt =====
-- A query of which nothing is wrong completes.
use encrypted_dns_skill.Base.{ℕ, true, false, not, ◌&&◌, [], ◌≡◌, refl, ◌∙◌, none, some}
use encrypted_dns_skill.Capability.{proxy_supported}
use encrypted_dns_skill.Dns.Age.{apply_http_age}
use encrypted_dns_skill.Dns.Query.{Random, Built, build_query}
use encrypted_dns_skill.Dns.Query.Accepts.{PacksNames, IsAcceptable, build_query-accepted}
use encrypted_dns_skill.Dns.Response.Laws.{IsReply, parse_response-IsReply}
use encrypted_dns_skill.Errors.{Fallible, ok, err, is_ok}
use encrypted_dns_skill.Model.{QueryOptions, DnsInfo}
use encrypted_dns_skill.Platform.{Platform, to_lower}
use encrypted_dns_skill.Provider.{
  Provider, providers, lookup_provider, endpoint, find_provider, cloudflare, google, quad9, adguard,
}
use encrypted_dns_skill.Provider.Offered.{StampsStart, offered, contains, endpoint_offered}
use encrypted_dns_skill.Proxy.{validate_proxy_url}
use encrypted_dns_skill.Query.{
  Exchange, finish, receive, send, with_provider, with_query, query_with_exchange, sent_wire,
  sent_id, initial_result,
}
use encrypted_dns_skill.Text.{Text, Bytes, codes, text_eq, is_empty}

-- The four resolvers.
pub data IsResolver : Text → Type 0 where
  is_cloudflare : IsResolver (codes "cloudflare")
  is_google : IsResolver (codes "google")
  is_quad9 : IsResolver (codes "quad9")
  is_adguard : IsResolver (codes "adguard")

-- What stands behind a built question that is sent to a resolver: the bytes of a reply to it.
pub record IsAnswered (P : Platform) (o : QueryOptions) (ex : Exchange) (provider : Provider)
    (built : Built) : Type 0 where
  pub response : Bytes
  pub dns : DnsInfo
  pub received : (ex provider (sent_wire o.protocol built) o).response ≡ ok response
  pub reply : IsReply P response (sent_id o.protocol built) built.query dns

-- The steps of a query that succeed.
record IsAnswerable (P : Platform) (random : Random) (o : QueryOptions) (ex : Exchange)
    (dns : DnsInfo) : Type 0 where
  pub built : Built
  pub provider : Provider
  pub address : Text
  pub response : Bytes
  pub built_ok : build_query P random o.name o.record_type ≡ ok built
  pub found : find_provider P o.provider ≡ ok provider
  pub proxy_valid : validate_proxy_url P o.proxy ≡ ok tt
  pub proxy_usable : (not (is_empty o.proxy) && not (proxy_supported o.protocol)) ≡ false
  pub addressed : endpoint P provider o.protocol ≡ ok address
  pub answered : (ex provider (sent_wire o.protocol built) o).response ≡ ok response
  pub reply : IsReply P response (sent_id o.protocol built) built.query dns

lookup_provider-IsResolver :
    (P : Platform) {k : Text}
    → IsResolver k
    → (p : Provider) × (lookup_provider k (providers P) ≡ some p)
unfolding lookup_provider providers text_eq
lookup_provider-IsResolver P is_cloudflare = (cloudflare, refl)
lookup_provider-IsResolver P is_google = (google, refl)
lookup_provider-IsResolver P is_quad9 = (quad9, refl)
lookup_provider-IsResolver P is_adguard = (adguard P, refl)

find_provider-IsResolver :
    (P : Platform) (name : Text)
    → IsResolver (to_lower P name)
    → (p : Provider) × (find_provider P name ≡ ok p)
unfolding find_provider
find_provider-IsResolver P name h =
    let (p, q) = lookup_provider-IsResolver P h in (p, rw (q, find_provider) refl)

is_ok-value : {m : Fallible Text} → is_ok m ≡ true → (a : Text) × (m ≡ ok a)
is_ok-value {m = ok a} h = (a, refl)
is_ok-value {m = err e} h = cc

completes :
    (P : Platform) (random : Random) (o : QueryOptions) (ex : Exchange) (dns : DnsInfo)
    → (h : IsAnswerable P random o ex dns)
    → let r = query_with_exchange P random o ex in
      (r.completed ≡ true)
      × (r.error ≡ none)
      × (r.query ≡ h.built.query)
      × (r.transport ≡ (ex h.provider (sent_wire o.protocol h.built) o).transport)
      × (r.dns ≡ apply_http_age dns r.transport.http_age_seconds)
unfolding query_with_exchange with_query with_provider send receive finish initial_result
completes P random o ex dns h =
    let parsed = (parse_response-IsReply P h.response _ _ dns).1 h.reply in
    simp
      (
        h.built_ok, h.found, h.proxy_valid, h.proxy_usable, h.addressed, h.answered, parsed,
        query_with_exchange, with_query, with_provider, send, receive, finish,
      )
      (refl, refl, refl, refl, refl)

module _ (P : Platform) (high low : ℕ) (o : QueryOptions) (ex : Exchange) where
  -- A query completes, without an error, if its record type is PTR and its name an address, or
  -- the type is another supported one and IDNA converts the name to a public one; its provider is one of the four resolvers and
  -- README.md lists its protocol for it, in any case of the letters; it has no explicit proxy, and
  -- random bytes are to be had; and the exchange, given the question that was built, answers with
  -- a reply to it. The result then has the question, the transport information of this exchange,
  -- and what the reply says, aged by the HTTP age of the transport. The package dnsstamps is taken
  -- to begin each stamp with `sdns://`, and dnsmessage to pack a question
  -- for a public name and for the reverse name of an address.
  pub query_completes :
      StampsStart P
      → PacksNames P
      → IsAcceptable P o.name o.record_type
      → IsResolver (to_lower P o.provider)
      → contains (offered (to_lower P o.provider)) (to_lower P o.protocol) ≡ true
      → o.proxy ≡ []
      → ((provider : Provider) (built : Built)
          → build_query P (some (high, low)) o.name o.record_type ≡ ok built
          → find_provider P o.provider ≡ ok provider
          → IsAnswered P o ex provider built)
      → let r = query_with_exchange P (some (high, low)) o ex in
        (r.completed ≡ true)
        × (r.error ≡ none)
        × ((built : Built) × (provider : Provider) × (answered : IsAnswered P o ex provider built)
            × (build_query P (some (high, low)) o.name o.record_type ≡ ok built)
            × (find_provider P o.provider ≡ ok provider)
            × (r.query ≡ built.query)
            × (r.transport ≡ (ex provider (sent_wire o.protocol built) o).transport)
            × (r.dns ≡ apply_http_age answered.dns r.transport.http_age_seconds))
  unfolding validate_proxy_url
  query_completes stamps packs acceptable resolver listed no_proxy answers =
      let (built, built_ok) =
        build_query-accepted P o.name o.record_type high low packs acceptable in
      let (provider, found) = find_provider-IsResolver P o.provider resolver in
      let (same, settled_) = endpoint_offered P stamps o.protocol o.provider found in
      let (address, addressed) = is_ok-value (same ∙ listed) in
      let answered = answers provider built built_ok found in
      let (completed, no_error, asked, carried, reported) =
        completes P (some (high, low)) o ex answered.dns (record {
          built = built;
          provider = provider;
          address = address;
          response = answered.response;
          built_ok = built_ok;
          found = found;
          proxy_valid = rw no_proxy refl;
          proxy_usable = rw no_proxy refl;
          addressed = addressed;
          answered = answered.received;
          reply = answered.reply;
        }) in
      (completed, no_error, (built, provider, answered, built_ok, found, asked, carried, reported))
