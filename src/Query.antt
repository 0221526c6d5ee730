-- ===== src/Query.antt =====
-- internal/edns/query.go: one query, from its options to its result. The exchange over the network
-- is an argument, as in the source. The `defer`red contexts and deadlines are part of it.
pub mod Laws
use encrypted_dns_skill.Base.{
  ℕ, Bool, true, false, not, ◌&&◌, ◌||◌, List, [], ◌∷◌, Option, none, some, if◌then◌else◌,
}
use encrypted_dns_skill.Capability.{proxy_supported}
use encrypted_dns_skill.Dns.Age.{apply_http_age}
use encrypted_dns_skill.Dns.Query.{Random, Built, build_query}
use encrypted_dns_skill.Dns.Response.{parse_response}
use encrypted_dns_skill.Errors.{
  Error, proxying_unavailable, exchange_unavailable, Fallible, ok, err,
}
use encrypted_dns_skill.Model.{
  QueryOptions, QueryInfo, ResolverInfo, TransportInfo, DnsInfo, ErrorInfo, Result, no_query,
  no_resolver, no_transport, no_dns,
}
use encrypted_dns_skill.Platform.{Platform}
use encrypted_dns_skill.Provider.{Provider, endpoint, find_provider, is_unsupported}
use encrypted_dns_skill.Proxy.{validate_proxy_url}
use encrypted_dns_skill.Text.{Text, Bytes, codes, text_eq, is_empty}

-- `dnsCryptPeerInfo`
pub record PeerInfo : Type 0 where
  pub server_address : Text
  pub provider_name : Text
  pub certificate_serial : ℕ

abbrev pub no_peer : PeerInfo
no_peer = record { server_address = []; provider_name = []; certificate_serial = 0 }

-- What an exchange returns: the response or an error, and with either of them the metadata.
pub record Exchanged : Type 0 where
  pub response : Fallible Bytes
  pub transport : TransportInfo
  pub peer : PeerInfo

-- `queryExchange`
abbrev pub Exchange : Type 0
Exchange = Provider → Bytes → QueryOptions → Exchanged

unfoldable pub failed : Text → Error → Result → Result
failed class e result = record result { error = some (record { class = class; message = e }) }

-- The result before anything is known of it.
unfoldable pub initial_result : QueryOptions → QueryInfo → Result
initial_result options query = record {
  schema_version = 1;
  operation = codes "query";
  completed = false;
  query = query;
  resolver = no_resolver;
  transport = record no_transport {
    protocol = options.protocol;
    encrypted = true;
    bootstrap = codes "system_resolver";
  };
  dns = record no_dns { answers = some [] };
  warnings = [];
  error = none;
}

-- The protocols whose queries are sent with the ID zero.
unfoldable pub wants_zero_id : Text → Bool
wants_zero_id protocol =
    text_eq protocol (codes "doh")
    || text_eq protocol (codes "doh3")
    || text_eq protocol (codes "doq")

-- `binary.BigEndian.PutUint16(wire[:2], 0)`. It panics on fewer than two bytes, where a packed
-- message has a header of twelve.
unfoldable pub clear_id : Bytes → Bytes
clear_id (high ∷ low ∷ rest) = 0 ∷ 0 ∷ rest
clear_id wire = wire

-- The wire that is handed to the exchange, and the ID that the response must have.
unfoldable pub sent_wire : Text → Built → Bytes
sent_wire protocol built = if wants_zero_id protocol then clear_id built.wire else built.wire

unfoldable pub sent_id : Text → Built → ℕ
sent_id protocol built = if wants_zero_id protocol then 0 else built.id

-- DNSCrypt reports the resolver that answered.
unfoldable pub report_peer : Text → PeerInfo → ResolverInfo → ResolverInfo
report_peer protocol peer resolver =
    if text_eq protocol (codes "dnscrypt")
    then record resolver {
      endpoint = peer.server_address;
      authentication_name = peer.provider_name;
      certificate_serial = peer.certificate_serial;
    }
    else resolver

module _ (P : Platform) where
  -- The end of `queryWithExchange`: what `ParseResponse` gave.
  unfoldable pub finish : Fallible DnsInfo → Result → Result
  finish (err e) result = failed (codes "protocol") e (record result { dns = no_dns })
  finish (ok dns) result = record result {
    dns = apply_http_age dns result.transport.http_age_seconds;
    completed = true;
  }

  -- From the call of the exchange on.
  unfoldable pub receive : QueryOptions → Built → Exchanged → Result → Result
  receive options built exchanged result =
      let result' = record result { transport = exchanged.transport } in
      elim exchanged.response [
        | err e ↦ failed (codes "transport") e result'
        | ok response ↦
            finish (parse_response P response (sent_id options.protocol built) built.query)
              (record result' {
                resolver = report_peer options.protocol exchanged.peer result.resolver;
              })
      ]

  -- The class of an error of `Endpoint`.
  unfoldable pub endpoint_class : Error → Text
  endpoint_class e = if is_unsupported e then codes "unsupported" else codes "input"

  -- From the choice of the endpoint on.
  unfoldable pub send : Exchange → QueryOptions → Built → Provider → Result → Result
  send exchange options built provider result =
      let result' = record result {
        resolver = record no_resolver { provider = provider.id; profile = provider.profile };
      } in
      elim (endpoint P provider options.protocol) [
        | err e ↦ failed (endpoint_class e) e result'
        | ok address ↦
            receive options built (exchange provider (sent_wire options.protocol built) options)
              (record result' {
                resolver = record no_resolver {
                  provider = provider.id;
                  profile = provider.profile;
                  endpoint = address;
                };
              })
      ]

  -- The tests of the explicit proxy.
  unfoldable pub with_provider : Exchange → QueryOptions → Built → Provider → Result → Result
  with_provider exchange options built provider result = elim (validate_proxy_url P options.proxy) [
    | err e ↦ failed (codes "input") e result
    | ok _ ↦
        if not (is_empty options.proxy) && not (proxy_supported options.protocol)
        then failed (codes "unsupported") (proxying_unavailable options.protocol) result
        else send exchange options built provider result
  ]

  unfoldable pub with_query : Exchange → QueryOptions → Built → Result
  with_query exchange options built = elim (find_provider P options.provider) [
    | err e ↦ failed (codes "input") e (initial_result options built.query)
    | ok provider ↦
        with_provider exchange options built provider (initial_result options built.query)
  ]

  -- `queryWithExchange`
  unfoldable pub query_with_exchange : Random → QueryOptions → Exchange → Result
  query_with_exchange random options exchange =
      elim (build_query P random options.name options.record_type) [
        | err e ↦
            failed (codes "input") e
              (initial_result options (record { name = options.name; qtype = options.record_type }))
        | ok built ↦ with_query exchange options built
      ]

  -- `Probe`, over the same exchange.
  unfoldable pub probe : Random → QueryOptions → Exchange → Result
  probe random options exchange = record (query_with_exchange random options exchange) {
    operation = codes "probe";
  }

-- The transports that `exchangeProtocol` dispatches to.
pub record Transports : Type 0 where
  pub doh : Provider → Bytes → Text → Text → Fallible Bytes × TransportInfo
  pub dot : Provider → Bytes → Text → Fallible Bytes × TransportInfo
  pub doq : Provider → Bytes → Fallible Bytes × TransportInfo
  pub doh3 : Provider → Bytes → Text → Fallible Bytes × TransportInfo
  pub dnscrypt : Text → Bytes → Exchanged

abbrev no_peer_of : Fallible Bytes × TransportInfo → Exchanged
no_peer_of (response, transport) = record {
  response = response;
  transport = transport;
  peer = no_peer;
}

-- `exchangeProtocol`
unfoldable pub exchange_protocol : Platform → Transports → Exchange
exchange_protocol P T provider wire options =
    let p = options.protocol in
    if text_eq p (codes "doh")
    then no_peer_of (T.doh provider wire options.method options.proxy)
    else if text_eq p (codes "dot")
    then no_peer_of (T.dot provider wire options.proxy)
    else if text_eq p (codes "doq")
    then no_peer_of (T.doq provider wire)
    else if text_eq p (codes "doh3")
    then no_peer_of (T.doh3 provider wire options.method)
    else if text_eq p (codes "dnscrypt")
    then elim (endpoint P provider (codes "dnscrypt")) [
      | ok stamp ↦ T.dnscrypt stamp wire
      | err e ↦ record { response = err e; transport = no_transport; peer = no_peer }
    ]
    else record {
      response = err (exchange_unavailable p);
      transport = no_transport;
      peer = no_peer;
    }
