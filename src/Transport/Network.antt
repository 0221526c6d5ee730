-- ===== src/Transport/Network.antt =====
-- internal/edns/query.go: `exchangeProtocol` over the five transports of this directory.
pub mod Answered
pub mod Configured
pub mod Versions
pub mod Credentials
pub mod Secrecy
pub mod Laws
pub mod Reported
pub mod Dispatch
use encrypted_dns_skill.Model.{TransportInfo}
use encrypted_dns_skill.Platform.{Platform}
use encrypted_dns_skill.Query.{Exchange, Transports, exchange_protocol}
use encrypted_dns_skill.Transport.DnsCrypt.{CryptNet, exchange_dnscrypt}
use encrypted_dns_skill.Transport.Doq.{DoqNet, exchange_doq}
use encrypted_dns_skill.Transport.Dot.{DotNet, exchange_dot}
use encrypted_dns_skill.Transport.Https.{HttpNet}
use encrypted_dns_skill.Transport.Doh.{exchange_doh, exchange_doh3}
use encrypted_dns_skill.Transport.{response_of, info_after}

-- What all the transports get from the network.
pub record Network (M : Type 0) : Type 0 where
  pub doh : HttpNet
  pub dot : DotNet
  pub doq : DoqNet
  pub doh3 : HttpNet
  pub dnscrypt : CryptNet M

module _ {M : Type 0} (P : Platform) (N : Network M) where
  unfoldable pub transports : Transports
  transports = record {
    doh = λ provider wire method proxy. exchange_doh N.doh P provider wire method proxy;
    dot = λ provider wire proxy. (
      response_of (exchange_dot N.dot P provider wire proxy),
      info_after (exchange_dot N.dot P provider wire proxy),
    );
    doq = λ provider wire. (
      response_of (exchange_doq N.doq provider wire),
      info_after (exchange_doq N.doq provider wire),
    );
    doh3 = λ provider wire method. exchange_doh3 N.doh3 P provider wire method;
    dnscrypt = λ stamp wire. exchange_dnscrypt N.dnscrypt stamp wire;
  }

  -- The exchange that `Query` makes.
  unfoldable pub network_exchange : Exchange
  network_exchange = exchange_protocol P transports
