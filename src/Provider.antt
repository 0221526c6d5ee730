-- ===== src/Provider.antt =====
-- internal/edns/providers.go: the built-in resolvers, their endpoints and the DNSCrypt stamp.
pub mod Laws
pub mod Offered
use encrypted_dns_skill.Base.{
  ℕ, Bool, true, false, not, ◌&&◌, ◌||◌, List, [], ◌∷◌, Option, none, some, ◌==◌, if◌then◌else◌,
  replicate,
}
use encrypted_dns_skill.Errors.{
  Error, invalid_stamp_metadata, protocol_unavailable, provider_lacks_protocol, unknown_provider,
  stamp_address_missing, stamp_key_missing, Fallible, ok, err,
}
use encrypted_dns_skill.Platform.{Platform, to_lower}
use encrypted_dns_skill.Text.{Text, Bytes, codes, text_eq, is_empty}

pub record DnsCryptConfig : Type 0 where
  pub server_address : Text
  pub provider_name : Text
  pub public_key : Bytes
  pub properties : ℕ

pub record Provider : Type 0 where
  pub id : Text
  pub profile : Text
  pub source_url : Text
  pub verified_date : Text
  pub doh_url : Text
  pub dot_addr : Text
  pub dot_name : Text
  pub doq_addr : Text
  pub doq_name : Text
  pub doh3_url : Text
  pub dnscrypt : DnsCryptConfig

abbrev pub zero_key : Bytes
zero_key = replicate 32 0

-- `DNSCryptConfig{}`
abbrev pub no_config : DnsCryptConfig
no_config = record {
  server_address = [];
  provider_name = [];
  public_key = zero_key;
  properties = 0;
}

-- `errors.As(err, &unsupported)`, which looks through what an error wraps.
unfoldable pub is_unsupported : Error → Bool
is_unsupported (protocol_unavailable p) = true
is_unsupported (provider_lacks_protocol i p) = true
is_unsupported (invalid_stamp_metadata i e) = is_unsupported e
is_unsupported _ = false

-- `config == DNSCryptConfig{}`
unfoldable pub is_no_config : DnsCryptConfig → Bool
unfolding text_eq
is_no_config c =
    is_empty c.server_address
    && is_empty c.provider_name
    && text_eq c.public_key zero_key
    && c.properties == 0

unfoldable pub cloudflare : Provider
cloudflare = record {
  id = codes "cloudflare";
  profile = codes "unfiltered";
  source_url = codes "https://developers.cloudflare.com/1.1.1.1/encryption/";
  verified_date = codes "2026-08-13";
  doh_url = codes "https://cloudflare-dns.com/dns-query";
  dot_addr = codes "one.one.one.one:853";
  dot_name = codes "one.one.one.one";
  doq_addr = [];
  doq_name = [];
  doh3_url = codes "https://cloudflare-dns.com/dns-query";
  dnscrypt = no_config;
}

unfoldable pub google : Provider
google = record {
  id = codes "google";
  profile = codes "unfiltered";
  source_url = codes "https://developers.google.com/speed/public-dns/docs/secure-transports";
  verified_date = codes "2026-08-13";
  doh_url = codes "https://dns.google/dns-query";
  dot_addr = codes "dns.google:853";
  dot_name = codes "dns.google";
  doq_addr = [];
  doq_name = [];
  doh3_url = codes "https://dns.google/dns-query";
  dnscrypt = no_config;
}

unfoldable pub quad9 : Provider
quad9 = record {
  id = codes "quad9";
  profile = codes "security-filtered";
  source_url = codes "https://docs.quad9.net/services/";
  verified_date = codes "2026-08-13";
  doh_url = codes "https://dns.quad9.net/dns-query";
  dot_addr = codes "dns.quad9.net:853";
  dot_name = codes "dns.quad9.net";
  doq_addr = [];
  doq_name = [];
  doh3_url = [];
  dnscrypt = no_config;
}

abbrev adguard_key : Bytes
adguard_key =
    0xd1 ∷ 0x2b ∷ 0x47 ∷ 0xf2 ∷ 0x52 ∷ 0xdc ∷ 0xf2 ∷ 0xc2 ∷ 0xbb ∷ 0xf8 ∷ 0x99 ∷ 0x10 ∷ 0x86 ∷ 0xea
    ∷ 0xf7 ∷ 0x9c ∷ 0xe4 ∷ 0x49 ∷ 0x5d ∷ 0x8b ∷ 0x16 ∷ 0xc8 ∷ 0xa0 ∷ 0xc4 ∷ 0x32 ∷ 0x2e ∷ 0x52
    ∷ 0xca ∷ 0x3f ∷ 0x39 ∷ 0x08 ∷ 0x73 ∷ []

module _ (P : Platform) where
  unfoldable pub adguard : Provider
  adguard = record {
    id = codes "adguard";
    profile = codes "ad-and-security-filtered";
    source_url = codes "https://adguard-dns.io/kb/en/general/dns-providers/";
    verified_date = codes "2026-08-14";
    doh_url = codes "https://dns.adguard-dns.com/dns-query";
    dot_addr = codes "dns.adguard-dns.com:853";
    dot_name = codes "dns.adguard-dns.com";
    doq_addr = codes "dns.adguard-dns.com:853";
    doq_name = codes "dns.adguard-dns.com";
    doh3_url = [];
    dnscrypt = record {
      server_address = codes "94.140.14.14:5443";
      provider_name = codes "2.dnscrypt.default.ns1.adguard.com";
      public_key = adguard_key;
      properties = P.dnssec_no_log;
    };
  }

  -- The map `providers`.
  unfoldable pub providers : List (Text × Provider)
  unfolding cloudflare google quad9 adguard
  providers =
      (codes "cloudflare", cloudflare)
      ∷ (codes "google", google)
      ∷ (codes "quad9", quad9)
      ∷ (codes "adguard", adguard)
      ∷ []

  -- `DNSCryptConfig.Stamp`
  unfoldable pub stamp : DnsCryptConfig → Fallible Text
  unfolding text_eq
  stamp c =
      if is_empty c.server_address || is_empty c.provider_name
      then err stamp_address_missing
      else if text_eq c.public_key zero_key
      then err stamp_key_missing
      else ok (P.stamp_string c.server_address c.public_key c.provider_name c.properties)

  -- `if provider.DNSCrypt != (DNSCryptConfig{}) { … }`, with the error wrapped.
  unfoldable pub dnscrypt_endpoint : Provider → Fallible Text
  unfolding stamp is_no_config
  dnscrypt_endpoint p =
      if is_no_config p.dnscrypt
      then ok []
      else elim (stamp p.dnscrypt) [ ok s ↦ ok s | err e ↦ err (invalid_stamp_metadata p.id e) ]

  -- The switch of `Endpoint` on the lowered protocol.
  unfoldable pub raw_endpoint : Provider → Text → Text → Fallible Text
  unfolding dnscrypt_endpoint
  raw_endpoint p protocol lowered =
      if text_eq lowered (codes "doh")
      then ok p.doh_url
      else if text_eq lowered (codes "dot")
      then ok p.dot_addr
      else if text_eq lowered (codes "doq")
      then ok p.doq_addr
      else if text_eq lowered (codes "doh3")
      then ok p.doh3_url
      else if text_eq lowered (codes "dnscrypt")
      then dnscrypt_endpoint p
      else err (protocol_unavailable protocol)

  -- `if endpoint == "" { … }` behind the switch.
  abbrev pub require_endpoint : Provider → Text → Fallible Text → Fallible Text
  require_endpoint p protocol (ok []) = err (provider_lacks_protocol p.id protocol)
  require_endpoint p protocol (ok (c ∷ s)) = ok (c ∷ s)
  require_endpoint p protocol (err e) = err e

  -- `Provider.Endpoint`
  unfoldable pub endpoint : Provider → Text → Fallible Text
  unfolding raw_endpoint to_lower
  endpoint p protocol = require_endpoint p protocol (raw_endpoint p protocol (to_lower P protocol))

-- A lookup in a map of providers.
unfoldable pub lookup_provider : Text → List (Text × Provider) → Option Provider
lookup_provider k [] = none
lookup_provider k ((j, v) ∷ m) = if text_eq k j then some v else lookup_provider k m

module _ (P : Platform) where
  -- `FindProvider`
  unfoldable pub find_provider : Text → Fallible Provider
  find_provider name = elim (lookup_provider (to_lower P name) (providers P)) [
    | some p ↦ ok p
    | none ↦ err (unknown_provider name)
  ]
