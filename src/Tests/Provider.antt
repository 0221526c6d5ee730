-- ===== src/Tests/Provider.antt =====
-- Providers, the protocols that are listed, and proxies.
use encrypted_dns_skill.Base.{All, true, some, none, Option, ◌≡◌, refl}
use encrypted_dns_skill.Capability.{capabilities}
use encrypted_dns_skill.Capability.Laws.{reachable, capabilities_reachable}
use encrypted_dns_skill.Errors.{Fallible, ok, is_ok}
use encrypted_dns_skill.Platform.{Url, to_lower, to_upper, trim_space}
use encrypted_dns_skill.Provider.{
  providers, find_provider, endpoint, google, adguard, cloudflare, lookup_provider, quad9,
}
use encrypted_dns_skill.Provider.Offered.{offered, contains, settled, StampsStart, endpoint_offered}
use encrypted_dns_skill.Proxy.{
  resolve_proxy, accept_url, check_proxy, from_selected, parse_proxy_url, validate_proxy_url,
}
use encrypted_dns_skill.Proxy.Laws.{IsProxy, resolve_proxy-IsProxy}
use encrypted_dns_skill.Tests.Fixtures.{platform, proxy_url}
use encrypted_dns_skill.Text.{
  codes, text_eq, cut, decimal, digits, has_prefix, has_suffix, hex_digit, is_ascii, is_space,
  lower_byte, split, split_from, trim_left, trim_prefix, trim_right, trim_suffix, upper_byte,
}

google-found : find_provider platform (codes "Google") ≡ ok google
unfolding text_eq has_prefix has_suffix trim_prefix trim_suffix split split_from cut digits decimal
    hex_digit is_ascii is_space lower_byte upper_byte trim_left trim_right to_lower to_upper
    trim_space cloudflare google quad9 adguard providers lookup_provider find_provider
google-found = refl

stamps-start : StampsStart platform
unfolding has_prefix
stamps-start addr key name properties = refl

endpoint_offered_example :
    (is_ok (endpoint platform google (codes "DoQ"))
      ≡ contains (offered (to_lower platform (codes "Google"))) (to_lower platform (codes "DoQ")))
    × (settled (endpoint platform google (codes "DoQ")) ≡ true)
endpoint_offered_example =
    endpoint_offered platform stamps-start (codes "DoQ") (codes "Google") google-found

abbrev no_environment : Url → Fallible (Option Url)
no_environment endpoint_url = ok none

explicit-resolved :
    resolve_proxy platform no_environment proxy_url (codes "http://proxy:3128")
    ≡ ok (some proxy_url)
unfolding text_eq has_prefix has_suffix trim_prefix trim_suffix split split_from cut digits decimal
    hex_digit is_ascii is_space lower_byte upper_byte trim_left trim_right to_lower to_upper
    trim_space check_proxy accept_url parse_proxy_url validate_proxy_url from_selected resolve_proxy
explicit-resolved = refl

resolve_proxy-IsProxy_example : IsProxy proxy_url
resolve_proxy-IsProxy_example =
    resolve_proxy-IsProxy platform no_environment proxy_url (codes "http://proxy:3128") proxy_url
      explicit-resolved

capabilities_reachable_example :
    All
      (λ c.
        reachable platform (providers platform) c.protocol ≡ text_eq c.status (codes "available"))
      capabilities
capabilities_reachable_example = capabilities_reachable platform stamps-start
