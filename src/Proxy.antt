-- ===== src/Proxy.antt =====
-- internal/edns/proxy.go: the choice of a proxy and what is shown of it. What
-- `http.ProxyFromEnvironment` gives for an endpoint is the argument `from_environment`.
pub mod Laws
use encrypted_dns_skill.Base.{Bool, not, ◌&&◌, ◌||◌, List, [], Option, none, some, if◌then◌else◌}
use encrypted_dns_skill.Errors.{
  Error, proxy_not_absolute, proxy_scheme, proxy_extra_parts, Fallible, ok, err, ◌>>=◌, ◌>>◌,
}
use encrypted_dns_skill.Platform.{Platform, Url, to_lower}
use encrypted_dns_skill.Text.{Text, codes, text_eq, is_empty}

-- The tests of the scheme and of the other parts, on the URL with its scheme lowered.
unfoldable pub check_proxy : Url → Fallible Url
check_proxy url =
    if not (text_eq url.scheme (codes "http")) && not (text_eq url.scheme (codes "https"))
    then err proxy_scheme
    else if not (is_empty url.path) && not (text_eq url.path (codes "/"))
        || not (is_empty url.raw_query)
        || not (is_empty url.fragment)
    then err proxy_extra_parts
    else ok url

module _ (P : Platform) where
  -- What `url.Parse` gave.
  unfoldable pub accept_url : Option Url → Fallible Url
  accept_url none = err proxy_not_absolute
  accept_url (some url) =
      if is_empty url.host || is_empty url.hostname
      then err proxy_not_absolute
      else check_proxy (record url { scheme = to_lower P url.scheme })

  unfoldable pub parse_proxy_url : Text → Fallible Url
  parse_proxy_url raw = accept_url (P.parse_url raw)

  -- `ValidateProxyURL`
  unfoldable pub validate_proxy_url : Text → Fallible (Unit {0})
  validate_proxy_url raw = if is_empty raw then ok tt else parse_proxy_url raw >>= λ _. ok tt

  -- A proxy that the environment selects is checked like an explicit one.
  unfoldable pub from_selected : Option Url → Fallible (Option Url)
  from_selected none = ok none
  from_selected (some url) = do validated ← parse_proxy_url (P.url_string url); ok (some validated)

  unfoldable pub resolve_proxy : (Url → Fallible (Option Url)) → Url → Text → Fallible (Option Url)
  resolve_proxy from_environment endpoint explicit =
      if not (is_empty explicit)
      then (parse_proxy_url explicit >>= λ url. ok (some url))
      else from_environment endpoint >>= from_selected

  -- `proxyDisplayURL`
  unfoldable pub proxy_display_url : Option Url → Text
  proxy_display_url none = []
  proxy_display_url (some url) =
      P.url_string
        (record url { user = none; path = []; raw_path = []; raw_query = []; fragment = [] })
