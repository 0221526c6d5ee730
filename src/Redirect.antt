-- ===== src/Redirect.antt =====
-- internal/edns/redirect.go: the policy on redirects of DoH and DoH3. `via` is the number of
-- requests that were made before.
pub mod Chain
use encrypted_dns_skill.Base.{ℕ, not, leb, if◌then◌else◌}
use encrypted_dns_skill.Errors.{
  too_many_redirects, redirect_scheme, redirect_domain, Fallible, ok, err,
}
use encrypted_dns_skill.Platform.{Platform, Url, equal_fold}
use encrypted_dns_skill.Text.{Text, codes, text_eq}

-- `sameOriginHTTPSRedirect`
unfoldable pub check_redirect : Platform → Text → Text → Url → ℕ → Fallible (Unit {0})
check_redirect P label origin_host url via =
    if leb 3 via
    then err (too_many_redirects label)
    else if not (text_eq url.scheme (codes "https"))
    then err (redirect_scheme label)
    else if not (equal_fold P url.hostname origin_host)
    then err (redirect_domain label)
    else ok tt
