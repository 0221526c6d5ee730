-- ===== src/Redirect/Chain.antt =====
-- The requests of one exchange over HTTPS: `net/http` asks the policy before it follows a redirect,
-- with the requests that were made before, the first among them.
use encrypted_dns_skill.Base.{ℕ, suc, ◌≤◌, true, List, [], ◌∷◌, ◌≡◌, arith, All, length}
use encrypted_dns_skill.Errors.{ok}
use encrypted_dns_skill.Platform.{Platform, Url, equal_fold}
use encrypted_dns_skill.Redirect.{check_redirect}
use encrypted_dns_skill.Text.{Text, codes}
use encrypted_dns_skill.Text.Equality.{text_eq_sound}

-- The redirects that are followed behind a first request, the last of them in front.
pub data IsFollowed (P : Platform) (label origin : Text) : List Url → Type 0 where
  first : IsFollowed P label origin []
  follow :
      {urls : List Url} (url : Url)
      → IsFollowed P label origin urls
      → check_redirect P label origin url (suc (length urls)) ≡ ok tt
      → IsFollowed P label origin (url ∷ urls)

-- A URL of the scheme `https` on the host.
abbrev pub IsSameOrigin : Platform → Text → Url → Type 0
IsSameOrigin P origin url = (url.scheme ≡ codes "https") × (equal_fold P url.hostname origin ≡ true)

module _ (P : Platform) (label origin : Text) where
  check_redirect_sound :
      (url : Url) (via : ℕ)
      → check_redirect P label origin url via ≡ ok tt
      → (via ≤ 2) × IsSameOrigin P origin url
  unfolding check_redirect
  check_redirect_sound url via h = ground (arith, text_eq_sound url.scheme (codes "https"))

  -- However a server redirects, one exchange makes at most three requests, and all behind the first
  -- go to the host of the endpoint by HTTPS. The package `net/http` is taken to ask the policy
  -- before each redirect that it follows, with the number of requests that were made.
  pub followed-IsSameOrigin :
      {urls : List Url}
      → IsFollowed P label origin urls
      → (suc (length urls) ≤ 3) × All (IsSameOrigin P origin) urls
  followed-IsSameOrigin first = (omega arith, tt)
  followed-IsSameOrigin (follow url before h) =
      let (low, same) = check_redirect_sound url _ h in
      (omega arith, (same, (followed-IsSameOrigin before).1))
