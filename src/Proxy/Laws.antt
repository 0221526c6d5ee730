-- ===== src/Proxy/Laws.antt =====
-- A proxy: what is accepted, and what is shown.
use encrypted_dns_skill.Base.{
  false, [], ◌∷◌, Option, none, some, ◌≡◌, ◌≢◌, ◌⊎◌, inl, inr, refl, arith, Bool-cases, not, ◌&&◌,
}
use encrypted_dns_skill.Errors.{Fallible, ok}
use encrypted_dns_skill.Errors.Laws.{>>=-eq-ok, err-ne-ok}
use encrypted_dns_skill.Platform.{Platform, Url, to_lower}
use encrypted_dns_skill.Proxy.{
  check_proxy, accept_url, parse_proxy_url, from_selected, resolve_proxy,
}
use encrypted_dns_skill.Text.{Text, codes, text_eq, is_empty}
use encrypted_dns_skill.Text.Equality.{text_eq_sound, is_empty_sound}

-- An absolute HTTP or HTTPS URL without a path, query or fragment.
pub record IsProxy (u : Url) : Type 0 where
  pub scheme : (u.scheme ≡ codes "http") ⊎ (u.scheme ≡ codes "https")
  pub host : u.host ≢ []
  pub hostname : u.hostname ≢ []
  pub path : (u.path ≡ []) ⊎ (u.path ≡ codes "/")
  pub query : u.raw_query ≡ []
  pub fragment : u.fragment ≡ []

text-ne-empty : (t : Text) → is_empty t ≡ false → t ≢ []
text-ne-empty [] h e = cc
text-ne-empty (c ∷ t) h e = cc

one_of : (t u v : Text) → (not (text_eq t u) && not (text_eq t v)) ≡ false → (t ≡ u) ⊎ (t ≡ v)
one_of t u v h = elim (Bool-cases (text_eq t u)) [
  | inl q ↦ inl (text_eq_sound t u q)
  | inr q ↦ inr (text_eq_sound t v (ground arith))
]

no_path :
    (t : Text)
    → (not (is_empty t) && not (text_eq t (codes "/"))) ≡ false
    → (t ≡ []) ⊎ (t ≡ codes "/")
no_path [] h = inl refl
no_path (c ∷ t) h = inr (text_eq_sound (c ∷ t) (codes "/") (ground arith))

check_proxy-IsProxy :
    (u v : Url)
    → is_empty u.host ≡ false
    → is_empty u.hostname ≡ false
    → check_proxy u ≡ ok v
    → (v ≡ u) × IsProxy u
unfolding check_proxy
check_proxy-IsProxy u v h1 h2 e =
    let s : (not (text_eq u.scheme (codes "http")) && not (text_eq u.scheme (codes "https")))
        ≡ false =
      ground arith in
    let p : (not (is_empty u.path) && not (text_eq u.path (codes "/"))) ≡ false = ground arith in
    (
      ground arith,
      record {
        scheme = one_of _ _ _ s;
        host = text-ne-empty _ h1;
        hostname = text-ne-empty _ h2;
        path = no_path _ p;
        query = is_empty_sound _ (ground arith);
        fragment = is_empty_sound _ (ground arith);
      },
    )

module _ (P : Platform) where
  accept_url-IsProxy : (o : Option Url) (u : Url) → accept_url P o ≡ ok u → IsProxy u
  unfolding accept_url
  accept_url-IsProxy none u h = absurd (err-ne-ok _ _ h)
  accept_url-IsProxy (some v) u h =
      let (e, p) =
        check_proxy-IsProxy (record v { scheme = to_lower P v.scheme }) u (ground arith)
          (ground arith) (ground arith) in
      rw e p

  parse_proxy_url-IsProxy : (raw : Text) (u : Url) → parse_proxy_url P raw ≡ ok u → IsProxy u
  unfolding parse_proxy_url
  parse_proxy_url-IsProxy raw u h = accept_url-IsProxy (P.parse_url raw) u h

  from_selected-IsProxy : (o : Option Url) (u : Url) → from_selected P o ≡ ok (some u) → IsProxy u
  unfolding from_selected
  from_selected-IsProxy none u h = cc
  from_selected-IsProxy (some v) u h =
      let (w, q, e) = >>=-eq-ok (parse_proxy_url P (P.url_string v)) _ h in
      parse_proxy_url-IsProxy (P.url_string v) u (cc (q, e))

  -- Whatever the environment selects, a proxy that is used, be it the explicit one or the
  -- environment's, is an `http` or `https` URL with a host and without a query, a fragment, or a
  -- path other than `/`.
  pub resolve_proxy-IsProxy :
      (from_environment : Url → Fallible (Option Url)) (endpoint : Url) (explicit : Text) (u : Url)
      → resolve_proxy P from_environment endpoint explicit ≡ ok (some u)
      → IsProxy u
  unfolding resolve_proxy
  resolve_proxy-IsProxy from_environment endpoint [] u h =
      let (o, q, e) = >>=-eq-ok (from_environment endpoint) (from_selected P) h in
      from_selected-IsProxy o u e
  resolve_proxy-IsProxy from_environment endpoint (c ∷ explicit) u h =
      let (w, q, e) = >>=-eq-ok (parse_proxy_url P (c ∷ explicit)) _ h in
      parse_proxy_url-IsProxy (c ∷ explicit) u (cc (q, e))
