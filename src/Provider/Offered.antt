-- ===== src/Provider/Offered.antt =====
-- Which protocols each provider offers.
use encrypted_dns_skill.Base.{
  ℕ, Bool, true, false, ◌||◌, List, [], ◌∷◌, ◌≡◌, ◌≢◌, inl, inr, refl, if◌then◌else◌,
}
use encrypted_dns_skill.Errors.{Fallible, ok, err, is_ok, protocol_unavailable}
use encrypted_dns_skill.Platform.{Platform, to_lower}
use encrypted_dns_skill.Provider.{
  Provider, providers, find_provider, endpoint, raw_endpoint, is_unsupported, require_endpoint,
  cloudflare, google, quad9, adguard,
}
use encrypted_dns_skill.Text.{Text, Bytes, codes, text_eq, has_prefix}
use encrypted_dns_skill.Text.Equality.{text-cases}
use mathlib.Core.Bool.{false≢true}
use mathlib.Core.List.{cons-ne-nil}
use encrypted_dns_skill.Provider.Laws.{find_provider-All}

-- The table of README.md: the protocols of each resolver.
unfoldable pub offered : Text → List Text
offered id =
    if text_eq id (codes "cloudflare") || text_eq id (codes "google")
    then codes "doh" ∷ codes "dot" ∷ codes "doh3" ∷ []
    else if text_eq id (codes "quad9")
    then codes "doh" ∷ codes "dot" ∷ []
    else codes "doh" ∷ codes "dot" ∷ codes "doq" ∷ codes "dnscrypt" ∷ []

unfoldable pub contains : List Text → Text → Bool
contains [] t = false
contains (s ∷ l) t = text_eq t s || contains l t

-- Which of the names of the switch a text is.
data IsProtocol (l : Text) : Type 0 where
  is_doh : l ≡ codes "doh" → IsProtocol l
  is_dot : l ≡ codes "dot" → IsProtocol l
  is_doq : l ≡ codes "doq" → IsProtocol l
  is_doh3 : l ≡ codes "doh3" → IsProtocol l
  is_dnscrypt : l ≡ codes "dnscrypt" → IsProtocol l
  is_other :
      text_eq l (codes "doh") ≡ false
      → text_eq l (codes "dot") ≡ false
      → text_eq l (codes "doq") ≡ false
      → text_eq l (codes "doh3") ≡ false
      → text_eq l (codes "dnscrypt") ≡ false
      → IsProtocol l

is_protocol : (l : Text) → IsProtocol l
is_protocol l = elim (text-cases l (codes "doh")) [
  | inl e ↦ is_doh e
  | inr n1 ↦ elim (text-cases l (codes "dot")) [
    | inl e ↦ is_dot e
    | inr n2 ↦ elim (text-cases l (codes "doq")) [
      | inl e ↦ is_doq e
      | inr n3 ↦ elim (text-cases l (codes "doh3")) [
        | inl e ↦ is_doh3 e
        | inr n4 ↦ elim (text-cases l (codes "dnscrypt")) [
          | inl e ↦ is_dnscrypt e
          | inr n5 ↦ is_other n1 n2 n3 n4 n5
        ]
      ]
    ]
  ]
]

raw_endpoint_other :
    (P : Platform) (p : Provider) (protocol l : Text)
    → text_eq l (codes "doh") ≡ false
    → text_eq l (codes "dot") ≡ false
    → text_eq l (codes "doq") ≡ false
    → text_eq l (codes "doh3") ≡ false
    → text_eq l (codes "dnscrypt") ≡ false
    → raw_endpoint P p protocol l ≡ err (protocol_unavailable protocol)
unfolding raw_endpoint
raw_endpoint_other P p protocol l n1 n2 n3 n4 n5 = rw (n1, n2, n3, n4, n5)

-- The endpoint is a text that is not empty, or the error is an `UnsupportedError`.
pub settled : Fallible Text → Bool
settled (ok []) = false
settled (ok (c ∷ s)) = true
settled (err e) = is_unsupported e

require_endpoint_some :
    (P : Platform) (p : Provider) (protocol s : Text)
    → s ≢ []
    → (is_ok (require_endpoint P p protocol (ok s)) ≡ true)
      × (settled (require_endpoint P p protocol (ok s)) ≡ true)
unfolding settled
require_endpoint_some P p protocol [] h = absurd (h refl)
require_endpoint_some P p protocol (c ∷ s) h = (refl, refl)

-- What the package dnsstamps documents of a stamp: it begins with `sdns://`.
abbrev pub StampsStart : Platform → Type 0
StampsStart P =
    (addr : Text) (key : Bytes) (name : Text) (properties : ℕ)
    → has_prefix (P.stamp_string addr key name properties) (codes "sdns://") ≡ true

has_prefix-ne-nil : (s : Text) (c : ℕ) (p : Text) → has_prefix s (c ∷ p) ≡ true → s ≢ []
unfolding has_prefix
has_prefix-ne-nil [] c p h = absurd (false≢true h)
has_prefix-ne-nil (d ∷ s) c p h = cons-ne-nil d s

module _ (P : Platform) (protocol : Text) where
  abbrev Answers : List Text → Text → Provider → Type 0
  Answers l lowered p =
      let r = require_endpoint P p protocol (raw_endpoint P p protocol lowered) in
      (is_ok r ≡ contains l lowered) × (settled r ≡ true)

  cloudflare-Answers :
      {l : Text} → IsProtocol l → Answers (offered (codes "cloudflare")) l cloudflare
  unfolding raw_endpoint cloudflare offered contains settled is_unsupported text_eq
  cloudflare-Answers (is_doh e) = rw e (refl, refl)
  cloudflare-Answers (is_dot e) = rw e (refl, refl)
  cloudflare-Answers (is_doq e) = rw e (refl, refl)
  cloudflare-Answers (is_doh3 e) = rw e (refl, refl)
  cloudflare-Answers (is_dnscrypt e) = rw e (refl, refl)
  cloudflare-Answers (is_other n1 n2 n3 n4 n5) = simp (n1, n2, n3, n4, n5) (refl, refl)

  google-Answers : {l : Text} → IsProtocol l → Answers (offered (codes "google")) l google
  unfolding raw_endpoint google offered contains settled is_unsupported text_eq
  google-Answers (is_doh e) = rw e (refl, refl)
  google-Answers (is_dot e) = rw e (refl, refl)
  google-Answers (is_doq e) = rw e (refl, refl)
  google-Answers (is_doh3 e) = rw e (refl, refl)
  google-Answers (is_dnscrypt e) = rw e (refl, refl)
  google-Answers (is_other n1 n2 n3 n4 n5) = simp (n1, n2, n3, n4, n5) (refl, refl)

  quad9-Answers : {l : Text} → IsProtocol l → Answers (offered (codes "quad9")) l quad9
  unfolding raw_endpoint quad9 offered contains settled is_unsupported text_eq
  quad9-Answers (is_doh e) = rw e (refl, refl)
  quad9-Answers (is_dot e) = rw e (refl, refl)
  quad9-Answers (is_doq e) = rw e (refl, refl)
  quad9-Answers (is_doh3 e) = rw e (refl, refl)
  quad9-Answers (is_dnscrypt e) = rw e (refl, refl)
  quad9-Answers (is_other n1 n2 n3 n4 n5) = simp (n1, n2, n3, n4, n5) (refl, refl)

module _ (P : Platform) (stamps : StampsStart P) (protocol : Text) where
  adguard-Answers :
      {l : Text} → IsProtocol l → Answers P protocol (offered (codes "adguard")) l (adguard P)
  unfolding raw_endpoint adguard offered contains settled is_unsupported text_eq
  adguard-Answers (is_doh e) = rw e (refl, refl)
  adguard-Answers (is_dot e) = rw e (refl, refl)
  adguard-Answers (is_doq e) = rw e (refl, refl)
  adguard-Answers (is_doh3 e) = rw e (refl, refl)
  adguard-Answers (is_dnscrypt e) =
      rw e
        (require_endpoint_some P (adguard P) protocol _ (has_prefix-ne-nil _ _ _ (stamps _ _ _ _)))
  adguard-Answers (is_other n1 n2 n3 n4 n5) = simp (n1, n2, n3, n4, n5) (refl, refl)

  -- For every resolver that `FindProvider` returns, `Endpoint` succeeds for exactly the protocols
  -- that README.md lists for it, in any case of their letters; a result is not empty, and every
  -- error is an `UnsupportedError`. The package dnsstamps is taken to begin each stamp with
  -- `sdns://`.
  pub endpoint_offered :
      (name : Text) {p : Provider}
      → find_provider P name ≡ ok p
      → (is_ok (endpoint P p protocol) ≡ contains (offered (to_lower P name)) (to_lower P protocol))
        × (settled (endpoint P p protocol) ≡ true)
  unfolding endpoint providers
  endpoint_offered name {p} found =
      let l = is_protocol (to_lower P protocol) in
      find_provider-All P (λ id q. Answers P protocol (offered id) (to_lower P protocol) q) name
        (
          cloudflare-Answers P protocol l,
          (google-Answers P protocol l, (quad9-Answers P protocol l, (adguard-Answers l, tt))),
        )
        found

  pub adguard_dnscrypt :
      is_ok (
        require_endpoint P
          (adguard P)
          protocol
          (raw_endpoint P (adguard P) protocol (codes "dnscrypt")))
      ≡ true
  unfolding contains offered text_eq
  adguard_dnscrypt = (adguard-Answers (is_dnscrypt refl)).0
