-- ===== src/Capability/Laws.antt =====
-- What the list of capabilities promises.
use encrypted_dns_skill.Base.{Bool, false, ◌||◌, List, [], ◌∷◌, ◌≡◌, refl, All}
use encrypted_dns_skill.Capability.{capabilities}
use encrypted_dns_skill.Errors.{is_ok}
use encrypted_dns_skill.Platform.{Platform}
use encrypted_dns_skill.Provider.{Provider, providers, endpoint}
use encrypted_dns_skill.Provider.Offered.{StampsStart, adguard_dnscrypt}
use encrypted_dns_skill.Text.{Text, codes, text_eq}

-- Whether some resolver of the map has an endpoint for the protocol.
pub reachable : Platform → List (Text × Provider) → Text → Bool
reachable P [] protocol = false
reachable P ((id, p) ∷ m) protocol = is_ok (endpoint P p protocol) || reachable P m protocol

-- A protocol is listed as `available` if and only if some built-in resolver has an endpoint for
-- it; those listed as `research` have none. Each stamp is taken to begin with `sdns://`.
pub capabilities_reachable :
    (P : Platform)
    → StampsStart P
    → All
        (λ c. reachable P (providers P) c.protocol ≡ text_eq c.status (codes "available"))
        capabilities
unfolding capabilities reachable providers endpoint text_eq
capabilities_reachable P stamps = (
  refl,
  (refl, (refl, (refl, (rw (adguard_dnscrypt P stamps (codes "dnscrypt")), (refl, (refl, tt)))))),
)
