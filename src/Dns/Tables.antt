-- ===== src/Dns/Tables.antt =====
-- internal/edns/dns.go: the tables of record types and of response codes.
pub mod RoundTrip
use encrypted_dns_skill.Base.{
  ℕ, Bool, true, false, List, [], ◌∷◌, ◌++◌, Option, none, some, ◌==◌, if◌then◌else◌,
}
use encrypted_dns_skill.Platform.{Platform, to_lower, to_upper}
use encrypted_dns_skill.Text.{Text, codes, text_eq, decimal, trim_suffix}

abbrev pub caa_type : ℕ
caa_type = 257

-- `dnsmessage.ClassINET`
abbrev pub class_inet : ℕ
class_inet = 1

-- The map `recordTypes`; the numbers are those of the constants of dnsmessage.
unfoldable pub record_types : List (Text × ℕ)
record_types =
    (codes "A", 1)
    ∷ (codes "AAAA", 28)
    ∷ (codes "CNAME", 5)
    ∷ (codes "MX", 15)
    ∷ (codes "TXT", 16)
    ∷ (codes "NS", 2)
    ∷ (codes "SOA", 6)
    ∷ (codes "CAA", caa_type)
    ∷ (codes "SRV", 33)
    ∷ (codes "SVCB", 64)
    ∷ (codes "HTTPS", 65)
    ∷ (codes "PTR", 12)
    ∷ []

unfoldable pub lookup_type : Text → List (Text × ℕ) → Option ℕ
lookup_type k [] = none
lookup_type k ((j, v) ∷ m) = if text_eq k j then some v else lookup_type k m

unfoldable pub record_type : Text → Option ℕ
record_type k = lookup_type k record_types

-- A read of a Go map that does not hold the key gives the zero value.
abbrev pub or_zero : Option ℕ → ℕ
or_zero none = 0
or_zero (some n) = n

abbrev pub is_some {ℓ} : {A : Type ℓ} → Option A → Bool
is_some none = false
is_some (some a) = true

-- The loop of `typeName`, in the order in which the map is ranged over.
unfoldable pub type_name_in : List (Text × ℕ) → ℕ → Text
type_name_in [] t = codes "TYPE" ++ decimal t
type_name_in ((name, value) ∷ m) t = if value == t then name else type_name_in m t

unfoldable pub type_name : ℕ → Text
type_name t = type_name_in record_types t

unfoldable pub rcode_name : ℕ → Text
rcode_name rcode =
    if rcode == 0
    then codes "NOERROR"
    else if rcode == 1
    then codes "FORMERR"
    else if rcode == 2
    then codes "SERVFAIL"
    else if rcode == 3
    then codes "NXDOMAIN"
    else if rcode == 4
    then codes "NOTIMP"
    else if rcode == 5
    then codes "REFUSED"
    else codes "RCODE" ++ decimal rcode

module _ (P : Platform) where
  unfoldable pub is_supported_record_type : Text → Bool
  is_supported_record_type t = is_some (record_type (to_upper P t))

  unfoldable pub trim_root : Text → Text
  trim_root name = trim_suffix (to_lower P name) (codes ".")
