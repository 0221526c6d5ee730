-- ===== src/Dns/Query/Accepts.antt =====
-- `BuildQuery`: the questions that it accepts.
use encrypted_dns_skill.Base.{ℕ, ◌+◌, ◌*◌, false, ◌++◌, some, ◌≡◌, refl}
use encrypted_dns_skill.Dns.Name.{from_option}
use encrypted_dns_skill.Dns.Name.Accepts.{IsAcceptableName, canonical_name-accepted}
use encrypted_dns_skill.Dns.Name.Laws.{IsPublicName}
use encrypted_dns_skill.Dns.Query.{Built, query_message, ptr_name, question_name, build_query}
use encrypted_dns_skill.Dns.Query.Asked.{
  IsTypeNumber, type_a, type_aaaa, type_cname, type_mx, type_txt, type_ns, type_soa, type_caa,
  type_srv, type_svcb, type_https, type_ptr, unmap-IsUnmapped,
}
use encrypted_dns_skill.Dns.Tables.{record_types, lookup_type, record_type}
use encrypted_dns_skill.Errors.{ok}
use encrypted_dns_skill.Dns.Reverse.{reverse_name, unmap}
use encrypted_dns_skill.Dns.Reverse.RoundTrip.{IsAddr}
use encrypted_dns_skill.Platform.{Platform, Addr, to_upper, trim_space}
use encrypted_dns_skill.Text.{Text, codes, text_eq}

-- The package dnsmessage packs a question for a name.
abbrev pub Packs : Platform → Text → Type 0
Packs P name =
    (dns_name : Text) × (P.new_name (name ++ codes ".") ≡ some dns_name)
    × ((id qtype : ℕ) → (wire : Text) × (P.pack (query_message id dns_name qtype) ≡ some wire))

-- It packs one for a public name and for the reverse name of an address.
pub record PacksNames (P : Platform) : Type 0 where
  pub public : (ascii : Text) → IsPublicName ascii → Packs P ascii
  pub reversed : (address : Addr) → IsAddr address → Packs P (reverse_name address)

record_type-IsTypeNumber : {k : Text} {n : ℕ} → IsTypeNumber k n → record_type k ≡ some n
unfolding record_type record_types lookup_type text_eq
record_type-IsTypeNumber type_a = refl
record_type-IsTypeNumber type_aaaa = refl
record_type-IsTypeNumber type_cname = refl
record_type-IsTypeNumber type_mx = refl
record_type-IsTypeNumber type_txt = refl
record_type-IsTypeNumber type_ns = refl
record_type-IsTypeNumber type_soa = refl
record_type-IsTypeNumber type_caa = refl
record_type-IsTypeNumber type_srv = refl
record_type-IsTypeNumber type_svcb = refl
record_type-IsTypeNumber type_https = refl
record_type-IsTypeNumber type_ptr = refl

-- A record type but PTR with a name for it, or PTR with an address.
pub data IsAcceptable (P : Platform) (name rtype : Text) : Type 0 where
  a_name :
      (number : ℕ) (ascii : Text)
      → IsTypeNumber (to_upper P rtype) number
      → text_eq (to_upper P rtype) (codes "PTR") ≡ false
      → IsAcceptableName P name ascii
      → IsAcceptable P name rtype
  an_address :
      (address : Addr)
      → to_upper P rtype ≡ codes "PTR"
      → P.parse_addr (trim_space P name) ≡ some address
      → IsAddr address
      → IsAcceptable P name rtype

-- Each step of `BuildQuery` succeeds.
packed-accepted :
    (P : Platform) (name rtype asked : Text) (number high low : ℕ)
    → record_type (to_upper P rtype) ≡ some number
    → question_name P (to_upper P rtype) name ≡ ok asked
    → Packs P asked
    → (b : Built) × (build_query P (some (high, low)) name rtype ≡ ok b)
unfolding build_query from_option
packed-accepted P name rtype asked number high low typed named (dns_name, made, pack) =
    let (wire, packed) = pack (high * 256 + low) number in
    (
      record {
        wire = wire;
        query = record { name = asked; qtype = to_upper P rtype };
        id = high * 256 + low;
      },
      simp (typed, named, made, packed, build_query, from_option) refl,
    )

pub build_query-accepted :
    (P : Platform) (name rtype : Text) (high low : ℕ)
    → PacksNames P
    → IsAcceptable P name rtype
    → (b : Built) × (build_query P (some (high, low)) name rtype ≡ ok b)
unfolding question_name ptr_name from_option text_eq
build_query-accepted P name rtype high low packs (a_name number ascii typed not_ptr named) =
    packed-accepted P name rtype ascii number high low (record_type-IsTypeNumber typed)
      (rw (not_ptr, question_name) (canonical_name-accepted P name ascii named))
      (packs.public ascii named.public)
build_query-accepted P name rtype high low packs (an_address address ptr parsed good) =
    packed-accepted P name rtype (reverse_name (unmap address)) 12 high low
      (rw ptr (record_type-IsTypeNumber type_ptr)) (rw (ptr, parsed, question_name, ptr_name) refl)
      (packs.reversed (unmap address) (unmap-IsUnmapped address good).1)
