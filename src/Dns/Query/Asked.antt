-- ===== src/Dns/Query/Asked.antt =====
-- What `BuildQuery` asks.
use encrypted_dns_skill.Base.{
  ℕ, ◌+◌, ◌*◌, ◌<◌, true, false, List, [], ◌∷◌, ◌++◌, ◌≡◌, ◌≢◌, refl, sym, ap, ◌∙◌, some, inl, inr,
  arith, zero, suc, some-injective, All, Bool-cases, length, take, drop, take-append-drop,
  length-drop,
}
use encrypted_dns_skill.Dns.Message.{Message}
use encrypted_dns_skill.Dns.Name.{canonical_name}
use encrypted_dns_skill.Dns.Name.Laws.{IsPublicName, canonical_name-IsPublicName}
use encrypted_dns_skill.Dns.Query.{
  Random, Built, ptr_name, question_name, query_message, build_query,
}
use encrypted_dns_skill.Dns.Query.Laws.{build_query-IsBuilt, from_option-eq-ok}
use encrypted_dns_skill.Dns.Reverse.{mapped_prefix, v4_of, unmap}
use encrypted_dns_skill.Dns.Reverse.RoundTrip.{
  IsAddr, without_zone, read_reverse, read_reverse-reverse_name,
}
use encrypted_dns_skill.Dns.Tables.{record_types, lookup_type, record_type}
use encrypted_dns_skill.Errors.{ok}
use encrypted_dns_skill.Errors.Laws.{>>=-eq-ok, ok-injective}
use encrypted_dns_skill.Platform.{Platform, Addr, v4, v6, to_upper, trim_space}
use encrypted_dns_skill.Text.{Text, Bytes, codes, text_eq}
use mathlib.Core.Path.{subst}
use encrypted_dns_skill.Text.Equality.{text_eq_sound, text_eq_complete}

-- The numbers of the record types, as IANA assigns them.
pub data IsTypeNumber : Text → ℕ → Type 0 where
  type_a : IsTypeNumber (codes "A") 1
  type_aaaa : IsTypeNumber (codes "AAAA") 28
  type_cname : IsTypeNumber (codes "CNAME") 5
  type_mx : IsTypeNumber (codes "MX") 15
  type_txt : IsTypeNumber (codes "TXT") 16
  type_ns : IsTypeNumber (codes "NS") 2
  type_soa : IsTypeNumber (codes "SOA") 6
  type_caa : IsTypeNumber (codes "CAA") 257
  type_srv : IsTypeNumber (codes "SRV") 33
  type_svcb : IsTypeNumber (codes "SVCB") 64
  type_https : IsTypeNumber (codes "HTTPS") 65
  type_ptr : IsTypeNumber (codes "PTR") 12

-- An address, and the IPv4 address that it maps or itself.
pub data IsUnmapped : Addr → Addr → Type 0 where
  mapped :
      (a b c d : ℕ) (zone : Text)
      → IsUnmapped (v6 (mapped_prefix ++ a ∷ b ∷ c ∷ d ∷ []) zone) (v4 a b c d)
  is_v4 : (a b c d : ℕ) → IsUnmapped (v4 a b c d) (v4 a b c d)
  is_v6 :
      (bytes : Bytes) (zone : Text)
      → take 12 bytes ≢ mapped_prefix
      → IsUnmapped (v6 bytes zone) (v6 bytes zone)

-- The name that is asked for. For PTR it is a name that reads back as the address in the input;
-- for all other types it is the canonical name.
pub data IsQueryName (P : Platform) (qtype input name : Text) : Type 0 where
  reversed :
      (address plain : Addr)
      → qtype ≡ codes "PTR"
      → P.parse_addr (trim_space P input) ≡ some address
      → IsUnmapped address plain
      → read_reverse name ≡ some (without_zone plain)
      → IsQueryName P qtype input name
  public :
      qtype ≢ codes "PTR"
      → canonical_name P input ≡ ok name
      → IsPublicName name
      → IsQueryName P qtype input name

-- The package netip gives addresses of bytes, and of sixteen of them for IPv6.
abbrev pub ParsesAddrs : Platform → Type 0
ParsesAddrs P = (s : Text) (address : Addr) → P.parse_addr s ≡ some address → IsAddr address

-- A query that asks one question.
pub record IsAskedQuery (P : Platform) (random : Random) (name rtype : Text) (b : Built)
    : Type 0 where
  pub type_number : ℕ
  pub dns_name : Text
  pub high : ℕ
  pub low : ℕ
  pub message : Message
  pub typed : b.query.qtype ≡ to_upper P rtype
  pub numbered : IsTypeNumber b.query.qtype type_number
  pub asked_name : IsQueryName P b.query.qtype name b.query.name
  pub dns_named : P.new_name (b.query.name ++ codes ".") ≡ some dns_name
  pub drawn : random ≡ some (high, low)
  pub identified : b.id ≡ high * 256 + low
  pub packed : P.pack message ≡ some b.wire
  pub same_id : message.header.id ≡ b.id
  pub is_query : (message.header.response ≡ false) × (message.header.op_code ≡ 0)
  pub recursive : message.header.recursion_desired ≡ true
  pub one_question :
      message.questions ≡ record { name = dns_name; qtype = type_number; class = 1 } ∷ []
  pub no_answers : message.answers ≡ []

lookup_type-All :
    (Q : Text → ℕ → Type 0) (k : Text) (m : List (Text × ℕ)) {n : ℕ}
    → All (λ e. Q e.0 e.1) m
    → lookup_type k m ≡ some n
    → Q k n
unfolding lookup_type
lookup_type-All Q k [] all h = cc
lookup_type-All Q k ((j, v) ∷ m) {n} (q, all) h = elim (Bool-cases (text_eq k j)) [
  | inr t ↦ lookup_type-All Q k m all (rw (t, lookup_type) at h)
  | inl t ↦
      let same : v ≡ n = some-injective _ _ (rw (t, lookup_type) at h) in
      rw (text_eq_sound k j t, sym same) q
]

record_type-IsTypeNumber : (k : Text) {n : ℕ} → record_type k ≡ some n → IsTypeNumber k n
unfolding record_type record_types
record_type-IsTypeNumber k h =
    lookup_type-All IsTypeNumber k record_types
      (
        type_a,
        (
          type_aaaa,
          (
            type_cname,
            (
              type_mx,
              (
                type_txt,
                (
                  type_ns,
                  (type_soa, (type_caa, (type_srv, (type_svcb, (type_https, (type_ptr, tt)))))),
                ),
              ),
            ),
          ),
        ),
      )
      h

drop-All : (n : ℕ) (l : Bytes) → All (λ b. b < 256) l → All (λ b. b < 256) (drop n l)
drop-All zero l h = h
drop-All (suc n) [] h = tt
drop-All (suc n) (x ∷ l) (hx, h) = drop-All n l h

mapped-IsUnmapped :
    (front back : Bytes) (zone : Text)
    → front ≡ mapped_prefix
    → length back ≡ 4
    → All (λ b. b < 256) back
    → IsUnmapped (v6 (front ++ back) zone) (v4_of back) × IsAddr (v4_of back)
mapped-IsUnmapped front (a ∷ b ∷ c ∷ d ∷ []) zone e n (ha, (hb, (hc, (hd, h)))) =
    (rw e (mapped a b c d zone), (ha, hb, hc, hd))
mapped-IsUnmapped front [] zone e n h = absurd (omega arith)
mapped-IsUnmapped front (a ∷ []) zone e n h = absurd (omega arith)
mapped-IsUnmapped front (a ∷ b ∷ []) zone e n h = absurd (omega arith)
mapped-IsUnmapped front (a ∷ b ∷ c ∷ []) zone e n h = absurd (omega arith)
mapped-IsUnmapped front (a ∷ b ∷ c ∷ d ∷ x ∷ back) zone e n h = absurd (omega arith)

pub unmap-IsUnmapped : (x : Addr) → IsAddr x → IsUnmapped x (unmap x) × IsAddr (unmap x)
unfolding unmap
unmap-IsUnmapped (v4 a b c d) h = (is_v4 a b c d, h)
unmap-IsUnmapped (v6 bytes zone) (n, h) =
    elim (Bool-cases (text_eq (take 12 bytes) mapped_prefix)) [
      | inr q ↦
          rw (q, unmap) (is_v6 bytes zone (λ e. ground (arith, text_eq_complete _ _ e)), (n, h))
      | inl q ↦
          rw (q, unmap)
            (subst
              (λ x. IsUnmapped (v6 x zone) (v4_of (drop 12 bytes)) × IsAddr (v4_of (drop 12 bytes)))
              (take-append-drop 12 bytes)
              (mapped-IsUnmapped (take 12 bytes) (drop 12 bytes) zone (text_eq_sound _ _ q)
                (length-drop {0} 12 bytes ∙ omega (arith, n)) (drop-All 12 bytes h)))
    ]

ptr_name-IsQueryName :
    (P : Platform) (input name : Text)
    → ParsesAddrs P
    → ptr_name P input ≡ ok name
    → IsQueryName P (codes "PTR") input name
unfolding ptr_name
ptr_name-IsQueryName P input name parses h =
    let (address, q, made) = >>=-eq-ok _ _ h in
    let parsed = from_option-eq-ok _ _ q in
    let (plain, good) = unmap-IsUnmapped address (parses _ address parsed) in
    reversed address (unmap address) refl parsed plain
      (ap read_reverse (sym (ok-injective made)) ∙ read_reverse-reverse_name (unmap address) good)

question_name-IsQueryName :
    (P : Platform) (qtype input name : Text)
    → ParsesAddrs P
    → question_name P qtype input ≡ ok name
    → IsQueryName P qtype input name
unfolding question_name
question_name-IsQueryName P qtype input name parses h =
    elim (Bool-cases (text_eq qtype (codes "PTR"))) [
      | inl q ↦
          rw (text_eq_sound _ _ q)
            (ptr_name-IsQueryName P input name parses (rw (q, question_name) at h))
      | inr q ↦
          let made = rw (q, question_name) at h in
          public (λ e. ground (arith, text_eq_complete _ _ e)) made
            (canonical_name-IsPublicName P input name made).3
    ]

-- Where `BuildQuery` returns without an error, the record type in capitals is one of the twelve
-- that are supported, with the number that IANA assigned to it. For PTR the input without its
-- surrounding space is an address, and the name reads back, by RFC 1035 or RFC 3596, as this
-- address without its zone, or as the IPv4 address that it maps; for all other types the name is
-- the canonical name and a public one. The ID is the two random bytes, and the wire is a packed
-- message that asks one question, for this name, type and the class IN, with recursion desired.
-- The package netip is taken to give addresses of bytes, sixteen of them for IPv6.
pub build_query_sound :
    (P : Platform) (random : Random) (name rtype : Text) (b : Built)
    → ParsesAddrs P
    → build_query P random name rtype ≡ ok b
    → IsAskedQuery P random name rtype b
unfolding query_message
build_query_sound P random name rtype b parses h =
    let made = build_query-IsBuilt P random name rtype b h in
    record {
      type_number = made.type_number;
      dns_name = made.dns_name;
      high = made.high;
      low = made.low;
      message = query_message b.id made.dns_name made.type_number;
      typed = made.typed;
      numbered = rw made.typed (record_type-IsTypeNumber _ made.numbered);
      asked_name =
          question_name-IsQueryName P b.query.qtype name b.query.name parses
            (rw made.typed made.canonical);
      dns_named = made.named;
      drawn = made.drawn;
      identified = made.identified;
      packed = made.packed;
      same_id = refl;
      is_query = (refl, refl);
      recursive = refl;
      one_question = refl;
      no_answers = refl;
    }
