-- ===== src/Provider/Laws.antt =====
-- What `FindProvider` and `Endpoint` return for the built-in resolvers.
use encrypted_dns_skill.Base.{
  true, false, List, [], ◌∷◌, ◌++◌, some, ◌≡◌, ◌⊎◌, inl, inr, refl, sym, Bool-cases, arith, All,
  length,
}
use encrypted_dns_skill.Errors.{ok}
use encrypted_dns_skill.Platform.{Platform, to_lower}
use encrypted_dns_skill.Provider.{
  Provider, providers, lookup_provider, find_provider, zero_key, is_no_config,
}
use encrypted_dns_skill.Text.{Text, codes, text_eq, has_prefix}
use encrypted_dns_skill.Text.Equality.{text_eq_sound}
use mathlib.Core.Path.{subst₂}
use mathlib.Core.Option.{some-injective}

-- What holds of every entry of a map holds of what a lookup finds.
lookup_provider-All :
    (Q : Text → Provider → Type 0) (k : Text) (m : List (Text × Provider)) {p : Provider}
    → All (λ e. Q e.0 e.1) m
    → lookup_provider k m ≡ some p
    → Q k p
unfolding lookup_provider
lookup_provider-All Q k [] h e = cc
lookup_provider-All Q k ((j, v) ∷ m) {p} (h, hs) e = elim (Bool-cases (text_eq k j)) [
  | inl same ↦
      subst₂ Q (sym (text_eq_sound k j same)) (some-injective v p (rw (same, lookup_provider) at e))
        h
  | inr differ ↦ lookup_provider-All Q k m hs (rw (differ, lookup_provider) at e)
]

pub find_provider-All :
    (P : Platform) (Q : Text → Provider → Type 0) (name : Text) {p : Provider}
    → All (λ e. Q e.0 e.1) (providers P)
    → find_provider P name ≡ ok p
    → Q (to_lower P name) p
unfolding find_provider
find_provider-All P Q name {p} h e = lookup_provider-All Q _ (providers P) h (ground arith)

-- The endpoints of a resolver are bound to its authentication name, and its key is present.
record IsPinned (id : Text) (p : Provider) : Type 0 where
  pub named : p.id ≡ id
  pub doh_https : has_prefix p.doh_url (codes "https://") ≡ true
  pub doh3_same : (p.doh3_url ≡ []) ⊎ (p.doh3_url ≡ p.doh_url)
  pub dot_bound : p.dot_addr ≡ p.dot_name ++ codes ":853"
  pub doq_bound : (p.doq_addr ≡ []) ⊎ (p.doq_addr ≡ p.doq_name ++ codes ":853")
  pub dnscrypt_keyed :
      (is_no_config p.dnscrypt ≡ true)
      ⊎ ((length p.dnscrypt.public_key ≡ 32) × (text_eq p.dnscrypt.public_key zero_key ≡ false))

providers-IsPinned : (P : Platform) → All (λ e. IsPinned e.0 e.1) (providers P)
unfolding providers has_prefix is_no_config text_eq
providers-IsPinned P = (
  record {
    named = refl;
    doh_https = refl;
    doh3_same = inr refl;
    dot_bound = refl;
    doq_bound = inl refl;
    dnscrypt_keyed = inl refl;
  },
  (
    record {
      named = refl;
      doh_https = refl;
      doh3_same = inr refl;
      dot_bound = refl;
      doq_bound = inl refl;
      dnscrypt_keyed = inl refl;
    },
    (
      record {
        named = refl;
        doh_https = refl;
        doh3_same = inl refl;
        dot_bound = refl;
        doq_bound = inl refl;
        dnscrypt_keyed = inl refl;
      },
      (
        record {
          named = refl;
          doh_https = refl;
          doh3_same = inl refl;
          dot_bound = refl;
          doq_bound = inr refl;
          dnscrypt_keyed = inr (refl, refl);
        },
        tt,
      ),
    ),
  ),
)

-- Every resolver that `FindProvider` returns has the lowered name as its identifier, an
-- `https://` URL for DoH, for DoH3 none or the same, port 853 of its authentication name for
-- DoT, for DoQ none or the same kind of address, and for DNSCrypt no configuration or a key of
-- 32 bytes that is not all zero.
find_provider-IsPinned :
    (P : Platform) (name : Text) {p : Provider}
    → find_provider P name ≡ ok p
    → IsPinned (to_lower P name) p
find_provider-IsPinned P name = find_provider-All P IsPinned name (providers-IsPinned P)
