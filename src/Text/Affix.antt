-- ===== src/Text/Affix.antt =====
-- Prefixes and suffixes.
use encrypted_dns_skill.Base.{
  true, [], ◌∷◌, ◌++◌, ◌≡◌, refl, arith, Bool-cases, inl, inr, ap, length, drop_append, take_append,
  ◌-◌, length-append,
}
use encrypted_dns_skill.Text.{Text, text_eq, has_prefix, has_suffix, trim_prefix, trim_suffix}
use encrypted_dns_skill.Text.Equality.{text_eq_refl, text_eq_sound}

pub has_prefix_append : (p s : Text) → has_prefix (p ++ s) p ≡ true
unfolding has_prefix
has_prefix_append [] [] = refl
has_prefix_append [] (c ∷ s) = refl
has_prefix_append (c ∷ p) s = ground (arith, has_prefix_append p s)

pub trim_prefix_append : (p s : Text) → trim_prefix (p ++ s) p ≡ s
unfolding trim_prefix
trim_prefix_append p s = rw (has_prefix_append p s) (drop_append p s)

pub has_suffix_append : (s p : Text) → has_suffix (s ++ p) p ≡ true
unfolding has_suffix
has_suffix_append [] [] = refl
has_suffix_append [] (c ∷ p) = rw (text_eq_refl (c ∷ p))
has_suffix_append (c ∷ s) p = ground (arith, has_suffix_append s p)

-- A text with a suffix is some text with the suffix behind it.
pub has_suffix_split : (s p : Text) → has_suffix s p ≡ true → (r : Text) × (s ≡ r ++ p)
unfolding has_suffix
has_suffix_split [] p h = ([], text_eq_sound [] p h)
has_suffix_split (c ∷ s) p h = elim (Bool-cases (text_eq (c ∷ s) p)) [
  | inl e ↦ ([], text_eq_sound (c ∷ s) p e)
  | inr e ↦ let (r, q) = has_suffix_split s p (ground arith) in (c ∷ r, ap (◌∷◌ c) q)
]

pub trim_suffix_append : (s p : Text) → trim_suffix (s ++ p) p ≡ s
unfolding trim_suffix
trim_suffix_append s p =
    let e : length (s ++ p) - length p ≡ length s = omega (arith, length-append {0} s p) in
    rw (has_suffix_append s p, e) (take_append s p)
