-- ===== src/Text/Split.antt =====
-- `split` and `cut`: the parts spell the text.
use encrypted_dns_skill.Base.{
  ℕ, true, false, List, [], ◌∷◌, ◌++◌, ◌≡◌, ◌≢◌, refl, arith, All, append_assoc, append-nil,
}
use encrypted_dns_skill.Text.{Text, split_from, split, cut}

-- A text that does not hold the byte.
abbrev pub Lacks : ℕ → Text → Type 0
Lacks b = All (λ c. c ≢ b)

-- `strings.Join(parts, sep)`
unfoldable pub join : List Text → ℕ → Text
join [] sep = []
join (p ∷ []) sep = p
join (p ∷ q ∷ ps) sep = p ++ sep ∷ join (q ∷ ps) sep

split_from-Lacks : (sep : ℕ) (cur s : Text) → Lacks sep s → split_from sep cur s ≡ (cur ++ s) ∷ []
unfolding split_from
split_from-Lacks sep cur [] h = rw append-nil
split_from-Lacks sep cur (c ∷ s) (ne, h) =
    ground (arith, split_from-Lacks sep (cur ++ c ∷ []) s h, append_assoc cur (c ∷ []) s)

split_from_at :
    (sep : ℕ) (cur p s : Text)
    → Lacks sep p
    → split_from sep cur (p ++ sep ∷ s) ≡ (cur ++ p) ∷ split_from sep [] s
unfolding split_from
split_from_at sep cur [] s h = ground (arith, append-nil cur)
split_from_at sep cur (c ∷ p) s (ne, h) =
    ground (arith, split_from_at sep (cur ++ c ∷ []) p s h, append_assoc cur (c ∷ []) p)

-- Splitting a join gives the parts back.
pub split-join :
    (p : Text) (ps : List Text) (sep : ℕ)
    → All (Lacks sep) (p ∷ ps)
    → split (join (p ∷ ps) sep) sep ≡ p ∷ ps
unfolding split join
split-join p [] sep (hp, _) = split_from-Lacks sep [] p hp
split-join p (q ∷ ps) sep (hp, hs) =
    rw (split_from_at sep [] p (join (q ∷ ps) sep) hp) (ground (arith, split-join q ps sep hs))

pub cut_at : (p s : Text) (sep : ℕ) → Lacks sep p → cut (p ++ sep ∷ s) sep ≡ (p, s, true)
unfolding cut
cut_at [] s sep h = ground arith
cut_at (c ∷ p) s sep (ne, h) = ground (arith, cut_at p s sep h)

pub cut-Lacks : (p : Text) (sep : ℕ) → Lacks sep p → cut p sep ≡ (p, [], false)
unfolding cut
cut-Lacks [] sep h = refl
cut-Lacks (c ∷ p) sep (ne, h) = ground (arith, cut-Lacks p sep h)
