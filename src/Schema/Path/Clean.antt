-- ===== src/Schema/Path/Clean.antt =====
-- The parent of an absolute path is shorter, but for the root, which is its own parent.
use encrypted_dns_skill.Base.{
  ℕ, suc, ◌+◌, ◌≤◌, ◌<◌, true, false, List, [], ◌∷◌, ◌++◌, ◌≡◌, ◌⊎◌, refl, ap, ◌∙◌, Bool, inl, inr,
  arith, ◌==◌, length, length-append, Bool-cases,
}
use encrypted_dns_skill.Schema.Path.{
  push_element, push_elements, stack_text, or_text, clean, up_to_slash, dir_of,
}
use encrypted_dns_skill.Text.Equality.{text_eq_sound}
use encrypted_dns_skill.Text.{Text, codes, text_eq, is_empty, split, split_from}

-- The length of the elements, with a slash for each.
weight : List Text → ℕ
weight [] = 0
weight (x ∷ l) = suc (length x) + weight l

length-stack_text : (stack : List Text) → length (stack_text stack) ≡ weight stack
unfolding stack_text weight
length-stack_text [] = refl
length-stack_text (x ∷ stack) =
    omega (arith, length-append {0} (stack_text stack) (b'/' ∷ x), length-stack_text stack)

length-dots : (x : Text) → text_eq x (codes "..") ≡ true → length x ≡ 2
length-dots x h = ap length (text_eq_sound x (codes "..") h)

weight-push_element :
    (x : Text) (stack : List Text)
    → weight (push_element true x stack) ≤ weight stack + suc (length x)
unfolding weight push_element
weight-push_element x [] = ground arith
weight-push_element x (y ∷ stack) = ground (arith, length-dots x)

weight-push_elements :
    (xs stack : List Text) → weight (push_elements true xs stack) ≤ weight stack + weight xs
unfolding push_elements weight
weight-push_elements [] stack = omega arith
weight-push_elements (x ∷ xs) stack =
    omega (arith, weight-push_elements xs (push_element true x stack), weight-push_element x stack)

push_elements-append :
    (rooted : Bool) (xs ys stack : List Text)
    → push_elements rooted (xs ++ ys) stack
      ≡ push_elements rooted ys (push_elements rooted xs stack)
unfolding push_elements
push_elements-append rooted [] ys stack = refl
push_elements-append rooted (x ∷ xs) ys stack =
    push_elements-append rooted xs ys (push_element rooted x stack)

split_from_last :
    (sep : ℕ) (cur s : Text) → split_from sep cur (s ++ sep ∷ []) ≡ split_from sep cur s ++ [] ∷ []
unfolding split_from
split_from_last sep cur [] = ground arith
split_from_last sep cur (c ∷ s) =
    ground (arith, split_from_last sep [] s, split_from_last sep (cur ++ c ∷ []) s)

weight-split_from :
    (sep : ℕ) (cur s : Text) → weight (split_from sep cur s) ≡ suc (length cur + length s)
unfolding split_from weight
weight-split_from sep cur [] = omega arith
weight-split_from sep cur (c ∷ s) = ground (
  arith,
  weight-split_from sep [] s,
  weight-split_from sep (cur ++ c ∷ []) s,
  length-append {0} cur (c ∷ []),
)

-- The stack of a path that begins and ends with a slash.
abbrev stack_of : Text → List Text
stack_of path = push_elements true (split path b'/') []

weight-stack_of : (u : Text) → weight (stack_of (b'/' ∷ (u ++ b'/' ∷ []))) ≤ suc (length u)
unfolding split split_from push_elements push_element weight
weight-stack_of u = rw (split_from_last b'/' [] u) (
    rw (push_elements-append true (split_from b'/' [] u) ([] ∷ []) [])
      (omega (arith, weight-split_from b'/' [] u, weight-push_elements (split_from b'/' [] u) [])))

stack_text-rooted :
    (x : Text) (stack : List Text) → (r : Text) × (stack_text (x ∷ stack) ≡ b'/' ∷ r)
unfolding stack_text
stack_text-rooted x [] = (x, refl)
stack_text-rooted x (y ∷ stack) =
    let (r, e) = stack_text-rooted y stack in (r ++ b'/' ∷ x, rw e refl)

-- The path of a stack begins with a slash.
rooted_text : (stack : List Text) → (r : Text) × (or_text (stack_text stack) (codes "/") ≡ b'/' ∷ r)
unfolding stack_text
rooted_text [] = ([], refl)
rooted_text (x ∷ stack) = let (r, e) = stack_text-rooted x stack in (r, rw e refl)

length-rooted_text :
    (stack : List Text) (m : ℕ)
    → weight stack ≤ suc m
    → length (or_text (stack_text stack) (codes "/")) ≤ suc m
unfolding stack_text weight
length-rooted_text [] m h = omega arith
length-rooted_text (x ∷ stack) m h =
    let (r, e) = stack_text-rooted x stack in
    rw e (omega (arith, ap length e, length-stack_text (x ∷ stack)))

is_empty-append : (u v : Text) (c : ℕ) → is_empty (u ++ c ∷ v) ≡ false
is_empty-append [] v c = refl
is_empty-append (d ∷ u) v c = refl

up_to_slash_more :
    (c : ℕ) (s u : Text)
    → up_to_slash s ≡ u ++ b'/' ∷ []
    → up_to_slash (c ∷ s) ≡ c ∷ (u ++ b'/' ∷ [])
unfolding up_to_slash
up_to_slash_more c s u q = rw (q, is_empty-append)

-- Up to the last slash there is nothing, or a front that ends with it.
up_to_slash-cases :
    (s : Text)
    → (up_to_slash s ≡ [])
      ⊎ ((u : Text) × (up_to_slash s ≡ u ++ b'/' ∷ []) × (suc (length u) ≤ length s))
unfolding up_to_slash
up_to_slash-cases [] = inl refl
up_to_slash-cases (c ∷ s) = elim (up_to_slash-cases s) [
  | inr (u, q, short) ↦ inr (c ∷ u, up_to_slash_more c s u q, omega arith)
  | inl q ↦ elim (Bool-cases (c == b'/')) [
    | inl k ↦
        let e : c ≡ b'/' = ground arith in
        inr ([], rw (q, up_to_slash, k) (ap (λ x. x ∷ []) e), omega arith)
    | inr k ↦ inl (rw (q, up_to_slash, k))
  ]
]

length-clean_slash : (u : Text) → length (clean (b'/' ∷ (u ++ b'/' ∷ []))) ≤ suc (length u)
unfolding clean
length-clean_slash u = length-rooted_text _ (length u) (weight-stack_of u)

clean_root : clean (codes "/") ≡ codes "/"
unfolding clean split split_from push_elements push_element stack_text
clean_root = refl

-- The parent of an absolute path, by the last slash behind its first.
dir_of-cases :
    (s : Text)
    → (dir_of (b'/' ∷ s) ≡ codes "/")
      ⊎ ((u : Text) × (dir_of (b'/' ∷ s) ≡ clean (b'/' ∷ (u ++ b'/' ∷ [])))
          × (suc (length u) ≤ length s))
unfolding dir_of up_to_slash
dir_of-cases s = elim (up_to_slash-cases s) [
  | inl q ↦ inl (rw (q, up_to_slash) clean_root)
  | inr (u, q, short) ↦ inr (u, ap clean (up_to_slash_more b'/' s u q), short)
]

-- The parent of an absolute path is an absolute path.
pub dir_of-rooted : (s : Text) → (r : Text) × (dir_of (b'/' ∷ s) ≡ b'/' ∷ r)
unfolding clean
dir_of-rooted s = elim (dir_of-cases s) [
  | inl q ↦ ([], q)
  | inr (u, q, short) ↦ let (r, e) = rooted_text _ in (r, q ∙ e)
]

-- The parent of an absolute path is the path itself, where this is the root, or is shorter.
pub dir_of_shorter :
    (s : Text) → (dir_of (b'/' ∷ s) ≡ b'/' ∷ s) ⊎ (length (dir_of (b'/' ∷ s)) < length (b'/' ∷ s))
dir_of_shorter s = elim (dir_of-cases s) [
  | inr (u, q, short) ↦ inr (rw q (omega (arith, length-clean_slash u)))
  | inl q ↦ shorter_root s q
]
  where
    shorter_root :
        (s : Text)
        → dir_of (b'/' ∷ s) ≡ codes "/"
        → (dir_of (b'/' ∷ s) ≡ b'/' ∷ s) ⊎ (length (dir_of (b'/' ∷ s)) < length (b'/' ∷ s))
    shorter_root [] q = inl q
    shorter_root (c ∷ s) q = inr (rw q (omega arith))
