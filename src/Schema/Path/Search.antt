-- ===== src/Schema/Path/Search.antt =====
-- `resultSchemaPath`: which path it gives, and that its loop ends.
use encrypted_dns_skill.Base.{
  ℕ, suc, ◌≤◌, Bool, true, false, ◌∷◌, some, ◌≡◌, ◌≢◌, inl, inr, arith, length, Bool-cases,
}
use encrypted_dns_skill.Schema.Path.{dir_of, candidate, fallback, search}
use encrypted_dns_skill.Schema.Path.Clean.{dir_of-rooted, dir_of_shorter}
use encrypted_dns_skill.Text.{Text, text_eq}
use encrypted_dns_skill.Text.Equality.{text-cases, text_eq_complete}

-- The path that is located from a directory: that of the nearest directory, upwards, with the
-- file, and the fallback where none has it up to the one that is its own parent.
pub data IsLocated (exists : Text → Bool) : Text → Text → Type 0 where
  here : {dir : Text} → exists (candidate dir) ≡ true → IsLocated exists dir (candidate dir)
  above :
      {dir path : Text}
      → exists (candidate dir) ≡ false
      → dir_of dir ≢ dir
      → IsLocated exists (dir_of dir) path
      → IsLocated exists dir path
  missing :
      {dir : Text}
      → exists (candidate dir) ≡ false
      → dir_of dir ≡ dir
      → IsLocated exists dir fallback

module _ (exists : Text → Bool) where
  search_found :
      (n : ℕ) (dir : Text)
      → exists (candidate dir) ≡ true
      → search (suc n) exists dir ≡ some (candidate dir)
  unfolding search
  search_found n dir h = rw h

  search_missing :
      (n : ℕ) (dir : Text)
      → exists (candidate dir) ≡ false
      → dir_of dir ≡ dir
      → search (suc n) exists dir ≡ some fallback
  unfolding search
  search_missing n dir h e = rw (h, text_eq_complete (dir_of dir) dir e)

  search_above :
      (n : ℕ) (dir : Text)
      → exists (candidate dir) ≡ false
      → text_eq (dir_of dir) dir ≡ false
      → search (suc n) exists dir ≡ search n exists (dir_of dir)
  unfolding search
  search_above n dir h e = rw (h, e)

  -- From an absolute directory, the loop ends within as many rounds as the path has characters,
  -- and its result is the file of the nearest directory upwards that has it, or the fallback
  -- where none up to the root has.
  pub search-IsLocated :
      (n : ℕ) (s : Text)
      → length (b'/' ∷ s) ≤ n
      → (path : Text) × (search n exists (b'/' ∷ s) ≡ some path) × IsLocated exists (b'/' ∷ s) path
  search-IsLocated ℕ.zero s h = absurd (omega arith)
  search-IsLocated (ℕ.suc n) s h = elim (Bool-cases (exists (candidate (b'/' ∷ s)))) [
    | inl found ↦ (candidate (b'/' ∷ s), search_found n (b'/' ∷ s) found, here found)
    | inr absent ↦ elim (text-cases (dir_of (b'/' ∷ s)) (b'/' ∷ s)) [
      | inl root ↦ (fallback, search_missing n (b'/' ∷ s) absent root, missing absent root)
      | inr q ↦
          let ne : dir_of (b'/' ∷ s) ≢ b'/' ∷ s =
            λ e. let bad = text_eq_complete (dir_of (b'/' ∷ s)) (b'/' ∷ s) e in ground arith in
          let (r, parent) = dir_of-rooted s in
          let shorter : length (b'/' ∷ r) ≤ n = elim (dir_of_shorter s) [
            | inl e ↦ absurd (ne e)
            | inr less ↦ let less' = rw parent at less in omega arith
          ] in
          let (path, e, located) = search-IsLocated n r shorter in
          (
            path,
            rw (search_above n (b'/' ∷ s) absent q, parent) e,
            above absent ne (rw parent located),
          )
    ]
  ]
