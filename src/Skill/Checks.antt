-- ===== src/Skill/Checks.antt =====
-- scripts/validate_skill.py: what each of its tests accepts.
use encrypted_dns_skill.Base.{
  ◌≤◌, Bool, true, false, not, ◌||◌, List, [], ◌∷◌, ◌++◌, ltb, ◌≡◌, ◌≢◌, ◌↔◌, refl, inl, inr, arith,
  All, Bool-cases, length,
}
use encrypted_dns_skill.Skill.{
  Package, SkillError, bad_name, name_mismatch, Metadata, get, match_name, link_target,
  is_elsewhere, is_unsafe, report_if, check_link, check_links, check_files, check_metadata,
}
use encrypted_dns_skill.Skill.Name.{IsName, match_name-IsName}
use encrypted_dns_skill.Text.{Text, codes, text_eq, is_empty}
use encrypted_dns_skill.Text.Equality.{text_eq_sound, text_eq_complete}

-- A link that leads elsewhere, or to a path of the package that stays in it.
pub data IsGoodLink (P : Package) (link : Text) : Type 0 where
  elsewhere : is_elsewhere (link_target link) ≡ true → IsGoodLink P link
  local :
      is_unsafe (link_target link) ≡ false → P.exists (link_target link) ≡ true → IsGoodLink P link

pub record IsGoodMetadata (P : Package) (metadata : Metadata) : Type 0 where
  pub named : IsName (get (codes "name") metadata)
  pub short : length (get (codes "name") metadata) ≤ 64
  pub placed : get (codes "name") metadata ≡ P.directory_name
  pub described : 1 ≤ length (get (codes "description") metadata)
  pub brief : length (get (codes "description") metadata) ≤ 1024

pub append_nil {ℓ} : {A : Type ℓ} (xs ys : List A) → xs ++ ys ≡ [] → (xs ≡ []) × (ys ≡ [])
append_nil [] ys h = (refl, h)
append_nil (x ∷ xs) ys h = cc

pub report_if_nil : (bad : Bool) (e : SkillError) → report_if bad e ≡ [] → bad ≡ false
report_if_nil false e h = refl
report_if_nil true e h = cc

empty_length : (t : Text) → is_empty t ≡ false → 1 ≤ length t
empty_length [] h = absurd (ground arith)
empty_length (c ∷ t) h = omega arith

length_empty : (t : Text) → 1 ≤ length t → is_empty t ≡ false
length_empty [] h = absurd (omega arith)
length_empty (c ∷ t) h = refl

not-false : (b : Bool) → not b ≡ false → b ≡ true
not-false true h = refl
not-false false h = cc

pub nonempty : (t : Text) → is_empty t ≡ false → t ≢ []
nonempty [] h e = cc
nonempty (c ∷ t) h e = cc

pub empty_false : (t : Text) → t ≢ [] → is_empty t ≡ false
empty_false [] h = absurd (h refl)
empty_false (c ∷ t) h = refl

module _ (P : Package) where
  check_link_sound : (link : Text) → check_link P link ≡ [] → IsGoodLink P link
  unfolding check_link
  check_link_sound link h = elim (Bool-cases (is_elsewhere (link_target link))) [
    | inl q ↦ elsewhere q
    | inr q ↦ elim (Bool-cases (is_unsafe (link_target link))) [
      | inl k ↦ let bad = rw (q, k, check_link) at h in cc
      | inr k ↦ local k (not-false _ (report_if_nil _ _ (rw (q, k, check_link) at h)))
    ]
  ]

  check_link_complete : (link : Text) → IsGoodLink P link → check_link P link ≡ []
  unfolding check_link
  check_link_complete link (elsewhere q) = rw (q, check_link) refl
  check_link_complete link (local k e) = elim (Bool-cases (is_elsewhere (link_target link))) [
    | inl q ↦ rw (q, check_link) refl
    | inr q ↦ rw (q, k, e, check_link) refl
  ]

  pub check_links-nil : (links : List Text) → (check_links P links ≡ []) ↔ All (IsGoodLink P) links
  unfolding check_links
  check_links-nil [] = (λ h. tt, λ h. refl)
  check_links-nil (link ∷ links) =
      let (sound, complete) = check_links-nil links in
      (
        λ h.
            let (first, rest) = append_nil (check_link P link) _ h in
            (check_link_sound link first, sound rest),
        λ h. rw (check_link_complete link h.0) (complete h.1),
      )

  pub check_files-nil :
      (paths : List Text) → (check_files P paths ≡ []) ↔ All (λ path. P.is_file path ≡ true) paths
  unfolding check_files
  check_files-nil [] = (λ h. tt, λ h. refl)
  check_files-nil (path ∷ paths) =
      let (sound, complete) = check_files-nil paths in
      (
        λ h.
            let (first, rest) = append_nil (report_if (not (P.is_file path)) _) _ h in
            (not-false _ (report_if_nil _ _ first), sound rest),
        λ h. rw h.0 (complete h.1),
      )

  pub check_metadata_sound :
      (metadata : Metadata) → check_metadata P metadata ≡ [] → IsGoodMetadata P metadata
  unfolding check_metadata
  check_metadata_sound metadata h =
      let name = get (codes "name") metadata in
      let description = get (codes "description") metadata in
      let (front, third) =
        append_nil
          (report_if (not (match_name false name) || ltb 64 (length name)) bad_name
            ++ report_if (not (text_eq name P.directory_name))
                (name_mismatch name P.directory_name))
          _ h in
      let (first, second) =
        append_nil (report_if (not (match_name false name) || ltb 64 (length name)) bad_name) _
          front in
      let shaped = report_if_nil _ _ first in
      let placed = not-false _ (report_if_nil _ _ second) in
      let described = report_if_nil _ _ third in
      record {
        named = (match_name-IsName name).0 (ground arith);
        short = ground arith;
        placed = text_eq_sound name P.directory_name placed;
        described = empty_length description (ground arith);
        brief = ground arith;
      }

  pub check_metadata_complete :
      (metadata : Metadata) → IsGoodMetadata P metadata → check_metadata P metadata ≡ []
  unfolding check_metadata
  check_metadata_complete metadata h =
      let name = get (codes "name") metadata in
      let description = get (codes "description") metadata in
      let long : ltb 64 (length name) ≡ false = (let k = h.short in ground arith) in
      let wordy : ltb 1024 (length description) ≡ false = (let k = h.brief in ground arith) in
      rw
        (
          (match_name-IsName name).1 h.named,
          long,
          text_eq_complete _ _ h.placed,
          wordy,
          length_empty description h.described,
          check_metadata,
        )
        refl
