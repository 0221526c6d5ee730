-- ===== src/Skill/Laws.antt =====
-- scripts/validate_skill.py: the packages that it accepts.
use encrypted_dns_skill.Base.{
  true, List, [], ◌∷◌, ◌++◌, some, ◌≡◌, ◌≢◌, ◌↔◌, refl, inl, inr, All, Bool-cases, Option-cases,
}
use encrypted_dns_skill.Skill.{
  Package, empty_body, skill_file, fence, required_paths, find_fence, read_metadata, outside,
  find_links, report_if, check_files, check_metadata, check_document, check_lines, validate,
}
use encrypted_dns_skill.Skill.Python.{strip, split_lines, join_lines}
use encrypted_dns_skill.Text.{Text, text_eq, is_empty}
use encrypted_dns_skill.Text.Equality.{text_eq_sound, text_eq_complete}
use encrypted_dns_skill.Skill.Checks.{
  IsGoodLink, IsGoodMetadata, append_nil, report_if_nil, nonempty, empty_false, check_links-nil,
  check_files-nil, check_metadata_sound, check_metadata_complete,
}

-- What a package has to be: SKILL.md is a file, which begins with a fence, and a second fence
-- behind it closes the frontmatter.
pub record IsPackage (P : Package) : Type 0 where
  pub present : P.is_file skill_file ≡ true
  pub opening : Text
  pub lines : List Text
  pub front : List Text
  pub body : List Text
  pub split : split_lines [] P.skill_text ≡ opening ∷ lines
  pub opened : strip opening ≡ fence
  pub closed : find_fence lines ≡ some (front, body)
  pub good : IsGoodMetadata P (read_metadata front [])
  pub instructed : strip (join_lines body) ≢ []
  pub complete : All (λ path. P.is_file path ≡ true) required_paths
  pub linked : All (IsGoodLink P) (find_links outside P.skill_text)

module _ (P : Package) where
  check_document-nil :
      (front body : List Text)
      → (check_document P front body ≡ []) ↔ (
          IsGoodMetadata P (read_metadata front [])
          × (strip (join_lines body) ≢ [])
          × All (λ path. P.is_file path ≡ true) required_paths
          × All (IsGoodLink P) (find_links outside P.skill_text))
  unfolding check_document
  check_document-nil front body = (
    λ h.
        let (most, links) =
          append_nil
            (check_metadata P (read_metadata front [])
              ++ report_if (is_empty (strip (join_lines body))) empty_body
              ++ check_files P required_paths)
            _ h in
        let (head, files) =
          append_nil
            (check_metadata P (read_metadata front [])
              ++ report_if (is_empty (strip (join_lines body))) empty_body)
            _ most in
        let (metadata, text) = append_nil (check_metadata P (read_metadata front [])) _ head in
        (
          check_metadata_sound P _ metadata,
          nonempty _ (report_if_nil _ _ text),
          (check_files-nil P required_paths).0 files,
          (check_links-nil P _).0 links,
        ),
    λ (good, text, files, links).
        rw
          (
            check_metadata_complete P _ good,
            empty_false _ text,
            (check_files-nil P required_paths).1 files,
            (check_links-nil P _).1 links,
            check_document,
          )
          refl,
  )

  check_lines_sound :
      (lines : List Text)
      → P.is_file skill_file ≡ true
      → split_lines [] P.skill_text ≡ lines
      → check_lines P lines ≡ []
      → IsPackage P
  unfolding check_lines
  check_lines_sound [] file q h = cc
  check_lines_sound (line ∷ lines) file q h = elim (Bool-cases (text_eq (strip line) fence)) [
    | inr k ↦ let bad = rw (k, check_lines) at h in cc
    | inl k ↦ elim (Option-cases (find_fence lines)) [
      | inl l ↦ let bad = rw (k, l, check_lines) at h in cc
      | inr ((front, body), l) ↦
          let (good, text, files, links) =
            (check_document-nil front body).0 (rw (k, l, check_lines) at h) in
          record {
            present = file;
            opening = line;
            lines = lines;
            front = front;
            body = body;
            split = q;
            opened = text_eq_sound (strip line) fence k;
            closed = l;
            good = good;
            instructed = text;
            complete = files;
            linked = links;
          }
    ]
  ]

  validate_sound : validate P ≡ [] → IsPackage P
  unfolding validate
  validate_sound h = elim (Bool-cases (P.is_file skill_file)) [
    | inr q ↦ let bad = rw (q, validate) at h in cc
    | inl q ↦ check_lines_sound (split_lines [] P.skill_text) q refl (rw (q, validate) at h)
  ]

  validate_complete : IsPackage P → validate P ≡ []
  unfolding validate check_lines
  validate_complete h =
      let opened = text_eq_complete (strip h.opening) fence h.opened in
      let checked =
        (check_document-nil h.front h.body).1 (h.good, h.instructed, h.complete, h.linked) in
      rw (h.present, h.split, opened, h.closed, validate, check_lines) checked

  -- The validator reports no error of exactly the packages that have the required files, a closed
  -- frontmatter with a name of at most 64 characters, in groups of small letters and digits with
  -- one hyphen between two, that is the name of the directory, and a description of 1 to 1024
  -- characters, a body that is not blank, and links that lead elsewhere or to a path that exists,
  -- is relative and has no part `..`.
  pub validate_accepts : (validate P ≡ []) ↔ IsPackage P
  validate_accepts = (validate_sound, validate_complete)
