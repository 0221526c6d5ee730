-- ===== src/Tests/Skill.antt =====
-- The validator of the documents.
use encrypted_dns_skill.Base.{true, [], ◌∷◌, ◌++◌, ◌≡◌, ◌↔◌, refl}
use encrypted_dns_skill.Skill.{
  Package, bad_name, broken_link, check_document, check_files, check_link, check_links, check_lines,
  check_metadata, find_fence, find_links, get, has_parent, is_elsewhere, is_unsafe, link_target,
  match_name, name_mismatch, read_line, read_metadata, run_validator, scalar, scan_char, validate,
}
use encrypted_dns_skill.Skill.Laws.{IsPackage, validate_accepts}
use encrypted_dns_skill.Skill.Python.{
  has_infix, is_line_end, is_white, join_lines, split_lines, strip, strip_left, strip_right,
  unquote,
}
use encrypted_dns_skill.Text.{Text, codes, cut, has_prefix, split, split_from, text_eq}

abbrev line : Text → Text
line text = text ++ 10 ∷ []

abbrev document : Text → Text → Text
document name link =
    line (codes "---")
    ++ line (codes "name: " ++ name)
    ++ line (codes "description: 'private DNS'")
    ++ line (codes "---")
    ++ line (codes "See [x](https://a.b) and [y](" ++ link ++ codes ").")

-- A directory in which every path but one exists.
abbrev directory : Text → Text → Package
directory name link = record {
  directory_name = codes "dns-skill";
  is_file = λ path. true;
  exists = λ path. text_eq path (codes "README.md");
  skill_text = document name link;
}

abbrev valid_package : Package
valid_package = directory (codes "dns-skill") (codes "README.md#use")

package-accepted : validate valid_package ≡ []
unfolding text_eq cut has_prefix split_from split is_white strip_left strip_right strip is_line_end
    split_lines join_lines unquote has_infix scalar find_fence read_line read_metadata get
    match_name scan_char find_links link_target is_elsewhere has_parent is_unsafe check_link
    check_links check_files check_metadata check_document check_lines validate
package-accepted = refl

package-refused : run_validator (directory (codes "dns--skill") (codes "other.md")) ≡ (
  1,
  bad_name
      ∷ name_mismatch (codes "dns--skill") (codes "dns-skill")
      ∷ broken_link (codes "other.md")
      ∷ [],
)
unfolding text_eq cut has_prefix split_from split is_white strip_left strip_right strip is_line_end
    split_lines join_lines unquote has_infix scalar find_fence read_line read_metadata get
    match_name scan_char find_links link_target is_elsewhere has_parent is_unsafe check_link
    check_links check_files check_metadata check_document check_lines validate run_validator
package-refused = refl

validate_accepts_example : (validate valid_package ≡ []) ↔ IsPackage valid_package
validate_accepts_example = validate_accepts valid_package
