-- ===== src/Skill.antt =====
-- scripts/validate_skill.py: the tests of the documents of the repository. A text is a Python
-- `str`, as its code points.
pub mod Python
pub mod Name
pub mod Checks
pub mod Laws
use encrypted_dns_skill.Base.{
  ℕ, Bool, true, false, not, ◌&&◌, ◌||◌, List, [], ◌∷◌, ◌++◌, Option, none, some, ◌==◌, ltb, leb,
  if◌then◌else◌, length,
}
use encrypted_dns_skill.Text.{Text, codes, text_eq, is_empty, has_prefix, cut, split}
use encrypted_dns_skill.Skill.Python.{
  is_white, strip, strip_left, split_lines, join_lines, unquote, has_infix,
}

-- The directory that is validated: the name of `root.resolve()`, which files are under it, which
-- paths are, and the text of SKILL.md, in which `read_text` has made every line end a newline.
pub record Package : Type 0 where
  pub directory_name : Text
  pub is_file : Text → Bool
  pub exists : Text → Bool
  pub skill_text : Text

pub data SkillError : Type 0 where
  missing_skill no_frontmatter not_closed bad_name bad_description empty_body : SkillError
  name_mismatch : Text → Text → SkillError
  missing_file unsafe_link broken_link : Text → SkillError

abbrev pub skill_file : Text
skill_file = codes "SKILL.md"

abbrev pub fence : Text
fence = codes "---"

-- `REQUIRED_PATHS`
abbrev pub required_paths : List Text
required_paths =
    codes "SKILL.md"
    ∷ codes "cmd/ednsdiag/main.go"
    ∷ codes "references/contracts.md"
    ∷ codes "references/providers.md"
    ∷ codes "references/security.md"
    ∷ codes "references/standards.md"
    ∷ codes "schemas/result-v1.schema.json"
    ∷ []

-- `scalar`
unfoldable pub scalar : Text → Text
scalar value = unquote (strip value)

-- The lines before the first fence, and those behind it.
unfoldable pub find_fence : List Text → Option (List Text × List Text)
find_fence [] = none
find_fence (line ∷ lines) =
    let rest = find_fence lines in
    if text_eq (strip line) fence
    then some ([], lines)
    else elim rest [ none ↦ none | some (front, body) ↦ some (line ∷ front, body) ]

-- The entries of the frontmatter, the last one first.
abbrev pub Metadata : Type 0
Metadata = List (Text × Text)

abbrev starts_white : Text → Bool
starts_white [] = false
starts_white (c ∷ s) = is_white c

-- One round of the loop over the lines of the frontmatter.
unfoldable pub read_line : Text → Metadata → Metadata
read_line line metadata =
    let (key, value, separated) = cut line b':' in
    if is_empty (strip line) || has_prefix (strip_left line) (codes "#") || starts_white line
    then metadata
    else if separated
    then (strip key, scalar value) ∷ metadata
    else metadata

unfoldable pub read_metadata : List Text → Metadata → Metadata
read_metadata [] metadata = metadata
read_metadata (line ∷ lines) metadata = read_metadata lines (read_line line metadata)

-- `metadata.get(key, "")`
unfoldable pub get : Text → Metadata → Text
get key [] = []
get key ((k, value) ∷ metadata) =
    let rest = get key metadata in if text_eq k key then value else rest

-- `NAME_RE.fullmatch`; `begun` says whether a group has a character.
abbrev pub is_name_char : ℕ → Bool
is_name_char c = leb b'a' c && leb c b'z' || leb b'0' c && leb c b'9'

unfoldable pub match_name : Bool → Text → Bool
match_name begun [] = begun
match_name begun (c ∷ s) =
    let rest = match_name (is_name_char c) s in
    if is_name_char c then rest else c == b'-' && begun && rest

-- `LOCAL_LINK_RE.findall`: outside of a match, behind `]`, or behind `](` with what stands there.
pub data Scan : Type 0 where
  outside opened : Scan
  inside : Text → Scan

-- What one character does, and the match that it ends.
unfoldable pub scan_char : Scan → ℕ → Scan × List Text
scan_char outside c = (if c == b']' then opened else outside, [])
scan_char opened c = (if c == b'(' then inside [] else if c == b']' then opened else outside, [])
scan_char (inside []) c = if c == b')' then (outside, []) else (inside (c ∷ []), [])
scan_char (inside (d ∷ s)) c =
    if c == b')' then (outside, (d ∷ s) ∷ []) else (inside (d ∷ s ++ c ∷ []), [])

unfoldable pub find_links : Scan → Text → List Text
find_links scan [] = []
find_links scan (c ∷ s) = let (next, found) = scan_char scan c in found ++ find_links next s

-- What stands before `#` in a link.
unfoldable pub link_target : Text → Text
link_target link = strip (cut link b'#').0

-- A link that is skipped.
unfoldable pub is_elsewhere : Text → Bool
is_elsewhere target =
    is_empty target
    || has_infix (codes "://") target
    || has_prefix target (codes "#")
    || has_prefix target (codes "mailto:")

-- `".." in Path(target).parts`
unfoldable pub has_parent : List Text → Bool
has_parent [] = false
has_parent (part ∷ parts) = text_eq part (codes "..") || has_parent parts

unfoldable pub is_unsafe : Text → Bool
is_unsafe target = has_prefix target (codes "/") || has_parent (split target b'/')

-- `if bad: errors.append(error)`
abbrev pub report_if : Bool → SkillError → List SkillError
report_if bad error = if bad then error ∷ [] else []

module _ (P : Package) where
  unfoldable pub check_link : Text → List SkillError
  check_link link =
      let target = link_target link in
      if is_elsewhere target
      then []
      else if is_unsafe target
      then unsafe_link target ∷ []
      else report_if (not (P.exists target)) (broken_link target)

  unfoldable pub check_links : List Text → List SkillError
  check_links [] = []
  check_links (link ∷ links) = check_link link ++ check_links links

  unfoldable pub check_files : List Text → List SkillError
  check_files [] = []
  check_files (path ∷ paths) =
      report_if (not (P.is_file path)) (missing_file path) ++ check_files paths

  -- The tests of the frontmatter.
  unfoldable pub check_metadata : Metadata → List SkillError
  check_metadata metadata =
      let name = get (codes "name") metadata in
      let description = get (codes "description") metadata in
      report_if (not (match_name false name) || ltb 64 (length name)) bad_name
      ++ report_if (not (text_eq name P.directory_name)) (name_mismatch name P.directory_name)
      ++ report_if (is_empty description || ltb 1024 (length description)) bad_description

  -- The tests of a document whose frontmatter is closed.
  unfoldable pub check_document : List Text → List Text → List SkillError
  check_document front body =
      check_metadata (read_metadata front [])
      ++ report_if (is_empty (strip (join_lines body))) empty_body
      ++ check_files required_paths
      ++ check_links (find_links outside P.skill_text)

  unfoldable pub check_lines : List Text → List SkillError
  check_lines [] = no_frontmatter ∷ []
  check_lines (line ∷ lines) =
      if not (text_eq (strip line) fence) then no_frontmatter ∷ [] else elim (find_fence lines) [
        | none ↦ not_closed ∷ []
        | some (front, body) ↦ check_document front body
      ]

  -- `validate`
  unfoldable pub validate : List SkillError
  validate =
      if not (P.is_file skill_file)
      then missing_skill ∷ []
      else check_lines (split_lines [] P.skill_text)

  -- `main`: the code, and the errors that are printed.
  unfoldable pub run_validator : ℕ × List SkillError
  run_validator = elim validate [ [] ↦ (0, []) | error ∷ errors ↦ (1, error ∷ errors) ]
