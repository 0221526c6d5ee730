-- ===== src/Schema/Path.antt =====
-- internal/edns/result_schema.go: `resultSchemaPath`, over the functions `Clean`, `Dir` and `Join`
-- of the package `path/filepath` on Unix.
pub mod Clean
pub mod Search
use encrypted_dns_skill.Base.{
  ℕ, zero, suc, Bool, true, false, ◌&&◌, List, [], ◌∷◌, ◌++◌, Option, none, some, ◌==◌,
  if◌then◌else◌, drop,
}
use encrypted_dns_skill.Text.{Text, codes, text_eq, is_empty, split}
use encrypted_dns_skill.Text.Split.{join}

-- One element of a path that is cleaned, on the stack of the elements before it.
unfoldable pub push_element : (rooted : Bool) → Text → List Text → List Text
push_element rooted x stack =
    if is_empty x
    then stack
    else if text_eq x (codes ".")
    then stack
    else if text_eq x (codes "..")
    then (elim stack [
      | [] ↦ if rooted then [] else codes ".." ∷ []
      | y ∷ ys ↦ if text_eq y (codes "..") then codes ".." ∷ y ∷ ys else ys
    ])
    else x ∷ stack

unfoldable pub push_elements : (rooted : Bool) → List Text → List Text → List Text
push_elements rooted [] stack = stack
push_elements rooted (x ∷ xs) stack = push_elements rooted xs (push_element rooted x stack)

-- The elements from the bottom of the stack on, each behind a slash.
unfoldable pub stack_text : List Text → Text
stack_text [] = []
stack_text (x ∷ stack) = stack_text stack ++ b'/' ∷ x

abbrev pub or_text : Text → Text → Text
or_text [] t = t
or_text (c ∷ s) t = c ∷ s

abbrev pub is_rooted : Text → Bool
is_rooted [] = false
is_rooted (c ∷ s) = c == b'/'

-- `filepath.Clean`
unfoldable pub clean : Text → Text
clean path =
    let stack = push_elements (is_rooted path) (split path b'/') [] in
    if is_rooted path
    then or_text (stack_text stack) (codes "/")
    else or_text (drop 1 (stack_text stack)) (codes ".")

-- The front of a path up to and with its last slash.
unfoldable pub up_to_slash : Text → Text
up_to_slash [] = []
up_to_slash (c ∷ s) =
    let rest = up_to_slash s in
    if is_empty rest then (if c == b'/' then c ∷ [] else []) else c ∷ rest

-- `filepath.Dir`
unfoldable pub dir_of : Text → Text
dir_of path = clean (up_to_slash path)

-- `filepath.Join`, which ignores empty elements in front.
unfoldable pub join_path : List Text → Text
join_path [] = []
join_path (x ∷ l) = let rest = join_path l in if is_empty x then rest else clean (join (x ∷ l) b'/')

unfoldable pub candidate : Text → Text
candidate dir = join_path (dir ∷ codes "schemas" ∷ codes "result-v1.schema.json" ∷ [])

unfoldable pub fallback : Text
fallback =
    join_path (codes ".." ∷ codes ".." ∷ codes "schemas" ∷ codes "result-v1.schema.json" ∷ [])

-- The loop over the directory and its parents; `exists` says whether `os.Stat` finds a file. The
-- first argument is fuel, and `none` that it ran out.
unfoldable pub search : ℕ → (Text → Bool) → Text → Option Text
search zero exists dir = none
search (suc n) exists dir =
    let rest = search n exists (dir_of dir) in
    if exists (candidate dir)
    then some (candidate dir)
    else if text_eq (dir_of dir) dir
    then some fallback
    else rest
