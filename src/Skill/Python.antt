-- ===== src/Skill/Python.antt =====
-- The methods of Python's `str` that the validator calls.
use encrypted_dns_skill.Base.{
  ℕ, ◌-◌, Bool, ◌&&◌, ◌||◌, List, [], ◌∷◌, ◌++◌, ◌==◌, leb, if◌then◌else◌, length, take,
}
use encrypted_dns_skill.Text.{Text, is_empty, has_prefix}

-- `str.isspace` of one character.
unfoldable pub is_white : ℕ → Bool
is_white c =
    leb 9 c && leb c 13
    || leb 28 c && leb c 32
    || c == 133
    || c == 160
    || c == 5760
    || leb 8192 c && leb c 8202
    || c == 8232
    || c == 8233
    || c == 8239
    || c == 8287
    || c == 12288

unfoldable pub strip_left : Text → Text
strip_left [] = []
strip_left (c ∷ s) = let rest = strip_left s in if is_white c then rest else c ∷ s

unfoldable pub strip_right : Text → Text
strip_right [] = []
strip_right (c ∷ s) =
    let rest = strip_right s in if is_empty rest && is_white c then [] else c ∷ rest

-- `str.strip`
unfoldable pub strip : Text → Text
strip s = strip_right (strip_left s)

-- The ends of lines of `str.splitlines`, of a text without carriage returns.
unfoldable pub is_line_end : ℕ → Bool
is_line_end c = leb 10 c && leb c 12 || leb 28 c && leb c 30 || c == 133 || c == 8232 || c == 8233

-- `str.splitlines`, of such a text: the line that is being read, then the rest.
unfoldable pub split_lines : Text → Text → List Text
split_lines line [] = if is_empty line then [] else line ∷ []
split_lines line (c ∷ s) =
    let rest = split_lines (if is_line_end c then [] else line ++ c ∷ []) s in
    if is_line_end c then line ∷ rest else rest

-- `"\n".join(lines)`
unfoldable pub join_lines : List Text → Text
join_lines [] = []
join_lines (line ∷ []) = line
join_lines (line ∷ next ∷ lines) = line ++ 10 ∷ join_lines (next ∷ lines)

abbrev last_or : ℕ → Text → ℕ
last_or c [] = c
last_or c (d ∷ s) = last_or d s

-- A text without the quotes around it.
unfoldable pub unquote : Text → Text
unquote [] = []
unquote (c ∷ s) =
    if leb 1 (length s) && c == last_or c s && (c == b'"' || c == b'\'')
    then take (length s - 1) s
    else c ∷ s

-- `part in text`
unfoldable pub has_infix : Text → Text → Bool
has_infix part [] = has_prefix [] part
has_infix part (c ∷ s) = has_prefix (c ∷ s) part || has_infix part s
