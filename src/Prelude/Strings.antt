-- ===== src/Prelude/Strings.antt =====
-- The methods of Python's texts. A line ends at any of Python's line breaks, and a carriage return with
-- a line feed is one of them.
use Prim.Native.Char.{code}
use Prim.Native.Nat.{ℕ, zero, suc, ◌-◌}
use Prim.Native.String
use Prim.Native.String.{String}
use text.Mathlib.Text.{starts_with}
use mathlib.Core.Bool.{Bool, false, not, ◌&&◌, ◌||◌}
use mathlib.Core.List.{List, [], ◌∷◌}
use gpt_pilot.Prelude.Equality.{◌==◌, nat_eq, string_eq, leb, if◌then◌else◌}
use gpt_pilot.Prelude.Lists.{contains}
use gpt_pilot.Prelude.{◌-◌}

abbrev line_breaks : List ℕ
line_breaks = 10 ∷ 11 ∷ 12 ∷ 13 ∷ 28 ∷ 29 ∷ 30 ∷ 133 ∷ 8232 ∷ 8233 ∷ []

abbrev other_spaces : List ℕ
other_spaces = 9 ∷ 31 ∷ 32 ∷ 160 ∷ 5760 ∷ 8239 ∷ 8287 ∷ 12288 ∷ []

unfoldable pub is_space : ℕ → Bool
is_space c = contains line_breaks c || contains other_spaces c || leb 8192 c && leb c 8202

-- The lines of a text, after a carriage return or not, with the start of the current line.
unfoldable pub lines_from : Bool → String → String → List String
lines_from after_return line String.[] = if line == "" then [] else line ∷ []
lines_from after_return line (String.◌∷◌ c s) =
    let skip = after_return && code c == 10 in
    let ends = not skip && contains line_breaks (code c) in
    let line' =
      if skip then line else if ends then "" else String.◌++◌ line (String.◌∷◌ c String.[]) in
    let rest = lines_from (not skip && code c == 13) line' s in if ends then line ∷ rest else rest

unfoldable pub splitlines : String → List String
unfolding lines_from
splitlines text = lines_from false "" text

unfoldable pub size : String → ℕ
size String.[] = 0
size (String.◌∷◌ c s) = suc (size s)

unfoldable pub lstrip : String → String
unfolding is_space
lstrip String.[] = ""
lstrip (String.◌∷◌ c s) = let rest = lstrip s in if is_space (code c) then rest else String.◌∷◌ c s

unfoldable pub rstrip : String → String
unfolding is_space
rstrip String.[] = ""
rstrip (String.◌∷◌ c s) =
    let rest = rstrip s in if rest == "" && is_space (code c) then "" else String.◌∷◌ c rest

-- `line[n:]`
unfoldable pub skip_chars : ℕ → String → String
skip_chars zero s = s
skip_chars (suc n) String.[] = ""
skip_chars (suc n) (String.◌∷◌ c s) = skip_chars n s

unfoldable pub join_lines : List String → String
join_lines [] = ""
join_lines (line ∷ []) = line
join_lines (line ∷ next ∷ lines) = String.◌++◌ line (String.◌++◌ "\n" (join_lines (next ∷ lines)))

unfoldable pub strip : String → String
unfolding lstrip rstrip
strip s = rstrip (lstrip s)

-- `part in s`
unfoldable pub is_in : String → String → Bool
is_in part String.[] = part == ""
is_in part (String.◌∷◌ c s) = starts_with (String.◌∷◌ c s) part || is_in part s

-- `s.endswith(part)`
unfoldable pub ends_with : String → String → Bool
ends_with String.[] part = part == ""
ends_with (String.◌∷◌ c s) part = String.◌∷◌ c s == part || ends_with s part

-- The text after the first character with the number: `s.split(sep, 1)[1]`.
unfoldable pub after_first : ℕ → String → String
after_first sep String.[] = ""
after_first sep (String.◌∷◌ c s) = if code c == sep then s else after_first sep s

-- `s.rstrip(c)` for one character.
unfoldable pub rstrip_char : ℕ → String → String
rstrip_char sep String.[] = ""
rstrip_char sep (String.◌∷◌ c s) =
    let rest = rstrip_char sep s in if rest == "" && code c == sep then "" else String.◌∷◌ c rest

-- `s.split(sep)` for one character, with the start of the current piece.
unfoldable pub split_from : ℕ → String → String → List String
split_from sep piece String.[] = piece ∷ []
split_from sep piece (String.◌∷◌ c s) =
    let ends = code c == sep in
    let rest = split_from sep (if ends then "" else String.◌++◌ piece (String.◌∷◌ c String.[])) s in
    if ends then piece ∷ rest else rest

-- The text before the first character with the number: `s.split(sep, 1)[0]`.
unfoldable pub before_first : ℕ → String → String
before_first sep String.[] = ""
before_first sep (String.◌∷◌ c s) =
    let rest = before_first sep s in if code c == sep then "" else String.◌∷◌ c rest

-- `s.replace(part, "")`, with the number of characters of the last part that are still to be dropped.
unfoldable pub remove_part : String → ℕ → String → String
remove_part part skip String.[] = ""
remove_part part (suc skip) (String.◌∷◌ c s) = remove_part part skip s
remove_part part zero (String.◌∷◌ c s) =
    let without = remove_part part (size part - 1) s in
    let rest = remove_part part zero s in
    if starts_with (String.◌∷◌ c s) part then without else String.◌∷◌ c rest
