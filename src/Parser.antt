-- ===== src/Parser.antt =====
-- The parsers of core/llm/parser.py for what an LLM answers. Their regular expressions look at lines
-- that begin with a fence of three backticks, so the blocks are found by a walk along the lines.
-- `json.loads`, the specification of a JSON answer and the values of an enumeration are parameters.
pub mod Blocks
use Prim.Native.Char.{code}
use Prim.Native.String
use text.Mathlib.Text.{starts_with}
use gpt_pilot.Prelude.{
  option_eq, ℕ, zero, suc, ◌+◌, ◌-◌, String, Bool, true, false, not, ◌&&◌, ◌||◌, Option, none, some,
  List, [], ◌∷◌, ◌++◌, ◌==◌, nat_eq, string_eq, contains, is_empty, leb, ltb, tail, if◌then◌else◌,
}
use gpt_pilot.Prelude.Strings.{
  strip, lstrip, size, skip_chars, splitlines, join_lines, split_from, ends_with, is_in, is_space,
}
use gpt_pilot.Result.{Result, ok, raise, PyError, value_error, ◌>>=◌}

abbrev pub fence : String
fence = "```"

-- The lines of a regular expression: only a line feed ends them.
unfoldable pub regex_lines : String → List String
regex_lines text = split_from 10 "" text

-- `[a-z0-9]+`
unfoldable pub all_lower : String → Bool
all_lower String.[] = true
all_lower (String.◌∷◌ c s) =
    (leb b'a' (code c) && leb (code c) b'z' || leb b'0' (code c) && leb (code c) b'9')
    && all_lower s

unfoldable pub is_fence : String → Bool
is_fence line = starts_with line fence

-- What stands after the fence belongs to the content, unless it is the name of a language.
unfoldable pub first_content : String → List String
first_content line =
    let rest = skip_chars 3 line in if not (rest == "") && all_lower rest then [] else rest ∷ []

unfoldable pub block_content : List String → String
block_content lines = strip (join_lines lines)

-- The blocks from a line on, outside a block or inside one with its content so far.
unfoldable pub find_blocks : Option (List String) → List String → List String
find_blocks none [] = []
find_blocks none (line ∷ lines) =
    let inside = find_blocks (some (first_content line)) lines in
    let outside = find_blocks none lines in if is_fence line then inside else outside
find_blocks (some content) [] = []
find_blocks (some content) (line ∷ lines) =
    let outside = find_blocks none lines in
    let inside = find_blocks (some (content ++ line ∷ [])) lines in
    if is_fence line then block_content content ∷ outside else inside

unfoldable pub multi_code_block_parser : String → List String
multi_code_block_parser text = find_blocks none (regex_lines text)

unfoldable pub code_block_parser : String → Result String
code_block_parser text = elim (multi_code_block_parser text) [
  | [] ↦ raise (value_error "Expected a code block, got none")
  | block ∷ [] ↦ ok block
  | block ∷ next ∷ blocks ↦ ok (join_lines (block ∷ next ∷ blocks))
]

-- `s[:-1]` of a text and of a list.
unfoldable pub but_last : String → String
but_last String.[] = ""
but_last (String.◌∷◌ c s) = if s == "" then "" else String.◌∷◌ c (but_last s)

abbrev pub init : List String → List String
init [] = []
init (line ∷ []) = []
init (line ∷ next ∷ lines) = line ∷ init (next ∷ lines)

unfoldable pub optional_code_block_parser : String → String
optional_code_block_parser answer =
    let text = strip answer in
    if starts_with text fence && ends_with text "\n```"
    then strip (join_lines (init (tail (splitlines text))))
    else if not (is_in "\n" text) && starts_with text "`" && ends_with text "`"
    then but_last (skip_chars 1 text)
    else text

-- A block of DescriptiveCodeBlockParser.
pub record CodeBlock : Type 0 where
  pub description : String
  pub content : String

-- Where its walk along the lines stands: after a block, in a description, or in a block.
pub data Place : Type 0 where
  after_block : Place
  describing : List String → Place
  in_block : List String → List String → Place

unfoldable pub is_blank : String → Bool
is_blank line = lstrip line == ""

unfoldable pub described_block : List String → List String → List CodeBlock
described_block description content =
    if block_content description == "" || block_content content == ""
    then []
    else record { description = block_content description; content = block_content content } ∷ []

-- The expression takes the white space after a block; a line that it has taken in part is skipped.
unfoldable pub find_described : Place → List String → List CodeBlock
find_described place [] = []
find_described Place.after_block (line ∷ lines) =
    let again = find_described Place.after_block lines in
    let skipped = find_described (Place.describing []) lines in
    let taken = find_described (Place.describing (line ∷ [])) lines in
    if is_blank line then again else if lstrip line == line then taken else skipped
find_described (Place.describing []) (line ∷ lines) =
    find_described (Place.describing (line ∷ [])) lines
find_described (Place.describing (d ∷ ds)) (line ∷ lines) =
    let inside = find_described (Place.in_block (d ∷ ds) (first_content line)) lines in
    let longer = find_described (Place.describing (d ∷ ds ++ line ∷ [])) lines in
    if is_fence line then inside else longer
find_described (Place.in_block ds content) (line ∷ lines) =
    let after = find_described Place.after_block lines in
    let next = find_described (Place.describing []) lines in
    let longer = find_described (Place.in_block ds (content ++ line ∷ [])) lines in
    if is_fence line
    then described_block ds content ++ (if is_blank (skip_chars 3 line) then after else next)
    else longer

-- The answer without white space around it, and the blocks.
unfoldable pub descriptive_code_block_parser : String → String × List CodeBlock
descriptive_code_block_parser text =
    (strip text, find_described (Place.describing []) (regex_lines text))

abbrev pub first_char : String → Option ℕ
first_char String.[] = none
first_char (String.◌∷◌ c s) = some (code c)

abbrev pub last_char : String → Option ℕ
last_char String.[] = none
last_char (String.◌∷◌ c s) = if s == "" then some (code c) else last_char s

abbrev pub is_quote : Option ℕ → Bool
is_quote none = false
is_quote (some c) = c == 39 || c == 34

unfoldable pub string_parser : String → String
string_parser answer =
    let text = strip answer in
    if is_quote (first_char text)
      && is_quote (last_char text)
      && ltb 1 (size text)
      && first_char text == last_char text
    then but_last (skip_chars 1 text)
    else text

-- What json.loads and the call of the specification give, which may raise a ValueError.
pub record JsonSpec : Type 1 where
  pub Json : Type 0
  pub Model : Type 0
  pub loads : String → Option Json
  pub spec : Option (Json → Option Model)

pub data Parsed (j : JsonSpec) : Type 0 where
  nothing : Parsed j
  json : j.Json → Parsed j
  model : String → j.Model → Parsed j

module _ (j : JsonSpec) where
  abbrev pub has_spec : Option (j.Json → Option j.Model) → Bool
  has_spec none = false
  has_spec (some spec) = true

  -- A failure that is not strict gives None.
  abbrev pub fail : Bool → PyError → Result (Parsed j)
  fail true error = raise error
  fail false error = ok nothing

  abbrev pub build : String → Option (j.Json → Option j.Model) → j.Json → Result (Parsed j)
  build original none value = ok (json value)
  build original (some spec) value = elim (spec value) [
    | none ↦ raise (value_error "Invalid JSON format:\n")
    | some m ↦ ok (model original m)
  ]

  abbrev pub load : Bool → String → String → Result (Parsed j)
  load strict original text = elim (j.loads (strip text)) [
    | none ↦ fail strict (value_error "JSON is not valid: ")
    | some value ↦ build original j.spec value
  ]

  abbrev pub load_block : Bool → String → Result String → Result (Parsed j)
  load_block strict original (raise error) = fail strict error
  load_block strict original (ok text) = load strict original text

  unfoldable pub json_parser : Bool → String → Result (Parsed j)
  json_parser strict_flag answer =
      let strict = strict_flag || has_spec j.spec in
      let original = strip answer in
      if starts_with original fence
      then load_block strict original (code_block_parser original)
      else load strict original original

-- `text.lower()` is a parameter, and so are the values of the enumeration.
module _ (lower : String → String) (values : List String) where
  unfoldable pub enum_parser : Bool → String → Result String
  enum_parser ignore_case answer =
      let text = if ignore_case then lower (strip answer) else strip answer in
      if contains values text then ok text else raise (value_error "Invalid option '")
