-- ===== src/Parser/Blocks.antt =====
-- MultiCodeBlockParser of core/llm/parser.py finds the blocks that a text was made of.
use Prim.Native.Char.{Char, code}
use Prim.Native.String
use text.Mathlib.TextLemmas.{append-nil, append_assoc, cons-append, nil-append}
use mathlib.Core.List.{append_assoc as list_append_assoc, append-nil as list_append-nil}
use text.Mathlib.TextPositions.{starts_with-append}
use gpt_pilot.Prelude.{
  String, ◌≡◌, refl, ap, sym, ◌∙◌, Bool, true, false, none, some, List, [], ◌∷◌, ◌++◌, map, ◌==◌,
  nat_eq, string_eq, arith, ◌||◌, subst,
}
use gpt_pilot.Prelude.Strings.{join_lines, split_from, skip_chars}
use gpt_pilot.Parser.{
  fence, regex_lines, all_lower, is_fence, first_content, block_content, find_blocks,
  multi_code_block_parser,
}

-- A block with the text before it.
pub record Fenced : Type 0 where
  pub before : List String
  pub language : String
  pub content : List String

abbrev pub document : List Fenced → List String → List String
document [] rest = rest
document (b ∷ blocks) rest =
    b.before ++ String.◌++◌ fence b.language ∷ (b.content ++ fence ∷ document blocks rest)

abbrev pub has_break : String → Bool
has_break String.[] = false
has_break (String.◌∷◌ c s) = code c == 10 || has_break s

-- A line that is no fence and has no line feed.
abbrev pub AreText : List String → Type 0
AreText [] = Unit
AreText (line ∷ lines) = (is_fence line ≡ false) × (has_break line ≡ false) × AreText lines

abbrev pub IsLanguage : String → Type 0
IsLanguage language = (all_lower language ≡ true) × ((language == "") ≡ false)

abbrev pub AreFenced : List Fenced → Type 0
AreFenced [] = Unit
AreFenced (b ∷ blocks) =
    AreText b.before × IsLanguage b.language × AreText b.content × AreFenced blocks

fence-append :
    (language : String)
    → String.◌++◌ fence language ≡ String.◌∷◌ "`" (String.◌∷◌ "`" (String.◌∷◌ "`" language))
fence-append language =
    cons-append "`" "``" language
    ∙ ap (λ s. String.◌∷◌ "`" s)
        (cons-append "`" "`" language
          ∙ ap (λ s. String.◌∷◌ "`" s)
              (cons-append "`" "" language ∙ ap (λ s. String.◌∷◌ "`" s) (nil-append language)))

append-one :
    (piece : String) (c : Char) (s : String)
    → String.◌++◌ (String.◌++◌ piece (String.◌∷◌ c String.[])) s
      ≡ String.◌++◌ piece (String.◌∷◌ c s)
append-one piece c s =
    append_assoc piece (String.◌∷◌ c String.[]) s
    ∙ ap (λ t. String.◌++◌ piece t)
        (cons-append c String.[] s ∙ ap (λ t. String.◌∷◌ c t) (nil-append s))

no_break :
    (c : Char) (s : String)
    → has_break (String.◌∷◌ c s) ≡ false
    → ((code c == 10) ≡ false) × (has_break s ≡ false)
no_break c s none_there = (ground (arith, none_there), ground (arith, none_there))

split_from-line :
    (piece line : String)
    → has_break line ≡ false
    → split_from 10 piece line ≡ String.◌++◌ piece line ∷ []
unfolding split_from
split_from-line piece String.[] none_there = ap (λ l. l ∷ []) (sym (append-nil piece))
split_from-line piece (String.◌∷◌ c s) none_there =
    let other = no_break c s none_there in
    rw
      (
        other.0,
        split_from-line (String.◌++◌ piece (String.◌∷◌ c String.[])) s other.1,
        append-one piece c s,
      )
      refl

split_from-break :
    (piece line rest : String)
    → has_break line ≡ false
    → split_from 10 piece (String.◌++◌ line (String.◌++◌ "\n" rest))
      ≡ String.◌++◌ piece line ∷ split_from 10 "" rest
unfolding split_from nat_eq
split_from-break piece String.[] rest none_there =
    rw
      (
        nil-append (String.◌++◌ "\n" rest),
        cons-append "\n" "" rest,
        nil-append rest,
        append-nil piece,
      )
      refl
split_from-break piece (String.◌∷◌ c s) rest none_there =
    let other = no_break c s none_there in
    rw
      (
        cons-append c s (String.◌++◌ "\n" rest),
        other.0,
        split_from-break (String.◌++◌ piece (String.◌∷◌ c String.[])) s rest other.1,
        append-one piece c s,
      )
      refl

abbrev HaveNoBreak : List String → Type 0
HaveNoBreak [] = Unit
HaveNoBreak (line ∷ lines) = (has_break line ≡ false) × HaveNoBreak lines

regex_lines-join_lines :
    (line : String) (lines : List String)
    → HaveNoBreak (line ∷ lines)
    → regex_lines (join_lines (line ∷ lines)) ≡ line ∷ lines
unfolding regex_lines join_lines
regex_lines-join_lines line [] whole = rw (split_from-line "" line whole.0, nil-append line) refl
regex_lines-join_lines line (next ∷ lines) whole =
    rw
      (
        split_from-break "" line (join_lines (next ∷ lines)) whole.0,
        nil-append line,
        regex_lines-join_lines next lines whole.1,
      )
      refl

find_blocks-before :
    (before rest : List String)
    → AreText before
    → find_blocks none (before ++ rest) ≡ find_blocks none rest
unfolding find_blocks
find_blocks-before [] rest plain = refl
find_blocks-before (line ∷ before) rest plain =
    rw (plain.0, find_blocks-before before rest plain.2) refl

find_blocks-content :
    (content more rest : List String)
    → AreText more
    → find_blocks (some content) (more ++ fence ∷ rest)
      ≡ block_content (content ++ more) ∷ find_blocks none rest
unfolding find_blocks is_fence
find_blocks-content content [] rest plain = rw (list_append-nil content) refl
find_blocks-content content (line ∷ more) rest plain =
    rw
      (
        plain.0,
        find_blocks-content (content ++ line ∷ []) more rest plain.2,
        list_append_assoc content (line ∷ []) more,
      )
      refl

starts_block :
    (language : String) (rest : List String)
    → IsLanguage language
    → find_blocks none (String.◌++◌ fence language ∷ rest) ≡ find_blocks (some []) rest
unfolding find_blocks is_fence first_content skip_chars
starts_block language rest known =
    rw (starts_with-append fence language, fence-append language, known.0, known.1) refl

find_blocks-document :
    (blocks : List Fenced) (rest : List String)
    → AreFenced blocks
    → AreText rest
    → find_blocks none (document blocks rest) ≡ map (λ (b : Fenced). block_content b.content) blocks
unfolding find_blocks
find_blocks-document [] rest good plain =
    ap (λ l. find_blocks none l) (sym (list_append-nil rest)) ∙ find_blocks-before rest [] plain
find_blocks-document (b ∷ blocks) rest good plain =
    rw
      (
        find_blocks-before b.before
            (String.◌++◌ fence b.language ∷ (b.content ++ fence ∷ document blocks rest)) good.0,
        starts_block b.language (b.content ++ fence ∷ document blocks rest) good.1,
        find_blocks-content [] b.content (document blocks rest) good.2,
        find_blocks-document blocks rest good.3 plain,
      )
      refl

has_break-all_lower : (s : String) → all_lower s ≡ true → has_break s ≡ false
unfolding all_lower
has_break-all_lower String.[] lower = refl
has_break-all_lower (String.◌∷◌ c s) lower = ground (arith, has_break-all_lower s)

HaveNoBreak-append :
    (lines more : List String) → AreText lines → HaveNoBreak more → HaveNoBreak (lines ++ more)
HaveNoBreak-append [] more plain whole = whole
HaveNoBreak-append (line ∷ lines) more plain whole =
    (plain.1, HaveNoBreak-append lines more plain.2 whole)

HaveNoBreak-document :
    (blocks : List Fenced) (rest : List String)
    → AreFenced blocks
    → AreText rest
    → HaveNoBreak (document blocks rest)
unfolding nat_eq
HaveNoBreak-document [] rest good plain =
    subst (λ l. HaveNoBreak l) (list_append-nil rest) (HaveNoBreak-append rest [] plain tt)
HaveNoBreak-document (b ∷ blocks) rest good plain = HaveNoBreak-append b.before _ good.0 (
  rw (fence-append b.language) (has_break-all_lower b.language good.1.0),
  HaveNoBreak-append b.content _ good.2 (refl, HaveNoBreak-document blocks rest good.3 plain),
)

find_blocks-regex_lines :
    (lines : List String)
    → HaveNoBreak lines
    → find_blocks none (regex_lines (join_lines lines)) ≡ find_blocks none lines
unfolding find_blocks regex_lines join_lines split_from is_fence
find_blocks-regex_lines [] whole = refl
find_blocks-regex_lines (line ∷ lines) whole = rw (regex_lines-join_lines line lines whole) refl

-- The parser finds in a text exactly the blocks that it was put together from, in order, each without
-- white space around it, where no line between the fences is a fence and each block names a language.
pub multi_code_block_parser-document :
    (blocks : List Fenced) (rest : List String)
    → AreFenced blocks
    → AreText rest
    → multi_code_block_parser (join_lines (document blocks rest))
      ≡ map (λ (b : Fenced). block_content b.content) blocks
unfolding multi_code_block_parser
multi_code_block_parser-document blocks rest good plain =
    find_blocks-regex_lines (document blocks rest) (HaveNoBreak-document blocks rest good plain)
    ∙ find_blocks-document blocks rest good plain
