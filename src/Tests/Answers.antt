-- ===== src/Tests/Answers.antt =====
-- Answers of an LLM with code blocks.
use gpt_pilot.Prelude.{◌≡◌, refl, List, [], ◌∷◌, map, nat_eq, option_eq, string_eq}
use gpt_pilot.Prelude.Strings.{join_lines, ends_with, size, strip, is_in, skip_chars, split_from}
use gpt_pilot.Result.{ok}
use gpt_pilot.Parser.{
  multi_code_block_parser, code_block_parser, descriptive_code_block_parser, string_parser,
  optional_code_block_parser, block_content, all_lower, regex_lines, but_last, find_described,
  described_block, is_blank, first_content, is_fence, find_blocks,
}
use gpt_pilot.Parser.Blocks.{Fenced, document, multi_code_block_parser-document}

abbrev two_blocks : List Fenced
two_blocks =
    record { before = "First" ∷ "" ∷ []; language = "python"; content = "x = 1" ∷ "y = 2" ∷ [] }
    ∷ record { before = "then" ∷ []; language = "js"; content = "z()" ∷ [] }
    ∷ []

multi_code_block_parser-document_example :
    multi_code_block_parser (join_lines (document two_blocks ("Done" ∷ [])))
    ≡ map (λ (b : Fenced). block_content b.content) two_blocks
unfolding is_fence nat_eq all_lower string_eq
multi_code_block_parser-document_example =
    multi_code_block_parser-document two_blocks ("Done" ∷ [])
      (
        (refl, refl, (refl, refl, tt)),
        (refl, refl),
        (refl, refl, (refl, refl, tt)),
        ((refl, refl, tt), (refl, refl), (refl, refl, tt), tt),
      )
      (refl, refl, tt)

-- Several blocks are joined, although the parser is said to check that there is exactly one.
several : code_block_parser "```py\na\n```\n```py\nb\n```" ≡ ok "a\nb"
unfolding code_block_parser multi_code_block_parser find_blocks regex_lines split_from nat_eq
    is_fence join_lines block_content strip first_content string_eq skip_chars all_lower
several = refl

-- The description is all the text before the block, not only the last line of it.
described :
    (descriptive_code_block_parser "Intro\nfile: a.js\n```js\nx\n```\n").1
    ≡ record { description = "Intro\nfile: a.js"; content = "x" } ∷ []
unfolding descriptive_code_block_parser find_described regex_lines split_from nat_eq is_fence
    described_block string_eq block_content strip join_lines first_content skip_chars all_lower
    is_blank
described = refl

unquoted : string_parser " 'abc' " ≡ "abc"
unfolding string_parser strip nat_eq string_eq size option_eq but_last skip_chars
unquoted = refl

single_line : optional_code_block_parser " `ls -la` " ≡ "ls -la"
unfolding optional_code_block_parser strip nat_eq string_eq is_in ends_with but_last skip_chars
single_line = refl
