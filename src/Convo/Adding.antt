-- ===== src/Convo/Adding.antt =====
-- `Convo.add` and `Convo._dedent` of core/llm/convo.py.
use gpt_pilot.Prelude.{
  ◌≡◌, refl, ℕ, ◌-◌, String, Option, List, [], ◌∷◌, ◌++◌, ◌==◌, nat_eq, string_eq, ltb,
  if◌then◌else◌,
}
use gpt_pilot.Result.{Result, ok, value_error, ◌>>◌, refuse_if}
use gpt_pilot.Convo.{Role, Message}
use gpt_pilot.Prelude.Strings.{splitlines, lstrip, rstrip, size, skip_chars, join_lines}

-- The least indentation of the lines that are not blank.
unfoldable indentation : ℕ → List String → ℕ
unfolding lstrip size
indentation indent [] = indent
indentation indent (line ∷ lines) =
    let own = size line - size (lstrip line) in
    indentation (if lstrip line == "" then indent else if ltb own indent then own else indent) lines

unfoldable dedent_lines : ℕ → List String → List String
unfolding rstrip skip_chars
dedent_lines indent [] = []
dedent_lines indent (line ∷ lines) = rstrip (skip_chars indent line) ∷ dedent_lines indent lines

unfoldable pub dedent : String → String
unfolding splitlines indentation dedent_lines join_lines size
dedent text =
    let lines = splitlines text in join_lines (dedent_lines (indentation (size text) lines) lines)

-- A role that is not in ROLES, or content that is no text, is excluded by the types.
unfoldable pub add : Role → String → Option String → List Message → Result (List Message)
add role content name messages = do
  refuse_if (content == "") (value_error "Empty message content")
  ok (messages ++ record { role = role; content = dedent content; name = name } ∷ [])

dedents : dedent "  a\n    b  \n\n  c" ≡ "a\n  b\n\nc"
unfolding dedent nat_eq string_eq
dedents = refl
