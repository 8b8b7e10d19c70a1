-- ===== src/StateManager/Knowledge/Inputs.antt =====
-- `get_input_required` of core/state/state_manager.py: which lines it lists.
use gpt_pilot.Prelude.{
  ℕ, zero, suc, ◌+◌, ◌≡◌, refl, String, Bool, false, ◌&&◌, List, [], ◌∷◌, contains, nat_eq, leb,
  arith,
}
use gpt_pilot.Prelude.Strings.{is_in, splitlines}
use gpt_pilot.StateManager.Knowledge.{input_lines, get_input_required}

-- Whether the line with the index, from 0 on, is there and asks for input.
abbrev pub asks_at : ℕ → List String → Bool
asks_at j [] = false
asks_at zero (line ∷ lines) = is_in "INPUT_REQUIRED" line
asks_at (suc j) (line ∷ lines) = asks_at j lines

input_lines-later :
    (k i : ℕ) (lines : List String) → leb k i ≡ false → contains (input_lines k lines) i ≡ false
unfolding input_lines
input_lines-later k i [] early = refl
input_lines-later k i (line ∷ lines) early = ground (arith, input_lines-later (suc k) i lines)

contains-input_lines :
    (k j : ℕ) (lines : List String) → contains (input_lines k lines) (k + j) ≡ asks_at j lines
unfolding input_lines
contains-input_lines k j [] = refl
contains-input_lines k zero (line ∷ lines) = ground (arith, input_lines-later (suc k) k lines)
contains-input_lines k (suc j) (line ∷ lines) = ground (arith, contains-input_lines (suc k) j lines)

-- `get_input_required` lists no line for a file without `.env` in its path, and otherwise the numbers,
-- from 1 on, of exactly the lines that ask for input.
pub get_input_required_lem :
    (content path : String) (j : ℕ)
    → (contains (get_input_required content path) 0 ≡ false)
      × (contains (get_input_required content path) (suc j)
          ≡ (is_in ".env" path && asks_at j (splitlines content)))
unfolding get_input_required
get_input_required_lem content path j = (
  ground (arith, input_lines-later 1 0 (splitlines content)),
  ground (arith, contains-input_lines 1 j (splitlines content)),
)
