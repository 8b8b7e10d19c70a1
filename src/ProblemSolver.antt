-- ===== src/ProblemSolver.antt =====
-- class ProblemSolver of core/agents/problem_solver.py. The answers of the user and the LLM are
-- arguments, and so is `int`, which reads the name of a button: the buttons that are offered are
-- numbers from 0 on, and `none`.
pub mod Choosing
use gpt_pilot.Prelude.{
  ℕ, zero, suc, ◌+◌, String, Bool, true, false, not, ◌||◌, Option, none, some, List, [], ◌∷◌, ◌++◌,
  ◌==◌, string_eq, option_eq, select, map, is_empty, if◌then◌else◌,
}
use gpt_pilot.Result.{Result, ok, raise, type_error, index_error, ◌>>=◌}
use gpt_pilot.Records.{Iteration, IterationStatus, Solution}
use gpt_pilot.ProjectState.{ProjectState, current_iteration}
use gpt_pilot.ProjectState.Iterations.{change_current_iteration, iteration_of}
use gpt_pilot.Agents.{AgentClass, AgentResponse, respond_done}
use gpt_pilot.BugHunter.{UserInput, is_text}

unfoldable pub possible_solutions : List Solution → List Solution
possible_solutions = select (λ (s : Solution). not s.tried)

-- `solutions[i]`
abbrev pub solution_at : ℕ → List Solution → Option Solution
solution_at i [] = none
solution_at zero (s ∷ ss) = some s
solution_at (suc i) (s ∷ ss) = solution_at i ss

-- `alternative_solutions[index]["tried"] = True`
unfoldable pub mark_tried : ℕ → List Solution → Result (List Solution)
mark_tried i [] = raise index_error
mark_tried zero (s ∷ ss) = ok (record s { tried = true } ∷ ss)
mark_tried (suc i) (s ∷ ss) = mark_tried i ss >>= λ ss'. ok (s ∷ ss')

abbrev pub new_solution : String → Solution
new_solution description = record { user_feedback = none; description = description; tried = false }

unfoldable pub generate_alternative_solutions :
    List String → Iteration → ProjectState → Result ProjectState
generate_alternative_solutions descriptions iteration = change_current_iteration (λ (i : Iteration).
    record i {
      alternative_solutions = iteration.alternative_solutions ++ map new_solution descriptions;
    })

-- A solution that the user did not choose.
abbrev pub rejected : Solution → Solution
rejected s = record s {
  tried = true;
  user_feedback =
      if is_text s.user_feedback
      then s.user_feedback
      else some "That doesn't sound like a good idea, try something else.";
}

-- The solution with a number, unless there is none.
abbrev pub numbered : List Solution → Option ℕ → Option (ℕ × Solution)
numbered solutions none = none
numbered solutions (some i) = elim (solution_at i solutions) [ none ↦ none | some s ↦ some (i, s) ]

abbrev pub on_button :
    (String → Option ℕ) → List Solution → Option String → Result (Option (ℕ × Solution))
on_button int solutions none = raise type_error
on_button int solutions (some button) = ok (numbered solutions (int button))

unfoldable pub ask_for_preferred_solution :
    (String → Option ℕ) → UserInput → List Solution → Result (Option (ℕ × Solution))
ask_for_preferred_solution int answer solutions =
    if answer.button == some "none" || answer.cancelled
    then ok none
    else on_button int solutions answer.button

-- The next iteration after the preferred solution was tried: its index is that among the possible
-- solutions.
unfoldable pub try_solution : String → ℕ → Iteration → ProjectState → Result ProjectState
try_solution llm_solution index iteration next = do
  i ← iteration_of next
  solutions ← mark_tried index i.alternative_solutions
  change_current_iteration
      (λ (i : Iteration). record i {
        alternative_solutions = solutions;
        description = some llm_solution;
        attempts = iteration.attempts + 1;
        status = some IterationStatus.problem_solver;
      })
      next

unfoldable pub try_alternative_solutions :
    (String → Option ℕ) → UserInput → String → Iteration → ProjectState → Result ProjectState
try_alternative_solutions int answer llm_solution iteration next = do
  preferred ←
      ask_for_preferred_solution int answer (possible_solutions iteration.alternative_solutions)
  elim preferred [
    | none ↦
        change_current_iteration
          (λ (i : Iteration). record i {
            alternative_solutions =
                map rejected (possible_solutions iteration.alternative_solutions);
          })
          next
    | some (index, solution) ↦ try_solution llm_solution index iteration next
  ]

-- The constructor, which reads the iteration, and `run`.
unfoldable pub solve_problem :
    (String → Option ℕ)
    → List String
    → UserInput
    → String
    → ProjectState
    → ProjectState
    → Result (AgentResponse × ProjectState)
solve_problem int descriptions answer llm_solution current next = do
  iteration ← iteration_of current
  next' ←
      if is_empty (possible_solutions iteration.alternative_solutions)
      then generate_alternative_solutions descriptions iteration next
      else try_alternative_solutions int answer llm_solution iteration next
  ok (respond_done AgentClass.problem_solver, next')
