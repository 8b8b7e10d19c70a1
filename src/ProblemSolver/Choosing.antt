-- ===== src/ProblemSolver/Choosing.antt =====
-- Which solution core/agents/problem_solver.py marks as tried.
use gpt_pilot.Prelude.{
  ℕ, zero, suc, ◌<◌, ◌≡◌, refl, ap, sym, String, true, false, Option, some, List, [], ◌∷◌, ◌++◌,
  ◌==◌, string_eq, option_eq, select, length, arith, Bool-cases, inl, inr, ◌+◌, ◌∙◌,
}
use gpt_pilot.Result.{ok}
use gpt_pilot.Records.{Iteration, IterationStatus, Solution}
use gpt_pilot.ProjectState.{ProjectState, current_iteration}
use gpt_pilot.BugHunter.{UserInput}
use gpt_pilot.BugHunter.Missing.{
  LastUnfinished, LastUnfinished-current_iteration, change_current_iteration-LastUnfinished,
}
use gpt_pilot.ProblemSolver.{
  possible_solutions, solution_at, mark_tried, try_solution, ask_for_preferred_solution,
  solve_problem, try_alternative_solutions,
}
use gpt_pilot.Agents.{respond_done, AgentClass}

-- A solution that was tried and is marked again is the same.
tried_already : (s : Solution) → s.tried ≡ true → record s { tried = true } ≡ s
tried_already s h = ap (λ b. record s { tried = b }) (sym h)

head_tried :
    (s : Solution) (ss : List Solution)
    → possible_solutions (s ∷ ss) ≡ []
    → (s.tried ≡ true) × (possible_solutions ss ≡ [])
unfolding possible_solutions select
head_tried s ss h = elim (Bool-cases s.tried) [
  | inl tried ↦ (tried, ground (arith, tried, h))
  | inr untried ↦ absurd (ground (arith, untried, h))
]

mark_tried-tried :
    (i : ℕ) (tried untried : List Solution)
    → possible_solutions tried ≡ []
    → i < length tried
    → mark_tried i (tried ++ untried) ≡ ok (tried ++ untried)
unfolding mark_tried
mark_tried-tried i [] untried all below = absurd (omega arith)
mark_tried-tried zero (s ∷ ss) untried all below =
    ap (λ t. ok (t ∷ ss ++ untried)) (tried_already s (head_tried s ss all).0)
mark_tried-tried (suc i) (s ∷ ss) untried all below =
    rw (mark_tried-tried i ss untried (head_tried s ss all).1 (omega arith)) refl

possible_solutions-append :
    (tried untried : List Solution)
    → possible_solutions tried ≡ []
    → possible_solutions (tried ++ untried) ≡ possible_solutions untried
unfolding possible_solutions select
possible_solutions-append [] untried all = refl
possible_solutions-append (s ∷ ss) untried all =
    let (tried, rest) = head_tried s ss all in
    ground (arith, tried, possible_solutions-append ss untried rest)

solution_at-below :
    (i : ℕ) (ss : List Solution) → i < length ss → (s : Solution) × (solution_at i ss ≡ some s)
solution_at-below i [] below = absurd (omega arith)
solution_at-below zero (s ∷ ss) below = (s, refl)
solution_at-below (suc i) (s ∷ ss) below = solution_at-below i ss (omega arith)

-- The answer with the button for a number.
pub record Chooses (int : String → Option ℕ) (answer : UserInput) (i : ℕ) : Type 0 where
  pub name : String
  pub button : answer.button ≡ some name
  pub not_none : (name == "none") ≡ false
  pub not_cancelled : answer.cancelled ≡ false
  pub number : int name ≡ some i

ask_for_preferred_solution-Chooses :
    (int : String → Option ℕ) (answer : UserInput) (i : ℕ) (ss : List Solution) (s : Solution)
    → Chooses int answer i
    → solution_at i ss ≡ some s
    → ask_for_preferred_solution int answer ss ≡ ok (some (i, s))
unfolding ask_for_preferred_solution
ask_for_preferred_solution-Chooses int answer i ss s c at =
    ground (arith, c.button, c.not_none, c.not_cancelled, c.number, at)

abbrev pub solved : String → ℕ → List Solution → Iteration → Iteration
solved llm_solution attempts solutions i = record i {
  alternative_solutions = solutions;
  description = some llm_solution;
  attempts = attempts;
  status = some IterationStatus.problem_solver;
}

try_solution-marked :
    (llm_solution : String) (index : ℕ) (iteration i : Iteration) (next : ProjectState)
    (solutions : List Solution) (l : LastUnfinished i next)
    → mark_tried index i.alternative_solutions ≡ ok solutions
    → try_solution llm_solution index iteration next
      ≡ ok (record next {
        iterations = l.others ++ solved llm_solution (iteration.attempts + 1) solutions i ∷ [];
      })
unfolding try_solution
try_solution-marked llm_solution index iteration i next solutions l marked = ground (
  arith,
  LastUnfinished-current_iteration i next l,
  marked,
  change_current_iteration-LastUnfinished (solved llm_solution (iteration.attempts + 1) solutions) i
      next l,
)

solve_problem-chosen :
    (int : String → Option ℕ) (descriptions : List String) (answer : UserInput)
    (llm_solution : String) (i : ℕ) (it : Iteration) (s : Solution) (possible : List Solution)
    (current next next' : ProjectState)
    → current_iteration current ≡ some it
    → possible_solutions it.alternative_solutions ≡ possible
    → Chooses int answer i
    → solution_at i possible ≡ some s
    → try_solution llm_solution i it next ≡ ok next'
    → solve_problem int descriptions answer llm_solution current next
      ≡ ok (respond_done AgentClass.problem_solver, next')
unfolding solve_problem try_alternative_solutions
solve_problem-chosen int descriptions answer llm_solution i it s [] current next next' at possible c
      found tried =
    absurd (ground (arith, found))
solve_problem-chosen int descriptions answer llm_solution i it s (p ∷ ps) current next next' at
      possible c found tried =
    ground (
      arith,
      at,
      possible,
      ask_for_preferred_solution-Chooses int answer i (p ∷ ps) s c found,
      tried,
    )

-- When solutions that were tried come before those that were not, a choice among the latter with a
-- number below that of the former marks none of them: the ProblemSolver tries the chosen solution, and
-- the list stays as it was, so that the solution is offered again.
pub solve_problem-same :
    (int : String → Option ℕ) (descriptions : List String) (answer : UserInput)
    (llm_solution : String) (i : ℕ) (it : Iteration) (tried untried : List Solution)
    (current next : ProjectState)
    → current_iteration current ≡ some it
    → LastUnfinished it next
    → it.alternative_solutions ≡ tried ++ untried
    → possible_solutions tried ≡ []
    → possible_solutions untried ≡ untried
    → Chooses int answer i
    → i < length tried
    → i < length untried
    → (next' : ProjectState) × (it' : Iteration) × (solve_problem int descriptions answer
          llm_solution current next
        ≡ ok (respond_done AgentClass.problem_solver, next'))
      × (current_iteration next' ≡ some it')
      × (it'.description ≡ some llm_solution)
      × (it'.alternative_solutions ≡ it.alternative_solutions)
solve_problem-same int descriptions answer llm_solution i it tried untried current next at l parts
      all_tried all_untried c below_tried below_untried =
    let (s, found) = solution_at-below i untried below_untried in
    let it' = solved llm_solution (it.attempts + 1) (tried ++ untried) it in
    let next' = record next { iterations = l.others ++ it' ∷ [] } in
    let possible =
      ap possible_solutions parts
      ∙ possible_solutions-append tried untried all_tried
      ∙ all_untried in
    (
      next',
      it',
      solve_problem-chosen int descriptions answer llm_solution i it s untried current next next' at
          possible c found
          (try_solution-marked llm_solution i it it next (tried ++ untried) l
            (ap (mark_tried i) parts ∙ mark_tried-tried i tried untried all_tried below_tried)),
      LastUnfinished-current_iteration it' next' (record {
        others = l.others;
        finished = l.finished;
        iterations = refl;
        unfinished = refl;
      }),
      refl,
      sym parts,
    )
