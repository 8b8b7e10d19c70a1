-- ===== src/Orchestrator/Events.antt =====
-- The lifecycle events that the orchestrator publishes while it runs agents.
use gpt_pilot.Prelude.{
  ℕ, zero, suc, ◌+◌, ◌≡◌, refl, Option, none, some, List, [], ◌∷◌, ◌++◌, ◌==◌, arith, if◌then◌else◌,
  length, ◌∙◌, false, Bool-cases, ◌⊎◌, true, inl, inr, subst,
}
use gpt_pilot.Result.{Result, ok, >>=-eq-ok, ok-injective}
use gpt_pilot.Agents.{ResponseType, AgentClass, AgentResponse, Agent, agent_class_eq}
use gpt_pilot.Orchestrator.{
  Event, start, finish, start_events, finish_events, false, true, response_of, Choice, one,
  handle_parallel_responses, create_agent, collect_responses, many, check_outcomes,
}
use gpt_pilot.Orchestrator.Run.{
  Executed, Runtime, Progress, finished, unfinished, run_single_agent, run_parallel_agents,
  execute_agent, run_round, run_step, ends_step,
}
use gpt_pilot.Orchestrator.Knowledge.{update_knowledge_base}

-- How many runs of agents of a class are open after some events, when `n` were before; `none` if a
-- run is finished that was not started.
unfoldable pub open_runs : AgentClass → ℕ → List Event → Option ℕ
open_runs c n [] = some n
open_runs c n (start a ∷ events) = open_runs c (if a == c then suc n else n) events
open_runs c zero (finish a r ∷ events) =
    let rest = open_runs c zero events in if a == c then none else rest
open_runs c (suc n) (finish a r ∷ events) = open_runs c (if a == c then n else suc n) events

-- The response type with which a step ends.
abbrev pub Ended : {W : Type 0} → Progress W → Type 0
Ended (finished x) = (x.response.type ≡ ResponseType.done) ⊎ (x.response.type ≡ ResponseType.exit)
Ended (unfinished events) = Unit

-- The events after which as many runs of each class are open as before them.
abbrev pub IsBalanced : List Event → Type 0
IsBalanced events = (c : AgentClass) (n : ℕ) → open_runs c n events ≡ some n

open_runs-append :
    (c : AgentClass) (n m : ℕ) (xs ys : List Event)
    → open_runs c n xs ≡ some m
    → open_runs c n (xs ++ ys) ≡ open_runs c m ys
unfolding open_runs
open_runs-append c n m [] ys h = ground arith
open_runs-append c n m (start a ∷ xs) ys h =
    open_runs-append c (if a == c then suc n else n) m xs ys h
open_runs-append c zero m (finish a r ∷ xs) ys h = ground (arith, open_runs-append c zero m xs ys)
open_runs-append c (suc n) m (finish a r ∷ xs) ys h =
    open_runs-append c (if a == c then n else suc n) m xs ys h

append-IsBalanced : (xs ys : List Event) → IsBalanced xs → IsBalanced ys → IsBalanced (xs ++ ys)
append-IsBalanced xs ys bx by c n = open_runs-append c n n xs ys (bx c n) ∙ by c n

open_runs-finish_same :
    (c a : AgentClass) (n : ℕ) (r : AgentResponse) (events : List Event)
    → (a == c) ≡ true
    → open_runs c (suc n) (finish a r ∷ events) ≡ open_runs c n events
unfolding open_runs
open_runs-finish_same c a n r events h = rw h

open_runs-finish_other :
    (c a : AgentClass) (n : ℕ) (r : AgentResponse) (events : List Event)
    → (a == c) ≡ false
    → open_runs c n (finish a r ∷ events) ≡ open_runs c n events
unfolding open_runs
open_runs-finish_other c a zero r events h = rw h
open_runs-finish_other c a (suc n) r events h = rw h

count_class : AgentClass → List Agent → ℕ
count_class c [] = 0
count_class c (a ∷ agents) =
    let rest = count_class c agents in if a.class == c then suc rest else rest

open_runs-start_events :
    (c : AgentClass) (n : ℕ) (agents : List Agent)
    → open_runs c n (start_events agents) ≡ some (count_class c agents + n)
unfolding open_runs start_events count_class
open_runs-start_events c n [] = ground arith
open_runs-start_events c n (a ∷ agents) =
    ground (arith, open_runs-start_events c (if a.class == c then suc n else n) agents)

open_runs-finish_events :
    (c : AgentClass) (n : ℕ) (agents : List Agent) (raw : List (Result AgentResponse))
    → length raw ≡ length agents
    → open_runs c (count_class c agents + n) (finish_events agents raw) ≡ some n
unfolding open_runs finish_events count_class
open_runs-finish_events c n [] [] h = ground arith
open_runs-finish_events c n [] (r ∷ raw) h = absurd (omega arith)
open_runs-finish_events c n (a ∷ agents) [] h = absurd (omega arith)
open_runs-finish_events c n (a ∷ agents) (r ∷ raw) h =
    let rest = open_runs-finish_events c n agents raw (omega arith) in
    let k : ℕ = count_class c agents in
    elim (Bool-cases (a.class == c)) [
      | inl same ↦
          let e : suc k + n ≡ suc (k + n) = omega arith in
          rw same (
            rw e (
              open_runs-finish_same c a.class (k + n) (response_of a.class r)
                (finish_events agents raw) same
              ∙ rest))
      | inr other ↦ rw other (
          open_runs-finish_other c a.class (k + n) (response_of a.class r)
            (finish_events agents raw) other
          ∙ rest)
    ]

open_runs-start :
    (c a : AgentClass) (n : ℕ) (events : List Event)
    → open_runs c n (start a ∷ events) ≡ open_runs c (if a == c then suc n else n) events
unfolding open_runs
open_runs-start c a n events = refl

open_runs-nil : (c : AgentClass) (n : ℕ) → open_runs c n [] ≡ some n
unfolding open_runs
open_runs-nil c n = refl

single-IsBalanced : (a : AgentClass) (r : AgentResponse) → IsBalanced (start a ∷ finish a r ∷ [])
single-IsBalanced a r c n = elim (Bool-cases (a == c)) [
  | inl same ↦
      open_runs-start c a n (finish a r ∷ [])
      ∙ rw same (open_runs-finish_same c a n r [] same ∙ open_runs-nil c n)
  | inr other ↦
      open_runs-start c a n (finish a r ∷ [])
      ∙ rw other (open_runs-finish_other c a n r [] other ∙ open_runs-nil c n)
]

parallel-IsBalanced :
    (agents : List Agent) (raw : List (Result AgentResponse))
    → length raw ≡ length agents
    → IsBalanced (start_events agents ++ finish_events agents raw)
parallel-IsBalanced agents raw h c n =
    open_runs-append c n (count_class c agents + n) (start_events agents) (finish_events agents raw)
      (open_runs-start_events c n agents)
    ∙ open_runs-finish_events c n agents raw h

abbrev pub events_of : {W : Type 0} → Progress W → List Event
events_of (finished x) = x.events
events_of (unfinished events) = events

ends_step_lem :
    {W : Type 0} (type : ResponseType) (x : Executed W) (events : List Event)
    (more : Result (Progress W)) {p : Progress W}
    → x.response.type ≡ type
    → IsBalanced events
    → (more ≡ ok p → IsBalanced (events_of p) × Ended p)
    → ends_step type events x more ≡ ok p
    → IsBalanced (events_of p) × Ended p
ends_step_lem {W} ResponseType.exit x events more e b rest h =
    subst (λ (q : Progress W). IsBalanced (events_of q) × Ended q) (ok-injective h) (b, inr e)
ends_step_lem {W} ResponseType.done x events more e b rest h =
    subst (λ (q : Progress W). IsBalanced (events_of q) × Ended q) (ok-injective h) (b, inl e)
ends_step_lem {W} _ x events more e b rest h = rest h

module _ (rt : Runtime) where
  open rt use {World, gather, length-gather, current_state, next_state, run_agent}

  run_parallel-IsBalanced :
      (agents : List Agent) (w : World) (x : Executed World)
      → run_parallel_agents rt agents w ≡ ok x
      → IsBalanced x.events
  unfolding run_parallel_agents
  run_parallel-IsBalanced [] w x h = absurd (ground arith)
  run_parallel-IsBalanced (a ∷ agents) w x h =
      let (raw, w') = gather (a ∷ agents) w in
      let (checked, passed, h₁) = >>=-eq-ok (check_outcomes raw) _ h in
      let (w'', updated, h₂) =
        >>=-eq-ok (update_knowledge_base (a ∷ agents) (current_state w') (next_state w')) _ h₁ in
      let (response, handled, h₃) =
        >>=-eq-ok (handle_parallel_responses a.class (collect_responses (a ∷ agents) raw)) _ h₂ in
      subst (λ (y : Executed World). IsBalanced y.events) (ok-injective h₃)
        (parallel-IsBalanced (a ∷ agents) raw (length-gather (a ∷ agents) w))

  execute_agent-IsBalanced :
      (choice : Choice) (w : World) (x : Executed World)
      → execute_agent rt choice w ≡ ok x
      → IsBalanced x.events
  unfolding execute_agent run_single_agent
  execute_agent-IsBalanced (one a) w x h =
      let (outcome, w') = run_agent a w in
      let (checked, passed, h') = >>=-eq-ok (check_outcomes (outcome ∷ [])) _ h in
      subst (λ (y : Executed World). IsBalanced y.events) (ok-injective h')
        (single-IsBalanced a.class (response_of a.class outcome))
  execute_agent-IsBalanced (many agents) w x h = run_parallel-IsBalanced agents w x h

  run_round-IsBalanced :
      (response : Option AgentResponse) (w : World) (x : Executed World)
      → run_round rt response w ≡ ok x
      → IsBalanced x.events
  unfolding run_round
  run_round-IsBalanced response w x h =
      let (choice, created, h') = >>=-eq-ok (create_agent (rt.current_state w) response) _ h in
      execute_agent-IsBalanced choice w x h'

  pub run_step-IsBalanced :
      (fuel : ℕ) (response : Option AgentResponse) (w : World) (events : List Event)
      {p : Progress World}
      → IsBalanced events
      → run_step rt fuel response w events ≡ ok p
      → IsBalanced (events_of p) × Ended p
  unfolding run_step
  run_step-IsBalanced zero response w events b h =
      subst (λ (q : Progress World). IsBalanced (events_of q) × Ended q) (ok-injective h) (b, tt)
  run_step-IsBalanced (suc fuel) response w events b h =
      let (x, run, h') = >>=-eq-ok (run_round rt response w) _ h in
      let b' = append-IsBalanced events x.events b (run_round-IsBalanced response w x run) in
      ends_step_lem x.response.type x (events ++ x.events) _ refl b'
        (run_step-IsBalanced fuel (some x.response) x.world (events ++ x.events) b') h'
