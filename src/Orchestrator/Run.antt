-- ===== src/Orchestrator/Run.antt =====
-- `_execute_agent`, `_run_single_agent`, `_run_parallel_agents` and the loop of `_run_step` in
-- core/agents/orchestrator.py. What the agents do is a parameter: a run of one agent, and what
-- `asyncio.gather` gives for several, over a world that has a current state.
use gpt_pilot.Prelude.{length, ◌≡◌, ℕ, zero, suc, Option, some, List, [], ◌∷◌, ◌++◌}
use gpt_pilot.Result.{Result, ok, raise, index_error, ◌>>=◌}
use gpt_pilot.ProjectState.{ProjectState}
use gpt_pilot.Agents.{ResponseType, AgentClass, AgentResponse, Agent}
use gpt_pilot.Orchestrator.Knowledge.{update_knowledge_base}
use gpt_pilot.Orchestrator.{
  Choice, one, many, Event, start, finish, response_of, check_outcomes, collect_responses,
  start_events, finish_events, handle_parallel_responses, create_agent,
}

-- What one execution gives: the last agent, the response, the world and the events published.
pub record Executed (W : Type 0) : Type 0 where
  pub agent : AgentClass
  pub response : AgentResponse
  pub world : W
  pub events : List Event

-- `gather` returns one outcome for each of the tasks.
pub record Runtime : Type 1 where
  pub World : Type 0
  pub current_state : World → ProjectState
  pub run_agent : Agent → World → Result AgentResponse × World
  pub gather : List Agent → World → List (Result AgentResponse) × World
  pub length-gather : (agents : List Agent) (w : World) → length (gather agents w).0 ≡ length agents
  pub next_state : World → ProjectState
  pub set_next_state : ProjectState → World → World

-- The loop has come to an end, or its fuel has.
pub data Progress (W : Type 0) : Type 0 where
  finished : Executed W → Progress W
  unfinished : List Event → Progress W

-- The test at the end of a round: EXIT and DONE end the loop.
abbrev pub ends_step :
    {W : Type 0}
    → ResponseType
    → List Event
    → Executed W
    → Result (Progress W)
    → Result (Progress W)
ends_step ResponseType.exit events x more = ok (finished (record x { events = events }))
ends_step ResponseType.done events x more = ok (finished (record x { events = events }))
ends_step type events x more = more

module _ (rt : Runtime) where
  open rt use {World, current_state, run_agent, gather, next_state, set_next_state}

  -- What is no Exception escapes before the message that the agent has finished.
  unfoldable pub run_single_agent : Agent → World → Result (Executed World)
  run_single_agent a w =
      let (outcome, w') = run_agent a w in
      check_outcomes (outcome ∷ []) >>= λ checked. ok (record {
        agent = a.class;
        response = response_of a.class outcome;
        world = w';
        events = start a.class ∷ finish a.class (response_of a.class outcome) ∷ [];
      })

  -- `agents[0]` of an empty list is an IndexError.
  unfoldable pub run_parallel_agents : List Agent → World → Result (Executed World)
  run_parallel_agents [] w = raise index_error
  run_parallel_agents (a ∷ agents) w = do
    let (raw, w') = gather (a ∷ agents) w
    checked ← check_outcomes raw
    next ← update_knowledge_base (a ∷ agents) (current_state w') (next_state w')
    response ← handle_parallel_responses a.class (collect_responses (a ∷ agents) raw)
    ok (record {
      agent = a.class;
      response = response;
      world = set_next_state next w';
      events = start_events (a ∷ agents) ++ finish_events (a ∷ agents) raw;
    })

  unfoldable pub execute_agent : Choice → World → Result (Executed World)
  execute_agent (one a) w = run_single_agent a w
  execute_agent (many agents) w = run_parallel_agents agents w

  -- One round of the loop: create an agent and execute it.
  unfoldable pub run_round : Option AgentResponse → World → Result (Executed World)
  run_round response w =
      create_agent (current_state w) response >>= λ choice. execute_agent choice w

  unfoldable pub run_step : ℕ → Option AgentResponse → World → List Event → Result (Progress World)
  run_step zero response w events = ok (unfinished events)
  run_step (suc fuel) response w events = run_round response w >>= λ x.
      let more = run_step fuel (some x.response) x.world (events ++ x.events) in
      ends_step x.response.type (events ++ x.events) x more
