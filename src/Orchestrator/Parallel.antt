-- ===== src/Orchestrator/Parallel.antt =====
-- `handle_parallel_responses`: how the responses of agents that ran in parallel become one.
use gpt_pilot.Prelude.{◌≡◌, refl, List, [], ◌∷◌, arith, ◌≢◌, ◌++◌}
use gpt_pilot.Result.{ok}
use gpt_pilot.Agents.{
  ResponseType, AgentClass, InputFile, AgentResponse, respond_done, respond_input_required,
}
use gpt_pilot.Orchestrator.{handle_parallel_responses, first_input_required}

-- None of the responses asks for input.
abbrev pub NoInputRequired : List AgentResponse → Type 0
NoInputRequired [] = Unit
NoInputRequired (r ∷ responses) = (r.type ≢ ResponseType.input_required) × NoInputRequired responses

first_input_required_none :
    (responses : List AgentResponse)
    → NoInputRequired responses
    → first_input_required responses ≡ []
unfolding first_input_required
first_input_required_none [] h = refl
first_input_required_none (r ∷ responses) h = ground (arith, first_input_required_none responses)

-- Responses of CodeMonkey agents that ask for no input are combined into DONE, whatever their types
-- are: an ERROR or a CANCEL among them is lost.
pub handle_parallel_responses_done :
    (responses : List AgentResponse)
    → NoInputRequired responses
    → handle_parallel_responses AgentClass.code_monkey responses
      ≡ ok (respond_done AgentClass.code_monkey)
unfolding handle_parallel_responses
handle_parallel_responses_done responses h = rw (first_input_required_none responses h)

first_input_required-append :
    (before after : List AgentResponse) (r : AgentResponse)
    → NoInputRequired before
    → r.type ≡ ResponseType.input_required
    → first_input_required (before ++ r ∷ after) ≡ r.files
unfolding first_input_required
first_input_required-append [] after r h t = ground arith
first_input_required-append (b ∷ before) after r h t =
    ground (arith, first_input_required-append before after r)

-- Only the first response that asks for input counts: the files of later ones are not asked for.
pub handle_parallel_responses_first :
    (before after : List AgentResponse) (r : AgentResponse) (f : InputFile) (files : List InputFile)
    → NoInputRequired before
    → r.type ≡ ResponseType.input_required
    → r.files ≡ f ∷ files
    → handle_parallel_responses AgentClass.code_monkey (before ++ r ∷ after)
      ≡ ok (respond_input_required AgentClass.code_monkey (f ∷ files))
unfolding handle_parallel_responses
handle_parallel_responses_first before after r f files h t e =
    rw (first_input_required-append before after r h t) (rw e)
