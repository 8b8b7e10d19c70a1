-- ===== src/Orchestrator/Knowledge/Implemented.antt =====
-- `_update_knowledge_base` of core/agents/orchestrator.py with `update_apis` and
-- `update_implemented_pages_and_apis` of core/state/state_manager.py: what comes of the endpoints that
-- an agent has implemented.
use gpt_pilot.Prelude.{
  ◌≡◌, refl, ap, Bool, true, false, not, none, some, List, [], ◌∷◌, map, any, is_empty, string_eq,
  if◌then◌else◌, Bool-cases, inl, inr, arith, String,
}
use gpt_pilot.Result.{ok, raise, key_error}
use gpt_pilot.Records.{Step, Api}
use gpt_pilot.ProjectState.{ProjectState, get_file_by_path}
use gpt_pilot.Agents.{Agent, AgentClass}
use gpt_pilot.StateManager.Knowledge.{
  ImplementedFile, mark_files, mark_endpoints, line_of, update_apis, get_apis,
  update_implemented_pages_and_apis,
}
use gpt_pilot.StateManager.Knowledge.Marking.{update_implemented_pages_and_apis-set_apis}
use gpt_pilot.Orchestrator.Knowledge.{
  step_of, concerns_knowledge_base, should_update, implements_nothing, endpoint_infos,
  files_with_implemented_apis, update_knowledge_base, path_or_blank, String, implemented_file,
  text_of,
}

-- The agents that the orchestrator creates for steps.
abbrev pub agents_for : AgentClass → List Step → List Agent
agents_for class steps =
    map (λ step. record { class = class; step = some step; prev_response = none }) steps

abbrev pub implements : Step → Bool
implements step = not (implements_nothing step)

should_update-agents_for :
    (class : AgentClass) (steps : List Step)
    → should_update (agents_for class steps) ≡ ok (any concerns_knowledge_base steps)
unfolding should_update step_of any
should_update-agents_for class [] = refl
should_update-agents_for class (step ∷ steps) = ground (arith, should_update-agents_for class steps)

mark_endpoints-endpoint_infos :
    (path content : String) (apis : List Api) (endpoints : List String)
    → is_empty endpoints ≡ false
    → mark_endpoints path (endpoint_infos content endpoints) apis ≡ raise (key_error "line")
unfolding mark_endpoints endpoint_infos line_of
mark_endpoints-endpoint_infos path content apis [] some_there = absurd (ground arith)
mark_endpoints-endpoint_infos path content apis (_ ∷ _) some_there = refl

mark_files-implemented_file :
    (current : ProjectState) (step : Step) (files : List ImplementedFile) (apis : List Api)
    → implements_nothing step ≡ false
    → mark_files (implemented_file current step ∷ files) apis ≡ raise (key_error "line")
unfolding mark_files implemented_file implements_nothing
mark_files-implemented_file current step files apis something =
    let path = path_or_blank step.save_path in
    rw
      (mark_endpoints-endpoint_infos path (text_of (get_file_by_path current path)) apis
        step.related_api_endpoints (ground (arith, something)))
      refl

mark_files-agents_for :
    (class : AgentClass) (current : ProjectState) (apis : List Api) (steps : List Step)
    → (files : List ImplementedFile) × (files_with_implemented_apis current (agents_for class steps)
        ≡ ok files)
      × (mark_files files apis
          ≡ (if any implements steps then raise (key_error "line") else ok apis))
unfolding files_with_implemented_apis step_of any mark_files
mark_files-agents_for class current apis [] = ([], refl, refl)
mark_files-agents_for class current apis (step ∷ steps) =
    let (files, e, marks) = mark_files-agents_for class current apis steps in
    elim (Bool-cases (implements_nothing step)) [
      | inl nothing ↦ (files, rw (e, nothing) refl, rw (nothing) marks)
      | inr something ↦ (
        implemented_file current step ∷ files,
        rw (e, something) refl,
        rw (something) (mark_files-implemented_file current step files apis something),
      )
    ]

any-implements :
    (steps : List Step) → any implements steps ≡ true → any concerns_knowledge_base steps ≡ true
unfolding any concerns_knowledge_base implements_nothing
any-implements [] some_there = absurd (ground arith)
any-implements (step ∷ steps) some_there = ground (arith, some_there, any-implements steps)

-- Once an agent has implemented an endpoint in a file, the update of the knowledge base raises a
-- KeyError: it passes on `lines` where `update_apis` reads `line`. Else the pages and APIs are read
-- anew, where a step concerns them.
pub update_knowledge_base_lem :
    (class : AgentClass) (current next : ProjectState) (steps : List Step)
    → update_knowledge_base (agents_for class steps) current next ≡ (
        if any implements steps
        then raise (key_error "line")
        else if any concerns_knowledge_base steps
        then ok (update_implemented_pages_and_apis current next)
        else ok next)
unfolding update_knowledge_base update_apis
update_knowledge_base_lem class current next steps =
    let (files, found, marks) = mark_files-agents_for class current (get_apis current next) steps in
    elim (Bool-cases (any implements steps)) [
      | inl implemented ↦
          rw
            (
              should_update-agents_for class steps,
              any-implements steps implemented,
              found,
              marks,
              implemented,
            )
            refl
      | inr none_there ↦ elim (Bool-cases (any concerns_knowledge_base steps)) [
        | inr no_concern ↦ rw (should_update-agents_for class steps, no_concern, none_there) refl
        | inl concern ↦
            rw (should_update-agents_for class steps, concern, found, marks, none_there)
              (ap (λ s. ok s)
                (update_implemented_pages_and_apis-set_apis current next (get_apis current next)))
      ]
    ]
