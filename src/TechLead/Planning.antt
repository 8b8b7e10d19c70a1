-- ===== src/TechLead/Planning.antt =====
-- `plan_epic` and `run` of core/agents/tech_lead.py. The templates of a project are applied by a
-- function that is given.
use gpt_pilot.Prelude.{
  ℕ, suc, String, Bool, false, not, ◌&&◌, ◌||◌, Option, none, some, List, [], ◌∷◌, ◌++◌, ◌==◌,
  string_eq, option_eq, nat_eq, length, is_empty, if◌then◌else◌,
}
use gpt_pilot.Result.{Result, ok, ◌>>=◌}
use gpt_pilot.Prelude.Dict.{Dict}
use gpt_pilot.Records.{Task, Epic}
use gpt_pilot.ProjectState.{ProjectState, current_epic}
use gpt_pilot.Agents.{AgentClass, AgentResponse, respond_done}
use gpt_pilot.BugHunter.{UserInput}
use gpt_pilot.Troubleshooter.{FilesAction, get_relevant_files}
use gpt_pilot.TechLead.{
  new_task, EditedEpic, FeatureTexts, update_epics_and_tasks, create_initial_project_epic,
  ask_for_new_feature,
}

-- What the LLM plans: a task of an epic, and an epic with its tasks.
pub record PlannedTask : Type 0 where
  pub description : String
  pub testing_instructions : String
  pub related_api_endpoints : String

pub record PlannedEpic : Type 0 where
  pub description : String
  pub plan : List PlannedTask

abbrev pub planned_task : (ℕ → String) → ℕ → List Task → PlannedTask → Task
planned_task uuid number tasks p = record (new_task (uuid (length tasks)) p.description number) {
  pre_breakdown_testing_instructions = some p.testing_instructions;
  related_api_endpoints = some p.related_api_endpoints;
}

-- The tasks of a plan behind those that there are: of one epic, of all, or one for each epic.
unfoldable pub with_planned_tasks : (ℕ → String) → ℕ → List Task → List PlannedTask → List Task
with_planned_tasks uuid number tasks [] = tasks
with_planned_tasks uuid number tasks (p ∷ ps) =
    with_planned_tasks uuid number (tasks ++ planned_task uuid number tasks p ∷ []) ps

unfoldable pub with_planned_epics : (ℕ → String) → ℕ → List Task → List PlannedEpic → List Task
with_planned_epics uuid number tasks [] = tasks
with_planned_epics uuid number tasks (e ∷ es) =
    with_planned_epics uuid (suc number) (with_planned_tasks uuid number tasks e.plan) es

unfoldable pub with_simple_tasks : (ℕ → String) → List Task → List PlannedEpic → List Task
with_simple_tasks uuid tasks [] = tasks
with_simple_tasks uuid tasks (e ∷ es) =
    with_simple_tasks uuid (tasks ++ new_task (uuid (length tasks)) e.description 1 ∷ []) es

abbrev pub is_simple : Epic → Bool
is_simple epic = epic.source == some "feature" || epic.complexity == some "simple"

-- The answers of the LLM, and the plan as the user gives it back.
pub record Planning : Type 0 where
  pub actions : List FilesAction
  pub plan : List PlannedEpic
  pub edited_plan : Result (List EditedEpic)

unfoldable pub plan_epic :
    (ℕ → String)
    → Planning
    → Epic
    → ProjectState
    → ProjectState
    → Result (ProjectState × ProjectState)
plan_epic uuid p epic current next =
    let (current1, next1) =
      if epic.source == some "feature"
      then get_relevant_files p.actions current next
      else (current, next) in
    let tasks =
      if is_simple epic
      then with_simple_tasks uuid next1.tasks p.plan
      else with_planned_epics uuid 1 next1.tasks p.plan in
    p.edited_plan >>= λ edited.
    update_epics_and_tasks uuid edited (record next1 { tasks = tasks }) >>= λ next2.
    ok (current1, next2)

abbrev pub any_templates : Option (Dict String) → Bool
any_templates none = false
any_templates (some templates) = not (is_empty templates)

-- Whether the only epic is that of the frontend, and completed.
abbrev pub is_only_completed : List Epic → Bool
is_only_completed (e ∷ []) = e.completed
is_only_completed epics = false

-- `run`: the response, where it is not the one that updates the specification, and the states.
unfoldable pub lead :
    (ℕ → String)
    → FeatureTexts
    → Planning
    → UserInput
    → (ProjectState → ProjectState → ProjectState)
    → ProjectState
    → ProjectState
    → Result (Option AgentResponse × ProjectState × ProjectState)
lead uuid texts p answer apply_project_templates current next =
    if is_empty current.epics || is_only_completed current.epics
    then ok (
      some (respond_done AgentClass.tech_lead),
      current,
      create_initial_project_epic current next,
    )
    else if any_templates current.specification.templates && is_empty current.files
    then ok (
      some (respond_done AgentClass.tech_lead),
      current,
      record (apply_project_templates current next) { action = some "Apply project templates" },
    )
    else elim (current_epic current) [
      | some epic ↦
          plan_epic uuid p epic current (record next { action = some "Create a development plan" })
          >>= λ states. ok (some (respond_done AgentClass.tech_lead), states.0, states.1)
      | none ↦
          let (response, next') = ask_for_new_feature texts answer current next in
          ok (response, current, next')
    ]
