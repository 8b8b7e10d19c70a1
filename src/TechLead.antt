-- ===== src/TechLead.antt =====
-- class TechLead of core/agents/tech_lead.py. The answers of the user and the plans of the LLM are
-- arguments, and so are the texts with numbers in them and the ids: `uuid` gives one for the number of
-- tasks that come before.
pub mod Editing
pub mod Planning
use Prim.Native.String
use gpt_pilot.Prelude.{
  ℕ, suc, ◌+◌, String, Bool, true, false, not, ◌&&◌, ◌||◌, Eq, Option, none, some, List, [], ◌∷◌,
  ◌++◌, ◌==◌, string_eq, option_eq, nat_eq, select, map, length, is_empty, update_first, head?,
  if◌then◌else◌,
}
use gpt_pilot.Prelude.Dict.{is_some}
use gpt_pilot.Result.{Result, ok, raise, type_error, ◌>>=◌}
use gpt_pilot.Records.{Task, TaskStatus, Epic, SubEpic}
use gpt_pilot.Records.Work.{is_unfinished_epic}
use gpt_pilot.ProjectState.{ProjectState, unfinished_epics, current_epic}
use gpt_pilot.Agents.{AgentClass, AgentResponse, respond_done, respond_exit}
use gpt_pilot.BugHunter.{UserInput, is_text}
use gpt_pilot.Troubleshooter.{FilesAction, get_relevant_files}

unfoldable pub TaskStatus-discrete : Discrete TaskStatus
TaskStatus-discrete = hlevel

instance unfoldable pub task_status_eq : Eq TaskStatus
task_status_eq = record { dec = TaskStatus-discrete }

-- `_build_epic`
abbrev pub build_epic : String → String → String → Option String → Epic
build_epic name description source complexity = record {
  name = name;
  source = some source;
  completed = false;
  description = description;
  complexity = complexity;
  sub_epics = [];
}

unfoldable pub create_initial_project_epic : ProjectState → ProjectState → ProjectState
create_initial_project_epic current next = record next {
  epics =
      current.epics
      ++ build_epic "Initial Project" current.specification.description "app"
          (some current.specification.complexity)
        ∷ [];
  relevant_files = none;
  modified_files = [];
}

-- The texts for the number of a feature.
pub record FeatureTexts : Type 0 where
  pub name : ℕ → String
  pub action : ℕ → String

abbrev pub or_blank : Option String → String
or_blank none = ""
or_blank (some text) = text

-- The response is none where it is `AgentResponse.update_specification` with the description.
unfoldable pub ask_for_new_feature :
    FeatureTexts → UserInput → ProjectState → ProjectState → Option AgentResponse × ProjectState
ask_for_new_feature texts answer current next =
    if answer.button == some "end" || answer.cancelled || not (is_text answer.text)
    then (some (respond_exit AgentClass.tech_lead), next)
    else (
      none,
      record next {
        epics =
            current.epics
            ++ build_epic (texts.name (length current.epics)) (or_blank answer.text) "feature" none
              ∷ [];
        action = some (texts.action (length current.epics));
      },
    )

abbrev pub new_task : String → String → ℕ → Task
new_task id description sub_epic_id = record {
  description = description;
  status = some TaskStatus.todo;
  test_instructions = none;
  id = id;
  instructions = some none;
  pre_breakdown_testing_instructions = none;
  sub_epic_id = some sub_epic_id;
  related_api_endpoints = none;
}

-- `task == original_task`
unfoldable pub same_task : Task → Task → Bool
same_task a b =
    a.description == b.description
    && a.status == b.status
    && a.test_instructions == b.test_instructions
    && a.id == b.id
    && a.instructions == b.instructions
    && a.pre_breakdown_testing_instructions == b.pre_breakdown_testing_instructions
    && a.sub_epic_id == b.sub_epic_id
    && a.related_api_endpoints == b.related_api_endpoints

-- `existing_tasks_map.get(description)`: of tasks with the same description the map has the last.
unfoldable pub existing_task : String → List Task → Option Task
existing_task description [] = none
existing_task description (t ∷ ts) =
    let later = existing_task description ts in
    if is_some later then later else if t.description == description then some t else none

-- A sub epic of the plan that the user has edited.
pub record EditedEpic : Type 0 where
  pub description : String
  pub tasks : List Task

abbrev pub kept_or_new : String → Option Task → ℕ → Task → Task
kept_or_new id none number task = new_task id task.description number
kept_or_new id (some original) number task =
    if same_task task original
    then record original { sub_epic_id = some number }
    else new_task id task.description number

abbrev pub updated_task : String → List Task → ℕ → Task → Task
updated_task id existing number task =
    kept_or_new id (existing_task task.description existing) number task

unfoldable pub updated_tasks : (ℕ → String) → List Task → ℕ → List Task → List Task → List Task
updated_tasks uuid existing number updated [] = updated
updated_tasks uuid existing number updated (t ∷ ts) =
    updated_tasks uuid existing number
      (updated ++ updated_task (uuid (length updated)) existing number t ∷ []) ts

unfoldable pub updated_plan : (ℕ → String) → List Task → ℕ → List Task → List EditedEpic → List Task
updated_plan uuid existing number updated [] = updated
updated_plan uuid existing number updated (e ∷ es) =
    updated_plan uuid existing (suc number) (updated_tasks uuid existing number updated e.tasks) es

unfoldable pub numbered_epics : ℕ → List String → List SubEpic
numbered_epics number [] = []
numbered_epics number (d ∷ ds) =
    record { id = number; description = d } ∷ numbered_epics (suc number) ds

-- `self.next_state.current_epic["sub_epics"] = ...`
unfoldable pub set_sub_epics : List SubEpic → ProjectState → Result ProjectState
set_sub_epics sub_epics next =
    if is_empty (unfinished_epics next)
    then raise type_error
    else ok (record next {
      epics =
          update_first is_unfinished_epic (λ (e : Epic). record e { sub_epics = sub_epics })
            next.epics;
    })

unfoldable pub update_epics_and_tasks :
    (ℕ → String) → List EditedEpic → ProjectState → Result ProjectState
update_epics_and_tasks uuid edited_plan next =
    set_sub_epics (numbered_epics 1 (map (λ (e : EditedEpic). e.description) edited_plan)) next
    >>= λ next'. ok (record next' { tasks = updated_plan uuid next.tasks 1 [] edited_plan })
