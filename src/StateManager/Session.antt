-- ===== src/StateManager/Session.antt =====
-- The database session of class StateManager in core/state/state_manager.py: create_project,
-- load_project, commit and rollback, with the queries of core/db/models/branch.py and
-- core/db/models/project.py that they use. The tables are lists of rows. A row keeps no note of a next
-- state, which is a mark on the object in memory. What a call leaves behind when it raises is not
-- modelled.
pub mod Rows
pub mod Chain
pub mod History
pub mod Reload
use gpt_pilot.Prelude.{
  ℕ, zero, suc, ◌+◌, String, Bool, true, false, not, ◌&&◌, ◌||◌, Option, none, some, List, [], ◌∷◌,
  ◌++◌, ◌==◌, nat_eq, string_eq, option_eq, contains, select, find?, update_first, ltb,
  if◌then◌else◌, any,
}
use gpt_pilot.Result.{Result, ok, raise, value_error, retry_error, ◌>>=◌}
use gpt_pilot.ProjectState.{ProjectState, create_initial_state, create_next_state, delete_after}

pub record Branch : Type 0 where
  pub id : ℕ
  pub project_id : ℕ
  pub name : String

pub record Tables : Type 0 where
  pub projects : List ℕ
  pub branches : List Branch
  pub states : List ProjectState

-- `current_state` and `next_state`: None, one object under both names, or two objects.
pub data Held : Type 0 where
  nothing : Held
  same : ProjectState → Held
  pair : ProjectState → ProjectState → Held

-- `in_session` says that `current_session` is not None.
pub record Manager : Type 0 where
  pub tables : Tables
  pub in_session : Bool
  pub held : Held

unfoldable pub is_of_branch : ℕ → ProjectState → Bool
is_of_branch branch_id row = row.branch_id == branch_id

-- The first of the rows of the branch, ordered by the step index, the highest first.
unfoldable pub get_last_state : ℕ → List ProjectState → Option ProjectState
unfolding is_of_branch
get_last_state branch_id [] = none
get_last_state branch_id (row ∷ rows) =
    let rest = get_last_state branch_id rows in
    if not (is_of_branch branch_id row) then rest else elim rest [
      | none ↦ some row
      | some last ↦ if ltb last.step_index row.step_index then some row else some last
    ]

-- No two rows of a branch have the same step index, so the first match is the only one.
unfoldable pub get_state_at_step : ℕ → ℕ → List ProjectState → Option ProjectState
unfolding is_of_branch
get_state_at_step branch_id step_index =
    find? (λ row. is_of_branch branch_id row && row.step_index == step_index)

-- `Branch.get_by_id`
unfoldable pub branch_by_id : ℕ → List Branch → Option Branch
branch_by_id branch_id = find? (λ branch. branch.id == branch_id)

-- `Project.get_by_id` and `project.get_branch()`, the branch of the name that is the default.
unfoldable pub main_branch : ℕ → Tables → Option Branch
main_branch project_id tables =
    let branch =
      find? (λ (b : Branch). b.project_id == project_id && b.name == "main") tables.branches in
    if contains tables.projects project_id then branch else none

-- `if step_index:` takes step 0 for no step.
unfoldable pub state_of_branch : Option Branch → Option ℕ → List ProjectState → Option ProjectState
state_of_branch none step_index rows = none
state_of_branch (some branch) none rows = get_last_state branch.id rows
state_of_branch (some branch) (some zero) rows = get_last_state branch.id rows
state_of_branch (some branch) (some (suc n)) rows = get_state_at_step branch.id (suc n) rows

unfoldable pub rollback : Manager → Manager
rollback m = if not m.in_session then m else record m { in_session = false }

-- `project_id`, `branch_id` and `state_id` are the ids that the database gives to the new rows.
unfoldable pub create_project : ℕ → ℕ → ℕ → Manager → Manager
create_project project_id branch_id state_id m =
    let state : ProjectState = record (create_initial_state branch_id) { id = some state_id } in
    record {
      tables = record {
        projects = m.tables.projects ++ project_id ∷ [];
        branches =
            m.tables.branches
            ++ record { id = branch_id; project_id = project_id; name = "main" } ∷ [];
        states = m.tables.states ++ state ∷ [];
      };
      in_session = true;
      held = same state;
    }

-- The rest of `load_project`, when the state is found.
unfoldable pub resume : ProjectState → Manager → Result Manager
resume state m = do
  let left = delete_after state m.tables.states
  (current, next) ← create_next_state state
  ok (record {
    tables = record (m.tables) { states = left };
    in_session = true;
    held = pair current next;
  })

-- The state that is returned has a next state by then.
unfoldable pub load_found : Option ProjectState → Manager → Result (Option ProjectState × Manager)
load_found none m = ok (none, m)
load_found (some state) m = do m' ← resume state m; ok (some (record state { has_next = true }), m')

unfoldable pub load_project :
    Option ℕ → Option ℕ → Option ℕ → Manager → Result (Option ProjectState × Manager)
load_project project_id (some branch_id) step_index m =
    let branch = branch_by_id branch_id m.tables.branches in
    load_found (state_of_branch branch step_index m.tables.states) (rollback m)
load_project (some project_id) none step_index m =
    load_found (state_of_branch (main_branch project_id m.tables) step_index m.tables.states)
      (rollback m)
load_project none none step_index m = raise (value_error "Project or branch ID must be provided.")

-- Three attempts at most; `succeeds` says which of them the database lets pass.
unfoldable pub commit_with_retry : (ℕ → Bool) → Bool
commit_with_retry succeeds = succeeds 0 || succeeds 1 || succeeds 2

-- The row of the id is written over, or there is a new row.
unfoldable pub overwrite : Option ℕ → ProjectState → List ProjectState → List ProjectState
overwrite id state rows =
    if any (λ (row : ProjectState). row.id == id) rows
    then update_first (λ (row : ProjectState). row.id == id) (λ row. state) rows
    else rows ++ state ∷ []

unfoldable pub store_row : ProjectState → List ProjectState → List ProjectState
store_row state = overwrite state.id state

-- A state that has no id gets one when it is stored.
abbrev pub id_or : ℕ → Option ℕ → ℕ
id_or new_id none = new_id
id_or new_id (some id) = id

abbrev pub with_id : ℕ → ProjectState → ProjectState
with_id new_id state = record state { id = some (id_or new_id state.id) }

unfoldable pub commit_state :
    (ℕ → Bool) → ℕ → ProjectState → Manager → Result (ProjectState × Manager)
commit_state succeeds new_id state m =
    if not m.in_session
    then raise (value_error "No database session open.")
    else if not (commit_with_retry succeeds)
    then raise retry_error
    else do
      let saved = with_id new_id state
      (current, next) ← create_next_state saved
      ok (
        current,
        record m {
          tables = record (m.tables) {
            states = store_row (record saved { has_next = false }) m.tables.states;
          };
          held = pair current next;
        },
      )

-- `new_id` is the id that a new row gets.
unfoldable pub commit : (ℕ → Bool) → ℕ → Manager → Result (ProjectState × Manager)
commit succeeds new_id m = elim m.held [
  | nothing ↦ raise (value_error "No state to commit.")
  | same state ↦ commit_state succeeds new_id state m
  | pair current next ↦ commit_state succeeds new_id next m
]
