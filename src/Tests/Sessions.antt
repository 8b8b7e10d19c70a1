-- ===== src/Tests/Sessions.antt =====
-- The session of the state manager: a project is created, worked on, committed and loaded.
use gpt_pilot.Prelude.{
  ℕ, ◌≡◌, refl, Bool, true, false, none, some, ◌==◌, nat_eq, option_eq, any, update_first, length,
  find?, string_eq,
}
use gpt_pilot.Result.{ok}
use gpt_pilot.ProjectState.{ProjectState, create_next_state, create_initial_state}
use gpt_pilot.StateManager.Session.{
  Manager, create_project, commit, commit_state, commit_with_retry, store_row, overwrite, with_id,
  get_last_state, branch_by_id, load_project,
}
use gpt_pilot.StateManager.Session.Rows.{IsNewId}
use gpt_pilot.StateManager.Session.Chain.{WellFormed, to_commit, commit_lem}
use gpt_pilot.StateManager.Session.History.{History, fresh_manager, History-WellFormed}
use gpt_pilot.StateManager.Session.Reload.{current_of, load_project-commit}

-- The third attempt passes.
abbrev at_last : ℕ → Bool
at_last n = n == 2

abbrev new_project : Manager
new_project = create_project 10 20 30 fresh_manager

abbrev first_state : ProjectState
first_state = record (create_initial_state 20) { id = some 30 }

new_project-History : History new_project
new_project-History = History.created History.start 10 20 30 tt tt

History-WellFormed_example : WellFormed new_project
History-WellFormed_example = History-WellFormed new_project-History

-- The first commit writes over the row of the project's first state, and the second adds one.
commits :
    (m : Manager) × (commit at_last 31 new_project ≡ ok (record first_state { has_next = true }, m))
    × (length m.tables.states ≡ 1)
unfolding commit commit_state commit_with_retry create_next_state store_row overwrite any
    update_first nat_eq option_eq create_project create_initial_state
commits = (_, refl, refl)

IsNewId-31 : IsNewId 31 new_project.tables.states
unfolding create_project nat_eq option_eq
IsNewId-31 = (refl, tt)

commit_lem_example :
    (s : ProjectState) × (m' : Manager) × (to_commit new_project.held ≡ some s)
    × (commit at_last 31 new_project ≡ ok (record (with_id 31 s) { has_next = true }, m'))
    × (get_last_state s.branch_id m'.tables.states
        ≡ some (record (with_id 31 s) { has_next = false }))
    × WellFormed m'
unfolding create_project commit_with_retry nat_eq
commit_lem_example =
    commit_lem at_last 31 new_project (History-WellFormed new_project-History) refl refl IsNewId-31

load_project-commit_example :
    (m'' : Manager) × (load_project none (some 20) none commits.0
      ≡ ok (some (record first_state { has_next = true }), m''))
    × (current_of m''.held ≡ some (record first_state { has_next = true }))
    × (m''.in_session ≡ true)
unfolding create_project branch_by_id find? nat_eq create_initial_state commits
load_project-commit_example =
    load_project-commit at_last 31 new_project commits.0 first_state _ _ none
      (History-WellFormed new_project-History) IsNewId-31 refl commits.1 refl
