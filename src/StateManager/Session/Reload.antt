-- ===== src/StateManager/Session/Reload.antt =====
-- A committed state is loaded again.
use gpt_pilot.Prelude.{
  map, ℕ, ◌+◌, ◌≡◌, refl, sym, subst, ap, ◌∙◌, Bool, true, false, Option, none, some, List, [], ◌∷◌,
  nat_eq, option_eq, arith, find?,
}
use gpt_pilot.Result.{ok, ok-injective}
use gpt_pilot.ProjectState.{ProjectState, clone_file, create_next_state, delete_after}
use gpt_pilot.StateManager.Session.{
  Branch, Held, Manager, nothing, same, pair, get_last_state, branch_by_id, state_of_branch,
  rollback, resume, load_found, load_project, with_id, commit,
}
use gpt_pilot.StateManager.Session.Rows.{IsNewId}
use gpt_pilot.StateManager.Session.Chain.{WellFormed, to_commit, commit_lem}
use gpt_pilot.StateManager.Session.History.{commit-ok}

abbrev pub current_of : Held → Option ProjectState
current_of nothing = none
current_of (same s) = some s
current_of (pair c n) = some c

load_found-some :
    (state : ProjectState) (id : ℕ) (m : Manager)
    → state.id ≡ some id
    → state.has_next ≡ false
    → (m' : Manager) × (load_found (some state) m
        ≡ ok (some (record state { has_next = true }), m'))
      × (current_of m'.held ≡ some (record state { has_next = true }))
      × (m'.in_session ≡ true)
unfolding load_found resume create_next_state
load_found-some state id m has_id writable = (
  record {
    tables = record (m.tables) { states = delete_after state m.tables.states };
    in_session = true;
    held =
        pair (record state { has_next = true })
          (record state {
            id = none;
            step_index = state.step_index + 1;
            has_next = false;
            files = map clone_file state.files;
            action = none;
          });
  },
  rw (has_id, writable) refl,
  refl,
  refl,
)

id-branch_by_id :
    (id : ℕ) (branches : List Branch) (branch : Branch)
    → branch_by_id id branches ≡ some branch
    → branch.id ≡ id
unfolding branch_by_id find?
id-branch_by_id id [] branch found = absurd (ground (arith, found))
id-branch_by_id id (b ∷ branches) branch found =
    ground (arith, found, id-branch_by_id id branches branch)

-- Loading the branch of a state that was just committed finds that state under its id, and makes it
-- the current one again: it is returned, and held, frozen as `commit` returned it.
pub load_project-commit :
    (succeeds : ℕ → Bool) (new_id : ℕ) (m m' : Manager) (s c : ProjectState) (branch : Branch)
    (project_id : Option ℕ)
    → WellFormed m
    → IsNewId new_id m.tables.states
    → to_commit m.held ≡ some s
    → commit succeeds new_id m ≡ ok (c, m')
    → branch_by_id s.branch_id m'.tables.branches ≡ some branch
    → (m'' : Manager) × (load_project project_id (some s.branch_id) none m' ≡ ok (some c, m''))
      × (current_of m''.held ≡ some c)
      × (m''.in_session ≡ true)
unfolding load_project state_of_branch
load_project-commit succeeds new_id m m' s c branch project_id wf new written done found =
    let (opened, works) = commit-ok succeeds new_id c m m' done in
    let (s1, m1, written1, run_ok, last, _) = commit_lem succeeds new_id m wf opened works new in
    let same_state : s1 ≡ s = ground (arith, written, written1) in
    let same_result = ok-injective (sym run_ok ∙ done) in
    let row : ProjectState = record (with_id new_id s) { has_next = false } in
    let frozen : record (with_id new_id s) { has_next = true } ≡ c =
      subst (λ (t : ProjectState). record (with_id new_id t) { has_next = true } ≡ c) same_state
        (ap (λ (p : ProjectState × Manager). p.0) same_result) in
    let stored : get_last_state s.branch_id m'.tables.states ≡ some row =
      subst (λ (x : Manager). get_last_state s.branch_id x.tables.states ≡ some row)
        (ap (λ (p : ProjectState × Manager). p.1) same_result)
        (subst
          (λ (t : ProjectState).
            get_last_state t.branch_id m1.tables.states
            ≡ some (record (with_id new_id t) { has_next = false }))
          same_state last) in
    let branch_id = id-branch_by_id s.branch_id m'.tables.branches branch found in
    let (m'', loaded_ok, current, in_session) = load_found-some row _ (rollback m') refl refl in
    (
      m'',
      rw (found, branch_id, stored)
          (loaded_ok ∙ ap (λ (t : ProjectState). ok (some t, m'')) frozen),
      current ∙ ap some frozen,
      in_session,
    )
