-- ===== src/StateManager/Session/Chain.antt =====
-- The chain of the states of a branch, as the session builds it.
use gpt_pilot.Prelude.{
  map, ℕ, suc, ◌+◌, ◌≡◌, refl, sym, subst, ap, ◌∙◌, Bool, true, false, Option, none, some, List, [],
  ◌∷◌, ◌++◌, nat_eq, option_eq, arith,
}
use gpt_pilot.Result.{ok}
use gpt_pilot.ProjectState.{ProjectState, clone_file, create_next_state}
use gpt_pilot.ProjectState.Operations.{run}
use gpt_pilot.StateManager.Session.{
  Held, Manager, nothing, same, pair, get_last_state, commit_with_retry, store_row, with_id,
  commit_state, commit,
}
use gpt_pilot.StateManager.Session.Rows.{
  AllBelow, AllBelow-weaken, IsNewId, UniqueSteps, UniqueSteps-append, UniqueSteps-prefix,
  AllBelow-append, get_last_state-append, store_row-placed, store_row-new,
}

-- The next state has a place of its own in its branch: it is the last row of the table, which a
-- project that was just created shares with the current state, or it comes after all rows.
abbrev pub HasPlace : Held → List ProjectState → Type 0
HasPlace nothing rows = false ≡ true
HasPlace (same s) rows =
    (old : List ProjectState) × (placed : ProjectState) × (id : ℕ) × (rows ≡ old ++ placed ∷ [])
    × IsNewId id old
    × (placed.id ≡ some id)
    × (s.id ≡ some id)
    × (s.has_next ≡ false)
    × AllBelow s.branch_id s.step_index old
HasPlace (pair c n) rows =
    (n.id ≡ none) × (n.has_next ≡ false) × AllBelow n.branch_id n.step_index rows

pub record WellFormed (m : Manager) : Type 0 where
  pub unique : UniqueSteps m.tables.states
  pub place : m.in_session ≡ true → HasPlace m.held m.tables.states

commit_state-run :
    (succeeds : ℕ → Bool) (new_id : ℕ) (m : Manager) (s : ProjectState)
    → m.in_session ≡ true
    → commit_with_retry succeeds ≡ true
    → s.has_next ≡ false
    → (next : ProjectState) × (commit_state succeeds new_id s m
        ≡ ok (
          record (with_id new_id s) { has_next = true },
          record m {
            tables = record (m.tables) {
              states = store_row (record (with_id new_id s) { has_next = false }) m.tables.states;
            };
            held = pair (record (with_id new_id s) { has_next = true }) next;
          },
        ))
      × (next.id ≡ none)
      × (next.has_next ≡ false)
      × (next.branch_id ≡ s.branch_id)
      × (next.step_index ≡ suc s.step_index)
unfolding commit_state create_next_state
commit_state-run succeeds new_id m s opened works writable = (
  record s {
    id = none;
    step_index = s.step_index + 1;
    has_next = false;
    files = map clone_file s.files;
    action = none;
  },
  rw (opened, works, writable) refl,
  refl,
  refl,
  refl,
  omega arith,
)

-- What `commit` leaves, when the row of the state becomes the last of the table.
commit_state_lem :
    (succeeds : ℕ → Bool) (new_id : ℕ) (m : Manager) (s : ProjectState) (old : List ProjectState)
    → m.in_session ≡ true
    → commit_with_retry succeeds ≡ true
    → s.has_next ≡ false
    → UniqueSteps old
    → AllBelow s.branch_id s.step_index old
    → store_row (record (with_id new_id s) { has_next = false }) m.tables.states
      ≡ old ++ record (with_id new_id s) { has_next = false } ∷ []
    → (m' : Manager) × (commit_state succeeds new_id s m
        ≡ ok (record (with_id new_id s) { has_next = true }, m'))
      × (get_last_state s.branch_id m'.tables.states
          ≡ some (record (with_id new_id s) { has_next = false }))
      × WellFormed m'
commit_state_lem succeeds new_id m s old opened works writable unique below stored =
    let (next, done, no_id, fresh, branch, step) =
      commit_state-run succeeds new_id m s opened works writable in
    let rows = store_row (record (with_id new_id s) { has_next = false }) m.tables.states in
    let row : ProjectState = record (with_id new_id s) { has_next = false } in
    (
      _,
      done,
      ap (get_last_state s.branch_id) stored ∙ get_last_state-append old row below,
      record {
        unique = subst UniqueSteps (sym stored) (UniqueSteps-append old row unique below);
        place = λ h. (
          no_id,
          fresh,
          subst (λ b. AllBelow b next.step_index rows) (sym branch)
              (subst (AllBelow s.branch_id next.step_index) (sym stored) (
                AllBelow-append s.branch_id next.step_index old row
                  (AllBelow-weaken s.branch_id s.step_index next.step_index old
                    (omega (arith, step)) below)
                  (omega (arith, step)))),
        );
      },
    )

-- The state that a commit writes.
abbrev pub to_commit : Held → Option ProjectState
to_commit nothing = none
to_commit (same s) = some s
to_commit (pair c n) = some n

-- In a session whose next state has a place, with a database that lets one of three attempts pass,
-- `commit` does not raise. It returns the next state, under its id or the new one and frozen, which
-- is then the last state of its branch in the table, and the new next state has a place again.
pub commit_lem :
    (succeeds : ℕ → Bool) (new_id : ℕ) (m : Manager)
    → WellFormed m
    → m.in_session ≡ true
    → commit_with_retry succeeds ≡ true
    → IsNewId new_id m.tables.states
    → (s : ProjectState) × (m' : Manager) × (to_commit m.held ≡ some s)
      × (commit succeeds new_id m ≡ ok (record (with_id new_id s) { has_next = true }, m'))
      × (get_last_state s.branch_id m'.tables.states
          ≡ some (record (with_id new_id s) { has_next = false }))
      × WellFormed m'
unfolding commit commit_state commit_state_lem commit_state-run
commit_lem succeeds new_id m wf opened works new = commit_held m.held refl (wf.place opened)
  where
    commit_held :
        (held : Held)
        → m.held ≡ held
        → HasPlace held m.tables.states
        → (s : ProjectState) × (m' : Manager) × (to_commit m.held ≡ some s)
          × (commit succeeds new_id m ≡ ok (record (with_id new_id s) { has_next = true }, m'))
          × (get_last_state s.branch_id m'.tables.states
              ≡ some (record (with_id new_id s) { has_next = false }))
          × WellFormed m'
    commit_held nothing holds place = absurd (ground (arith, place))
    commit_held (same s) holds (old, placed, id, rows, fresh, placed_id, s_id, writable, below) =
        let unique = UniqueSteps-prefix old placed (subst UniqueSteps rows wf.unique) in
        let row : ProjectState = record (with_id new_id s) { has_next = false } in
        let stored =
          ap (store_row row) rows
          ∙ store_row-placed id old placed row fresh placed_id (rw s_id refl) in
        let (m', run, last, wf') =
          commit_state_lem succeeds new_id m s old opened works writable unique below stored in
        (s, m', ap to_commit holds, rw holds run, last, wf')
    commit_held (pair c n) holds (no_id, writable, below) =
        let row : ProjectState = record (with_id new_id n) { has_next = false } in
        let stored = store_row-new new_id m.tables.states row new (rw no_id refl) in
        let (m', run, last, wf') =
          commit_state_lem succeeds new_id m n m.tables.states opened works writable wf.unique below
            stored in
        (n, m', ap to_commit holds, rw holds run, last, wf')
