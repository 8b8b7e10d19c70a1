-- ===== src/StateManager/Session/History.antt =====
-- What holds of the session after any calls.
use gpt_pilot.Prelude.{
  Bool-cases, ℕ, suc, ◌+◌, ◌≡◌, refl, sym, subst, ap, ◌∙◌, Bool, true, false, Option, none, some,
  List, [], nat_eq, option_eq, arith, inl, inr,
}
use gpt_pilot.Result.{Result, ok, ok-injective, ◌>>=◌, >>=-eq-ok}
use gpt_pilot.ProjectState.{ProjectState, create_next_state, create_initial_state, delete_after}
use gpt_pilot.ProjectState.Operations.{Operation, run, run-Keeps, create_next_state_lem}
use gpt_pilot.StateManager.Session.{
  Tables, Held, Manager, nothing, same, pair, rollback, create_project, resume, load_found,
  load_project, commit_with_retry, commit_state, commit,
}
use gpt_pilot.StateManager.Session.Rows.{
  AllBelow, AllBelow-weaken, IsNewId, UniqueSteps, UniqueSteps-append, UniqueSteps-delete_after,
  AllBelow-delete_after,
}
use gpt_pilot.StateManager.Session.Chain.{HasPlace, WellFormed, commit_lem}

-- An operation on `next_state`, which is the current state as well where both are one object.
unfoldable pub edit : Operation → Manager → Result Manager
edit op m = elim m.held [
  | nothing ↦ ok m
  | same s ↦ run op s >>= λ s'. ok (record m { held = same s' })
  | pair c n ↦ run op n >>= λ n'. ok (record m { held = pair c n' })
]

abbrev pub fresh_manager : Manager
fresh_manager = record {
  tables = record { projects = []; branches = []; states = [] };
  in_session = false;
  held = nothing;
}

-- The managers that calls which do not raise lead to, in any order. The ids of new rows are new.
pub data History : Manager → Type 0 where
  start : History fresh_manager
  created :
      {m : Manager}
      → History m
      → (project_id branch_id state_id : ℕ) → IsNewId state_id m.tables.states
      → AllBelow branch_id 0 m.tables.states
      → History (create_project project_id branch_id state_id m)
  edited : {m m' : Manager} → History m → (op : Operation) → edit op m ≡ ok m' → History m'
  committed :
      {m m' : Manager} {s : ProjectState}
      → History m
      → (succeeds : ℕ → Bool) (new_id : ℕ) → IsNewId new_id m.tables.states
      → commit succeeds new_id m ≡ ok (s, m')
      → History m'
  loaded :
      {m m' : Manager} {found : Option ProjectState}
      → History m
      → (project_id branch_id step_index : Option ℕ)
      → load_project project_id branch_id step_index m ≡ ok (found, m')
      → History m'
  rolled_back : {m : Manager} → History m → History (rollback m)

rollback_lem : (m : Manager) → ((rollback m).tables ≡ m.tables) × ((rollback m).in_session ≡ false)
unfolding rollback
rollback_lem m = ground arith

WellFormed-rollback : (m : Manager) → WellFormed m → WellFormed (rollback m)
WellFormed-rollback m wf =
    let (tables, closed) = rollback_lem m in
    record {
      unique = subst UniqueSteps (sym (ap (λ (t : Tables). t.states) tables)) wf.unique;
      place = λ h. absurd (ground (arith, h, closed));
    }

WellFormed-create_project :
    (project_id branch_id state_id : ℕ) (m : Manager)
    → IsNewId state_id m.tables.states
    → AllBelow branch_id 0 m.tables.states
    → WellFormed m
    → WellFormed (create_project project_id branch_id state_id m)
unfolding create_project create_initial_state
WellFormed-create_project project_id branch_id state_id m fresh none_yet wf =
    let below = AllBelow-weaken branch_id 0 1 m.tables.states (omega arith) none_yet in
    record {
      unique = UniqueSteps-append m.tables.states _ wf.unique below;
      place = λ h. (m.tables.states, _, state_id, refl, fresh, refl, refl, refl, below);
    }

AllBelow-run :
    (op : Operation) (s s' : ProjectState) (rows : List ProjectState)
    → run op s ≡ ok s'
    → AllBelow s.branch_id s.step_index rows
    → AllBelow s'.branch_id s'.step_index rows
AllBelow-run op s s' rows run_ok below =
    let keeps = run-Keeps op s s' run_ok in
    subst (λ b. AllBelow b s'.step_index rows) (sym keeps.branch_id)
      (subst (λ k. AllBelow s.branch_id k rows) (sym keeps.step_index) below)

WellFormed-edit :
    (op : Operation) (m m' : Manager) → edit op m ≡ ok m' → WellFormed m → WellFormed m'
unfolding edit
WellFormed-edit op m m' done wf = edit_held m.held refl
  where
    edit_held : (held : Held) → m.held ≡ held → WellFormed m'
    edit_held nothing holds = subst WellFormed (ok-injective (rw holds at done)) (record {
      unique = wf.unique;
      place = λ h. subst (λ held. HasPlace held m.tables.states) holds (wf.place h);
    })
    edit_held (same s) holds =
        let (s', run_ok, last) = >>=-eq-ok (run op s) _ (rw holds at done) in
        subst WellFormed (ok-injective last) (record {
          unique = wf.unique;
          place = λ h.
              let place = subst (λ held. HasPlace held m.tables.states) holds (wf.place h) in
              let (old, placed, id, rows, fresh, placed_id, s_id, writable, below) = place in
              let keeps = run-Keeps op s s' run_ok in
              (
                old,
                placed,
                id,
                rows,
                fresh,
                placed_id,
                keeps.id ∙ s_id,
                keeps.has_next,
                AllBelow-run op s s' old run_ok below,
              );
        })
    edit_held (pair c n) holds =
        let (n', run_ok, last) = >>=-eq-ok (run op n) _ (rw holds at done) in
        subst WellFormed (ok-injective last) (record {
          unique = wf.unique;
          place = λ h.
              let place = subst (λ held. HasPlace held m.tables.states) holds (wf.place h) in
              let (no_id, writable, below) = place in
              let keeps = run-Keeps op n n' run_ok in
              (keeps.id ∙ no_id, keeps.has_next, AllBelow-run op n n' m.tables.states run_ok below);
        })

WellFormed-resume :
    (state : ProjectState) (m m' : Manager)
    → resume state m ≡ ok m'
    → UniqueSteps m.tables.states
    → WellFormed m'
unfolding resume
WellFormed-resume state m m' done unique =
    let ((current, next), made, rest) = >>=-eq-ok (create_next_state state) _ done in
    let (_, is_next) = create_next_state_lem state made in
    let rows = delete_after state m.tables.states in
    subst WellFormed (ok-injective rest) (record {
      unique = UniqueSteps-delete_after state m.tables.states unique;
      place = λ h.
          subst (λ n. HasPlace (pair current n) rows) (sym is_next)
            (
              refl,
              refl,
              AllBelow-weaken state.branch_id (suc state.step_index) (state.step_index + 1) rows
                  (omega arith) (AllBelow-delete_after state m.tables.states),
            );
    })

WellFormed-load_found :
    (found r : Option ProjectState) (m m' : Manager)
    → load_found found m ≡ ok (r, m')
    → WellFormed m
    → WellFormed m'
unfolding load_found
WellFormed-load_found none r m m' done wf =
    subst WellFormed (ap (λ (p : Option ProjectState × Manager). p.1) (ok-injective done)) wf
WellFormed-load_found (some state) r m m' done wf =
    let (m1, resumed, last) = >>=-eq-ok (resume state m) _ done in
    subst WellFormed (ap (λ (p : Option ProjectState × Manager). p.1) (ok-injective last))
      (WellFormed-resume state m m1 resumed wf.unique)

WellFormed-load_project :
    (project_id branch_id step_index : Option ℕ) (r : Option ProjectState) (m m' : Manager)
    → load_project project_id branch_id step_index m ≡ ok (r, m')
    → WellFormed m
    → WellFormed m'
unfolding load_project
WellFormed-load_project project_id (some branch_id) step_index r m m' done wf =
    WellFormed-load_found _ r (rollback m) m' done (WellFormed-rollback m wf)
WellFormed-load_project (some project_id) none step_index r m m' done wf =
    WellFormed-load_found _ r (rollback m) m' done (WellFormed-rollback m wf)
WellFormed-load_project none none step_index r m m' done wf = absurd (ground (arith, done))

commit_state-ok :
    (succeeds : ℕ → Bool) (new_id : ℕ) (state s : ProjectState) (m m' : Manager)
    → commit_state succeeds new_id state m ≡ ok (s, m')
    → (m.in_session ≡ true) × (commit_with_retry succeeds ≡ true)
unfolding commit_state
commit_state-ok succeeds new_id state s m m' done = elim (Bool-cases m.in_session) [
  | inl a ↦ elim (Bool-cases (commit_with_retry succeeds)) [
    | inl b ↦ (a, b)
    | inr b ↦ absurd (ground (arith, a, b, done))
  ]
  | inr a ↦ absurd (ground (arith, a, done))
]

pub commit-ok :
    (succeeds : ℕ → Bool) (new_id : ℕ) (s : ProjectState) (m m' : Manager)
    → commit succeeds new_id m ≡ ok (s, m')
    → (m.in_session ≡ true) × (commit_with_retry succeeds ≡ true)
unfolding commit commit_state
commit-ok succeeds new_id s m m' done = commit_held m.held refl
  where
    commit_held :
        (held : Held) → m.held ≡ held → (m.in_session ≡ true) × (commit_with_retry succeeds ≡ true)
    commit_held nothing holds = absurd (ground (arith, holds, done))
    commit_held (same state) holds = commit_state-ok succeeds new_id state s m m' (rw holds at done)
    commit_held (pair c n) holds = commit_state-ok succeeds new_id n s m m' (rw holds at done)

WellFormed-commit :
    (succeeds : ℕ → Bool) (new_id : ℕ) (s : ProjectState) (m m' : Manager)
    → IsNewId new_id m.tables.states
    → commit succeeds new_id m ≡ ok (s, m')
    → WellFormed m
    → WellFormed m'
WellFormed-commit succeeds new_id s m m' new done wf =
    let (opened, works) = commit-ok succeeds new_id s m m' done in
    let (_, m1, _, run_ok, _, wf') = commit_lem succeeds new_id m wf opened works new in
    subst WellFormed (ap (λ (p : ProjectState × Manager). p.1) (ok-injective (sym run_ok ∙ done)))
      wf'

-- After any calls that do not raise, where the ids of new rows are new, no two rows of a branch have
-- the same step index, and while a session is open the next state has a place of its own in its
-- branch: it is the last row of the table, or it comes after all rows of the branch.
pub History-WellFormed : {m : Manager} → History m → WellFormed m
History-WellFormed start = record { unique = tt; place = λ h. absurd (ground (arith, h)) }
History-WellFormed (created {m = m} r project_id branch_id state_id fresh none_yet) =
    WellFormed-create_project project_id branch_id state_id m fresh none_yet (History-WellFormed r)
History-WellFormed (edited {m = m} {m' = m'} r op done) =
    WellFormed-edit op m m' done (History-WellFormed r)
History-WellFormed (committed {m = m} {m' = m'} {s = s} r succeeds new_id new done) =
    WellFormed-commit succeeds new_id s m m' new done (History-WellFormed r)
History-WellFormed (loaded {m = m} {m' = m'} {found = found} r p b i done) =
    WellFormed-load_project p b i found m m' done (History-WellFormed r)
History-WellFormed (rolled_back {m = m} r) = WellFormed-rollback m (History-WellFormed r)
