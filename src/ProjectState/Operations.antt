-- ===== src/ProjectState/Operations.antt =====
-- The mutating methods of ProjectState as one family, the chain of states that `create_next_state`
-- builds, and what holds of every state of it.
use gpt_pilot.Prelude.{
  ℕ, ◌+◌, ◌≤◌, String, ◌≡◌, ◌≢◌, refl, Bool, true, false, none, some, List, [], ◌∷◌, map, arith,
  subst, ap, sym,
}
use gpt_pilot.Result.{Result, ok, raise, value_error}
use gpt_pilot.Records.{TaskStatus, File, FileContent}
use gpt_pilot.ProjectState.{
  ProjectState, create_initial_state, create_next_state, complete_step, complete_task,
  complete_epic, complete_iteration, set_current_task_status, save_file, clone_file, store_file,
}
use gpt_pilot.StateManager.{remove_file}
use gpt_pilot.StateManager.Removal.{remove_file-UniquePaths}
use gpt_pilot.ProjectState.Files.{UniquePaths, store_file-UniquePaths}

-- The calls that change a state.
pub data Operation : Type 0 where
  step : String → Operation
  task epic iteration : Operation
  status : TaskStatus → Operation
  file : String → FileContent → Bool → Operation

unfoldable pub run : Operation → ProjectState → Result ProjectState
run (step step_type) s = complete_step s step_type
run task s = complete_task s
run epic s = complete_epic s
run iteration s = complete_iteration s
run (status st) s = set_current_task_status st s
run (file path content external) s = save_file s path content external

-- A state that has a next state is frozen: no operation on it succeeds.
pub run-frozen : (op : Operation) (s s' : ProjectState) → s.has_next ≡ true → run op s ≢ ok s'
unfolding run complete_step complete_task complete_epic complete_iteration set_current_task_status
    save_file
run-frozen (step step_type) s s' h e = ground arith
run-frozen task s s' h e = ground arith
run-frozen epic s s' h e = ground arith
run-frozen iteration s s' h e = ground arith
run-frozen (status st) s s' h e = ground arith
run-frozen (file path content external) s s' h e = ground arith

-- What an operation leaves alone.
pub record Keeps (s s' : ProjectState) : Type 0 where
  pub id : s'.id ≡ s.id
  pub branch_id : s'.branch_id ≡ s.branch_id
  pub step_index : s'.step_index ≡ s.step_index
  pub has_next : s'.has_next ≡ false
  pub specification : s'.specification ≡ s.specification
  pub knowledge_base : s'.knowledge_base ≡ s.knowledge_base

-- An operation that succeeds leaves the place of the state in its branch, the specification and the
-- knowledge base alone, and found the state writable.
pub run-Keeps : (op : Operation) (s s' : ProjectState) → run op s ≡ ok s' → Keeps s s'
unfolding run complete_step complete_task complete_epic complete_iteration set_current_task_status
    save_file
run-Keeps (step step_type) s s' e = ground arith
run-Keeps task s s' e = ground arith
run-Keeps epic s s' e = ground arith
run-Keeps iteration s s' e = ground arith
run-Keeps (status st) s s' e = ground arith
run-Keeps (file path content external) s s' e = ground arith

-- The files after a successful operation: only `save_file` changes them.
abbrev files_after : Operation → List File → List File
files_after (file path content external) files = store_file path content files
files_after op files = files

files-run :
    (op : Operation) (s s' : ProjectState) → run op s ≡ ok s' → s'.files ≡ files_after op s.files
unfolding run complete_step complete_task complete_iteration save_file
files-run (step step_type) s s' e = ground arith
files-run task s s' e = ground arith
files-run epic s s' e = ground arith
files-run iteration s s' e = ground arith
files-run (status st) s s' e = ground arith
files-run (file path content external) s s' e = ground arith

files_after-UniquePaths :
    (op : Operation) (files : List File) → UniquePaths files → UniquePaths (files_after op files)
files_after-UniquePaths (file path content external) files u =
    store_file-UniquePaths path content files u
files_after-UniquePaths _ files u = u

map-clone_file : (files : List File) → map clone_file files ≡ files
map-clone_file [] = refl
map-clone_file (f ∷ files) = ap (λ l. f ∷ l) (map-clone_file files)

-- The next state continues the branch at the next step with a copy of everything but the action,
-- and the state that it was made from is frozen.
pub create_next_state_lem :
    (s : ProjectState) {old new : ProjectState}
    → create_next_state s ≡ ok (old, new)
    → (old ≡ record s { has_next = true })
      × (new
          ≡ record s { id = none; step_index = s.step_index + 1; has_next = false; action = none })
unfolding create_next_state
create_next_state_lem s e = ground (arith, map-clone_file s.files)

-- A state that has an id has at most one next state: the second call raises.
pub create_next_state_once :
    (s : ProjectState) {old new : ProjectState}
    → create_next_state s ≡ ok (old, new)
    → create_next_state old ≡ raise (value_error "Next state already exists for state with id=")
unfolding create_next_state
create_next_state_once s e = ground arith

-- The states that a branch can come to: from the initial one by operations that succeed, by what the
-- agents write to other columns than the files and the step index (epics, tasks, steps, iterations and
-- the like), by the removal of a file as `import_files` does
-- it, by being saved under an id, and by going on to the next state.
pub data Reachable : ProjectState → Type 0 where
  initial : (branch_id : ℕ) → Reachable (create_initial_state branch_id)
  operation :
      {s s' : ProjectState} → Reachable s → (op : Operation) → run op s ≡ ok s' → Reachable s'
  written :
      {s s' : ProjectState}
      → Reachable s
      → s'.files ≡ s.files
      → s'.step_index ≡ s.step_index
      → Reachable s'
  removed :
      {s : ProjectState}
      → Reachable s
      → (path : String) → Reachable (record s { files = remove_file path s.files })
  saved : {s : ProjectState} → Reachable s → (id : ℕ) → Reachable (record s { id = some id })
  next :
      {s old new : ProjectState} → Reachable s → create_next_state s ≡ ok (old, new) → Reachable new

-- No reachable state lists a path twice, as the table's constraint on (project_state_id, path)
-- demands, and its step index is at least 1.
pub Reachable-UniquePaths :
    {s : ProjectState} → Reachable s → UniquePaths s.files × (1 ≤ s.step_index)
unfolding create_initial_state
Reachable-UniquePaths (initial branch_id) = (tt, omega arith)
Reachable-UniquePaths (operation {s = s} {s' = s'} r op e) =
    let (u, positive) = Reachable-UniquePaths r in
    (
      subst UniquePaths (sym (files-run op s s' e)) (files_after-UniquePaths op s.files u),
      ground (arith, (run-Keeps op s s' e).step_index),
    )
Reachable-UniquePaths (written {s = s} r files index) =
    let (u, positive) = Reachable-UniquePaths r in
    (subst UniquePaths (sym files) u, ground (arith, positive, index))
Reachable-UniquePaths (removed {s = s} r path) =
    let (u, positive) = Reachable-UniquePaths r in
    (remove_file-UniquePaths path s.files u, positive)
Reachable-UniquePaths (saved r id) = Reachable-UniquePaths r
Reachable-UniquePaths (next {s = s} r e) =
    let (u, positive) = Reachable-UniquePaths r in
    let made = (create_next_state_lem s e).1 in
    (
      subst UniquePaths (sym (ap (λ (t : ProjectState). t.files) made)) u,
      ground (arith, ap (λ (t : ProjectState). t.step_index) made),
    )
