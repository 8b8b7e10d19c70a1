-- ===== src/Proc/Watching.antt =====
-- `ProcessManager.watcher` of core/proc/process_manager.py next to other tasks that start and terminate
-- processes while it waits. A `WatcherStep` is what runs between two of those waits; the world may be
-- any one at each of them.
use gpt_pilot.Prelude.{
  ℕ, ◌≡◌, String, Bool, true, not, Option, some, List, [], ◌∷◌, ◌++◌, map, contains, string_eq,
  ◌==◌, if◌then◌else◌, ◌==◌, ◌&&◌,
}
use gpt_pilot.Prelude.Dict.{Dict, keys, insert, erase}
use gpt_pilot.Prelude.Maybe.{◌>>=◌}
use gpt_pilot.Proc.{System, LocalProcess, read_output, is_running, nonblock_read_timeout}
use gpt_pilot.Proc.Running.{ProcessManager, show_output_of}

-- `procs` are the processes of the running round that are still to be seen.
pub record Watcher : Type 0 where
  pub manager : ProcessManager
  pub complete_processes : List String
  pub procs : List LocalProcess

abbrev pub not_complete : List String → Dict LocalProcess → List LocalProcess
not_complete complete [] = []
not_complete complete ((id, p) ∷ d) =
    if contains complete p.id then not_complete complete d else p ∷ not_complete complete d

-- A process that has been removed from the table meanwhile keeps its output to itself.
abbrev pub put_output : LocalProcess → Dict LocalProcess → Dict LocalProcess
put_output p [] = []
put_output p ((id, q) ∷ d) = if p.id == id then (id, p) ∷ d else (id, q) ∷ put_output p d

abbrev pub call_exit_handler : String → ProcessManager → ProcessManager
call_exit_handler id m = record m { exits = if m.exit_handler then m.exits ++ id ∷ [] else m.exits }

-- What follows the read of `p`, which `q` is now: `true` where it still runs.
abbrev pub after_read :
    Bool → LocalProcess → LocalProcess → List ℕ → List ℕ → List LocalProcess → Watcher → Watcher
after_read running p q out err procs s =
    let m =
      show_output_of true out err
        (record s.manager { processes = put_output q s.manager.processes }) in
    if running then record s { manager = m; procs = procs } else record s {
      manager = call_exit_handler p.id m;
      complete_processes = s.complete_processes ++ p.id ∷ [];
      procs = procs;
    }

module _ (os : System) (reads : ℕ) where
  open os use {World}

  -- The body of the loop over `procs`.
  unfoldable pub watch :
      LocalProcess → List LocalProcess → Watcher → World → Option (Watcher × World)
  watch p procs s w = do
    (q, out, err, w') ← read_output os reads nonblock_read_timeout p w
    some (after_read (is_running os q w') p q out err procs s, w')

abbrev pub table : Watcher → Dict LocalProcess
table s = s.manager.processes

abbrev pub set_table : Dict LocalProcess → Watcher → Watcher
set_table d s = record s { manager = record s.manager { processes = d } }

abbrev pub is_fresh : String → Watcher → Bool
is_fresh id s =
    not (contains (keys (table s)) id)
    && not (contains s.complete_processes id)
    && not (contains (map (λ (p : LocalProcess). p.id) s.procs) id)

-- A new process has an id that no process has had.
pub data WatcherStep (os : System) (reads : ℕ) : Watcher → Watcher → Type 0 where
  starts :
      {s : Watcher} (p : LocalProcess)
      → is_fresh p.id s ≡ true
      → WatcherStep os reads s (set_table (insert p.id p (table s)) s)
  terminates :
      {s : Watcher} (id : String) → WatcherStep os reads s (set_table (erase id (table s)) s)
  begins :
      {s : Watcher}
      → s.procs ≡ []
      → WatcherStep os reads s (record s { procs = not_complete s.complete_processes (table s) })
  sees :
      {s s' : Watcher} {p : LocalProcess} {procs : List LocalProcess} (w w' : os.World)
      → s.procs ≡ p ∷ procs
      → watch os reads p procs s w ≡ some (s', w')
      → WatcherStep os reads s s'

pub data WatcherSteps (os : System) (reads : ℕ) : Watcher → Watcher → Type 0 where
  stays : {s : Watcher} → WatcherSteps os reads s s
  goes_on :
      {s t u : Watcher}
      → WatcherStep os reads s t
      → WatcherSteps os reads t u
      → WatcherSteps os reads s u
