-- ===== src/Proc/Running.antt =====
-- `ProcessManager` of core/proc/process_manager.py, without its watcher. The handlers are known by
-- whether they are there; what they are called with is recorded. A loop that has no fuel left, and a
-- read that has none, give `none`.
use gpt_pilot.Prelude.{
  ℕ, zero, suc, ◌-◌, String, Bool, true, false, not, ◌&&◌, ◌||◌, Option, none, some, List, [], ◌∷◌,
  ◌++◌, is_empty, ltb, if◌then◌else◌,
}
use gpt_pilot.Prelude.Dict.{Dict, lookup, insert, erase}
use gpt_pilot.Prelude.Maybe.{◌>>=◌}
use gpt_pilot.Result.{Result, ok, raise, value_error}
use gpt_pilot.Proc.{
  System, LocalProcess, ReturnCode, exit_code, start_local, terminate, wait, read_output,
  is_running, nonblock_read_timeout, busy_wait_interval, max_command_timeout,
}

pub record ProcessManager : Type 0 where
  pub processes : Dict LocalProcess
  pub default_env : Dict String
  pub root_dir : String
  pub kill_wait_timeout : ℕ
  pub output_handler : Bool
  pub exit_handler : Bool
  pub outputs : List (List ℕ × List ℕ)
  pub exits : List String

-- `{**a, **b}`
abbrev pub merge : Dict String → Dict String → Dict String
merge a [] = a
merge a ((k, v) ∷ b) = merge (insert k v a) b

abbrev pub min : ℕ → ℕ → ℕ
min a b = if ltb b a then b else a

-- `returncode or 0`
abbrev pub or_zero : Option ReturnCode → ReturnCode
or_zero none = exit_code 0
or_zero (some code) = code

-- `if self.output_handler and (out or err) and show_output`
abbrev pub show_output_of : Bool → List ℕ → List ℕ → ProcessManager → ProcessManager
show_output_of show out err m = record m {
  outputs =
      if m.output_handler && (not (is_empty out) || not (is_empty err)) && show
      then m.outputs ++ (out, err) ∷ []
      else m.outputs;
}

abbrev pub CommandResult : Type 0
CommandResult = Option ReturnCode × List ℕ × List ℕ

module _ (os : System) where
  open os use {World, now, abs_path, returncode}

  unfoldable pub start_process :
      String
      → String
      → Dict String
      → Bool
      → ProcessManager
      → World
      → LocalProcess × ProcessManager × World
  start_process cmd cwd env bg m w =
      let (process, w') =
        start_local os cmd (abs_path m.root_dir cwd) (merge m.default_env env) bg
          m.kill_wait_timeout w in
      (
        process,
        if bg then record m { processes = insert process.id process m.processes } else m,
        w',
      )

  -- The loop of `run_command`; `reads` is the fuel of each read.
  unfoldable pub command_loop :
      ℕ
      → ℕ
      → ℕ
      → ℕ
      → Bool
      → LocalProcess
      → ProcessManager
      → World
      → Option (LocalProcess × ProcessManager × World)
  command_loop zero reads t0 timeout show p m w = none
  command_loop (suc fuel) reads t0 timeout show p m w =
      elim (is_running os p w && ltb (now w - t0) timeout) [
        | true ↦ do
          (p', out, err, w') ← read_output os reads busy_wait_interval p w
          command_loop fuel reads t0 timeout show p' (show_output_of show out err m) w'
        | false ↦ some (p, m, w)
      ]

  abbrev pub not_terminated : Result ReturnCode → Result Bool
  not_terminated (raise error) = raise error
  not_terminated (ok code) = ok false

  -- What follows the loop: a process that still runs is killed, another one is waited for.
  abbrev pub ended : Bool → LocalProcess → World → Result Bool × World
  ended true p w = (ok true, terminate os true p w)
  ended false p w = let (code, w') = wait os none p w in (not_terminated code, w')

  abbrev pub status_code : Bool → LocalProcess → World → Option ReturnCode
  status_code true p w = none
  status_code false p w = some (or_zero (returncode p.pid w))

  unfoldable pub last_output :
      ℕ
      → Bool
      → LocalProcess
      → ProcessManager
      → Result Bool × World
      → Option (Result CommandResult × ProcessManager × World)
  last_output reads show p m (raise error, w) = some (raise error, m, w)
  last_output reads show p m (ok terminated, w) = do
    (p', out, err, w') ← read_output os reads nonblock_read_timeout p w
    some
        (ok (status_code terminated p' w', p'.stdout, p'.stderr), show_output_of show out err m, w')

  unfoldable pub run_command :
      ℕ
      → ℕ
      → String
      → String
      → Dict String
      → ℕ
      → Bool
      → ProcessManager
      → World
      → Option (Result CommandResult × ProcessManager × World)
  run_command fuel reads cmd cwd env timeout show m w = do
    let (process, m1, w1) = start_process cmd cwd env false m w
    (p, m2, w2) ←
        command_loop fuel reads (now w1) (min timeout max_command_timeout) show process m1 w1
    last_output reads show p m2 (ended (is_running os p w2) p w2)

  abbrev pub running : Dict LocalProcess → World → List LocalProcess
  running [] w = []
  running ((id, p) ∷ ps) w = if is_running os p w then p ∷ running ps w else running ps w

  unfoldable pub list_running_processes : ProcessManager → World → List LocalProcess
  list_running_processes m w = running m.processes w

  abbrev pub terminate_found :
      Option LocalProcess
      → String
      → ProcessManager
      → World
      → Result (List ℕ × List ℕ) × ProcessManager × World
  terminate_found none id m w = (raise (value_error "Process "), m, w)
  terminate_found (some p) id m w = (
    ok (p.stdout, p.stderr),
    record m { processes = erase id m.processes },
    terminate os false p w,
  )

  unfoldable pub terminate_process :
      String → ProcessManager → World → Result (List ℕ × List ℕ) × ProcessManager × World
  terminate_process id m w = terminate_found (lookup id m.processes) id m w
