-- ===== src/Tests/Processes.antt =====
-- Processes: one that never ends and writes nothing, one whose output is a list of bytes, one that
-- writes for ever.
use gpt_pilot.Prelude.{
  ℕ, suc, ◌+◌, ◌*◌, ◌≤◌, ◌≡◌, refl, Bool, true, false, Option, none, some, List, [], ◌∷◌, ltb,
  select, arith, ◌-◌, string_eq,
}
use gpt_pilot.Result.{ok}
use gpt_pilot.Proc.{
  System, LocalProcess, Stream, OneRead, Waited, nonblock_read, read_output, wait, is_running,
  terminate, terminate_process_tree, minus, start_local,
}
use gpt_pilot.Proc.Reading.{Delivers, nonblock_read-Delivers, nonblock_read-flood}
use gpt_pilot.Proc.Waiting.{IsPunctual, now-wait}
use gpt_pilot.Proc.Running.{ProcessManager, run_command, start_process, command_loop, last_output}
use gpt_pilot.Proc.Timeouts.{run_command-timeout}
use gpt_pilot.Proc.Watching.{Watcher, WatcherStep, WatcherSteps, watch}
use gpt_pilot.Proc.Exits.{IsConsistent, IsConsistent-steps}
use gpt_pilot.Prelude.Dict.{insert}

-- The world is the time.
abbrev no_end : Option ℕ → ℕ → Waited × ℕ
no_end none w = (Waited.exit_raised, w)
no_end (some t) w = (Waited.timed_out, w + t)

abbrev silent : Bool → System
silent alive = record {
  World = ℕ;
  now = λ w. w;
  windows = false;
  create = λ cmd cwd env bg w. (7, w);
  uuid4 = λ w. ("a", w);
  wait_for = λ pid t w. no_end t w;
  read_one = λ pid stream t w. (OneRead.read_timed_out, suc (w + t));
  exists = λ pid w. alive;
  children = λ pid w. some (8 ∷ []);
  send_signal = λ signal pid w. w;
  wait_procs = λ pids t w. w + t;
  is_alive = λ pid w. alive;
  returncode = λ pid w. none;
  abs_path = λ root cwd. root;
}

abbrev sleeper : LocalProcess
sleeper = record {
  id = "a";
  cmd = "sleep";
  cwd = "/";
  env = [];
  stdout = [];
  stderr = [];
  pid = 7;
  kill_wait_timeout = 5000;
}

silent-IsPunctual : IsPunctual (silent true)
silent-IsPunctual = record {
  wait_for_in_time = λ pid t w. omega arith;
  wait_procs_in_time = λ pids t w. omega arith;
  signal_at_once = λ signal pid w. refl;
}

now-wait_example : (wait (silent true) (some 20) sleeper 0).1 ≤ 20 + 2 * 6000
now-wait_example = now-wait silent-IsPunctual 19 sleeper 0

escalation : wait (silent true) (some 20) sleeper 0 ≡ (ok (minus 1), 12020)
unfolding wait terminate terminate_process_tree
escalation = refl

abbrev manager : ProcessManager
manager = record {
  processes = [];
  default_env = [];
  root_dir = "/";
  kill_wait_timeout = 5000;
  output_handler = true;
  exit_handler = true;
  outputs = [];
  exits = [];
}

cut_short :
    run_command (silent true) 3 1 "sleep" "." [] 250 true manager 0
    ≡ some (ok (none, [], []), manager, 1426)
unfolding run_command command_loop last_output start_process start_local read_output nonblock_read
    terminate terminate_process_tree
cut_short = refl

run_command-timeout_run :
    (p : LocalProcess) × (late : ℕ) × (is_running (silent true) p late ≡ true)
    × (250 ≤ late - (start_process (silent true) "sleep" "." [] false manager 0).2)
run_command-timeout_run =
    run_command-timeout (silent true) 1 3 "sleep" "." [] 250 true manager manager 0 1426 [] []
      cut_short

-- The world is the bytes that are still to come: "h\u00e9" in UTF-8.
abbrev next_byte : List ℕ → OneRead × List ℕ
next_byte [] = (OneRead.end_of_stream, [])
next_byte (b ∷ bs) = (OneRead.one_byte b, bs)

abbrev writing : (List ℕ → OneRead × List ℕ) → System
writing next = record {
  World = List ℕ;
  now = λ w. 0;
  windows = false;
  create = λ cmd cwd env bg w. (7, w);
  uuid4 = λ w. ("a", w);
  wait_for = λ pid t w. (Waited.timed_out, w);
  read_one = λ pid stream t w. next w;
  exists = λ pid w. true;
  children = λ pid w. none;
  send_signal = λ signal pid w. w;
  wait_procs = λ pids t w. w;
  is_alive = λ pid w. true;
  returncode = λ pid w. none;
  abs_path = λ root cwd. root;
}

nonblock_read-Delivers_example :
    nonblock_read (writing next_byte) 4 7 Stream.stdout 10 [] (104 ∷ 195 ∷ 169 ∷ [])
    ≡ some (select (λ b. ltb b 128) (104 ∷ 195 ∷ 169 ∷ []), [])
nonblock_read-Delivers_example =
    nonblock_read-Delivers (writing next_byte) 7 Stream.stdout 10 4 []
      (Delivers.brings refl (Delivers.brings refl (Delivers.brings refl (Delivers.ends refl))))
      (omega arith)

nonblock_read-flood_run :
    nonblock_read (writing (λ w. (OneRead.one_byte 121, w))) 1000 7 Stream.stdout 10 [] [] ≡ none
nonblock_read-flood_run =
    nonblock_read-flood (writing (λ w. (OneRead.one_byte 121, w))) 7 Stream.stdout 10 (λ w. 121)
      (λ w. refl) 1000 [] []

abbrev empty_watcher : Watcher
empty_watcher = record { manager = manager; complete_processes = []; procs = [] }

abbrev told : Watcher
told = record {
  manager = record manager { processes = ("a", sleeper) ∷ []; exits = "a" ∷ [] };
  complete_processes = "a" ∷ [];
  procs = [];
}

ended_process : WatcherSteps (silent false) 1 empty_watcher told
unfolding watch insert read_output nonblock_read string_eq
ended_process = WatcherSteps.goes_on (WatcherStep.starts sleeper refl) (
    WatcherSteps.goes_on (WatcherStep.begins refl)
      (WatcherSteps.goes_on (WatcherStep.sees 0 22 refl refl) WatcherSteps.stays))

IsConsistent-steps_example : IsConsistent told
IsConsistent-steps_example =
    IsConsistent-steps (silent false) 1 empty_watcher told ended_process (record {
      keyed = tt;
      keys_distinct = tt;
      procs_distinct = tt;
      procs_new = λ id here. absurd (ground (arith, here));
      exits_distinct = tt;
      exits_complete = λ id here. absurd (ground (arith, here));
    })
