-- ===== src/Proc.antt =====
-- `LocalProcess` of core/proc/process_manager.py. The operating system is a parameter: what asyncio and
-- psutil answer for the process with a number, over a world that they change. Times are in
-- milliseconds, output is bytes that are decoded to code points.
pub mod Reading
pub mod Waiting
pub mod Running
pub mod Timeouts
pub mod Watching
pub mod Exits
use gpt_pilot.Prelude.{
  ℕ, zero, suc, ◌++◌, String, Bool, true, false, Option, none, some, List, [], ◌∷◌, ltb,
  if◌then◌else◌,
}
use gpt_pilot.Prelude.Dict.{Dict}
use gpt_pilot.Prelude.Maybe.{◌>>=◌}
use gpt_pilot.Result.{Result, ok, raise, system_exit}

abbrev pub nonblock_read_timeout : ℕ
nonblock_read_timeout = 10

abbrev pub busy_wait_interval : ℕ
busy_wait_interval = 100

-- `MAX_COMMAND_TIMEOUT` is in seconds in the source: 180.
abbrev pub max_command_timeout : ℕ
max_command_timeout = 180000

abbrev pub default_kill_wait_timeout : ℕ
default_kill_wait_timeout = 5000

abbrev pub wait_procs_timeout : ℕ
wait_procs_timeout = 1000

pub data Signal : Type 0 where
  sigterm sigkill : Signal

pub data Stream : Type 0 where
  stdout stderr : Stream

-- A negative code is the number of the signal that ended the process.
pub data ReturnCode : Type 0 where
  exit_code minus : ℕ → ReturnCode

pub data Waited : Type 0 where
  exited : ReturnCode → Waited
  timed_out exit_raised : Waited

-- What `wait_for(reader.read(1), timeout)` gives.
pub data OneRead : Type 0 where
  one_byte : ℕ → OneRead
  end_of_stream read_timed_out : OneRead

-- `psutil.Process(pid)` and its `children(recursive=True)` are `none` for a process that is gone;
-- a signal to one that is gone leaves the world as it is.
pub record System : Type 1 where
  pub World : Type 0
  pub now : World → ℕ
  pub windows : Bool
  pub create : String → String → Dict String → Bool → World → ℕ × World
  pub uuid4 : World → String × World
  pub wait_for : ℕ → Option ℕ → World → Waited × World
  pub read_one : ℕ → Stream → ℕ → World → OneRead × World
  pub exists : ℕ → World → Bool
  pub children : ℕ → World → Option (List ℕ)
  pub send_signal : Signal → ℕ → World → World
  pub wait_procs : List ℕ → ℕ → World → World
  pub is_alive : ℕ → World → Bool
  pub returncode : ℕ → World → Option ReturnCode
  pub abs_path : String → String → String

pub record LocalProcess : Type 0 where
  pub id : String
  pub cmd : String
  pub cwd : String
  pub env : Dict String
  pub stdout : List ℕ
  pub stderr : List ℕ
  pub pid : ℕ
  pub kill_wait_timeout : ℕ

-- `data.decode("utf-8", errors="ignore")` of one byte.
abbrev pub decode_byte : ℕ → List ℕ
decode_byte b = if ltb b 128 then b ∷ [] else []

-- `if timeout:`
abbrev pub time_limit : Option ℕ → Option ℕ
time_limit none = none
time_limit (some zero) = none
time_limit (some (suc t)) = some (suc t)

module _ (os : System) where
  open os use {
    World, windows, create, uuid4, wait_for, read_one, exists, children, send_signal, wait_procs,
    is_alive,
  }

  unfoldable pub start_local :
      String → String → Dict String → Bool → ℕ → World → LocalProcess × World
  start_local cmd cwd env bg kill_wait_timeout w =
      let (pid, w1) = create cmd cwd env bg w in
      let (id, w2) = uuid4 w1 in
      (
        record {
          id = id;
          cmd = cmd;
          cwd = cwd;
          env = env;
          stdout = [];
          stderr = [];
          pid = pid;
          kill_wait_timeout = kill_wait_timeout;
        },
        w2,
      )

  abbrev pub signal_all : Signal → List ℕ → World → World
  signal_all signal [] w = w
  signal_all signal (pid ∷ pids) w = signal_all signal pids (send_signal signal pid w)

  abbrev pub or_no_processes : Option (List ℕ) → List ℕ
  or_no_processes none = []
  or_no_processes (some pids) = pids

  unfoldable pub terminate_process_tree : Signal → LocalProcess → World → World
  terminate_process_tree signal p w =
      let processes = or_no_processes (children p.pid w) ++ p.pid ∷ [] in
      if exists p.pid w
      then wait_procs processes wait_procs_timeout (signal_all signal processes w)
      else w

  unfoldable pub terminate : Bool → LocalProcess → World → World
  terminate kill p w =
      let term = terminate_process_tree sigterm p w in
      if windows then term else if kill then terminate_process_tree sigkill p w else term

  -- The wait after SIGKILL and the one after SIGTERM. A `SystemExit` there is not caught.
  abbrev pub last_wait : Waited → Result ReturnCode
  last_wait (exited code) = ok code
  last_wait timed_out = ok (minus 1)
  last_wait exit_raised = raise system_exit

  abbrev pub second_wait : LocalProcess → Waited × World → Result ReturnCode × World
  second_wait p (exited code, w) = (ok code, w)
  second_wait p (exit_raised, w) = (raise system_exit, w)
  second_wait p (timed_out, w) =
      let (outcome, w') = wait_for p.pid (some p.kill_wait_timeout) (terminate true p w) in
      (last_wait outcome, w')

  abbrev pub first_wait : LocalProcess → Waited × World → Result ReturnCode × World
  first_wait p (exited code, w) = (ok code, w)
  first_wait p (exit_raised, w) = (ok (minus 1), terminate true p w)
  first_wait p (timed_out, w) =
      second_wait p (wait_for p.pid (some p.kill_wait_timeout) (terminate false p w))

  unfoldable pub wait : Option ℕ → LocalProcess → World → Result ReturnCode × World
  wait timeout p w = first_wait p (wait_for p.pid (time_limit timeout) w)

  -- The loop reads until a byte does not come in time or the stream ends; `none` without fuel.
  unfoldable pub nonblock_read : ℕ → ℕ → Stream → ℕ → List ℕ → World → Option (List ℕ × World)
  nonblock_read zero pid stream timeout buffer w = none
  nonblock_read (suc fuel) pid stream timeout buffer w =
      let (read, w') = read_one pid stream timeout w in
      elim read [
        | one_byte b ↦ nonblock_read fuel pid stream timeout (buffer ++ decode_byte b) w'
        | end_of_stream ↦ some (buffer, w')
        | read_timed_out ↦ some (buffer, w')
      ]

  -- The process with its new output, that output, and the world.
  unfoldable pub read_output :
      ℕ → ℕ → LocalProcess → World → Option (LocalProcess × List ℕ × List ℕ × World)
  read_output fuel timeout p w = do
    (new_stdout, w1) ← nonblock_read fuel p.pid Stream.stdout timeout [] w
    (new_stderr, w2) ← nonblock_read fuel p.pid Stream.stderr timeout [] w1
    some (
      record p { stdout = p.stdout ++ new_stdout; stderr = p.stderr ++ new_stderr },
      new_stdout,
      new_stderr,
      w2,
    )

  abbrev pub is_running : LocalProcess → World → Bool
  is_running p w = is_alive p.pid w
