-- ===== src/Proc/Waiting.antt =====
-- `LocalProcess.wait` of core/proc/process_manager.py: the time that its escalation takes.
use gpt_pilot.Prelude.{
  ℕ, suc, ◌+◌, ◌*◌, ◌≤◌, ◌≡◌, Bool, true, false, List, [], ◌∷◌, some, arith, refl, ◌++◌,
}
use gpt_pilot.Proc.{
  System, Signal, LocalProcess, Waited, terminate_process_tree, terminate, signal_all, first_wait,
  second_wait, wait, wait_procs_timeout, or_no_processes,
}

-- `asyncio.wait_for` and `psutil.wait_procs` give up after their timeout, and a signal takes no time.
pub record IsPunctual (os : System) : Type 0 where
  pub wait_for_in_time :
      (pid t : ℕ) (w : os.World) → os.now (os.wait_for pid (some t) w).1 ≤ os.now w + t
  pub wait_procs_in_time :
      (pids : List ℕ) (t : ℕ) (w : os.World) → os.now (os.wait_procs pids t w) ≤ os.now w + t
  pub signal_at_once :
      (signal : Signal) (pid : ℕ) (w : os.World) → os.now (os.send_signal signal pid w) ≡ os.now w

module _ {os : System} (punctual : IsPunctual os) where
  open punctual use {wait_for_in_time, wait_procs_in_time, signal_at_once}

  now-signal_all :
      (signal : Signal) (pids : List ℕ) (w : os.World)
      → os.now (signal_all os signal pids w) ≡ os.now w
  now-signal_all signal [] w = refl
  now-signal_all signal (pid ∷ pids) w =
      cc (now-signal_all signal pids (os.send_signal signal pid w), signal_at_once signal pid w)

  now-terminate_process_tree :
      (signal : Signal) (p : LocalProcess) (w : os.World)
      → os.now (terminate_process_tree os signal p w) ≤ os.now w + wait_procs_timeout
  unfolding terminate_process_tree
  now-terminate_process_tree signal p w =
      let pids = or_no_processes os (os.children p.pid w) ++ p.pid ∷ [] in
      ground (
        arith,
        wait_procs_in_time pids wait_procs_timeout (signal_all os signal pids w),
        now-signal_all signal pids w,
      )

  pub now-terminate :
      (kill : Bool) (p : LocalProcess) (w : os.World)
      → os.now (terminate os kill p w) ≤ os.now w + wait_procs_timeout
  unfolding terminate
  now-terminate kill p w = ground (
    arith,
    now-terminate_process_tree Signal.sigterm p w,
    now-terminate_process_tree Signal.sigkill p w,
  )

  now-second_wait :
      (p : LocalProcess) (outcome : Waited) (w : os.World)
      → os.now (second_wait os p (outcome, w)).1
        ≤ os.now w + (p.kill_wait_timeout + wait_procs_timeout)
  now-second_wait p (Waited.exited code) w = omega arith
  now-second_wait p Waited.exit_raised w = omega arith
  now-second_wait p Waited.timed_out w = omega (
    arith,
    wait_for_in_time p.pid p.kill_wait_timeout (terminate os true p w),
    now-terminate true p w,
  )

  now-first_wait :
      (p : LocalProcess) (outcome : Waited) (w : os.World)
      → os.now (first_wait os p (outcome, w)).1
        ≤ os.now w + 2 * (p.kill_wait_timeout + wait_procs_timeout)
  now-first_wait p (Waited.exited code) w = omega arith
  now-first_wait p Waited.exit_raised w = omega (arith, now-terminate true p w)
  now-first_wait p Waited.timed_out w =
      let w' = terminate os false p w in
      let (outcome, w'') = os.wait_for p.pid (some p.kill_wait_timeout) w' in
      omega (
        arith,
        now-second_wait p outcome w'',
        wait_for_in_time p.pid p.kill_wait_timeout w',
        now-terminate false p w,
      )

  -- A wait with a time limit is over, whatever the process does, at most twice the time of
  -- `kill_wait_timeout` and of the wait for signalled processes after its limit.
  pub now-wait :
      (t : ℕ) (p : LocalProcess) (w : os.World)
      → os.now (wait os (some (suc t)) p w).1
        ≤ os.now w + suc t + 2 * (p.kill_wait_timeout + wait_procs_timeout)
  unfolding wait
  now-wait t p w =
      let (outcome, w') = os.wait_for p.pid (some (suc t)) w in
      omega (arith, now-first_wait p outcome w', wait_for_in_time p.pid (suc t) w)
