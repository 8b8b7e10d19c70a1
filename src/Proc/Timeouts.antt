-- ===== src/Proc/Timeouts.antt =====
-- `run_command` of core/proc/process_manager.py: when it gives no code.
use gpt_pilot.Prelude.{
  ℕ, zero, suc, ◌-◌, ◌≤◌, ◌≡◌, refl, String, Bool, false, ◌&&◌, some, List, ltb, Bool-cases, arith,
  inl, inr, none, true,
}
use gpt_pilot.Prelude.Dict.{Dict}
use gpt_pilot.Prelude.Maybe.{>>=-eq-some}
use gpt_pilot.Result.{Result, ok, raise, Result-cases}
use gpt_pilot.Proc.{
  System, LocalProcess, read_output, is_running, busy_wait_interval, max_command_timeout,
  nonblock_read_timeout, wait,
}
use gpt_pilot.Proc.Running.{
  ProcessManager, command_loop, run_command, start_process, last_output, ended, show_output_of, min,
}

module _ (os : System) (reads : ℕ) where
  command_loop-over :
      (fuel t0 timeout : ℕ) (show : Bool) (p p' : LocalProcess) (m m' : ProcessManager)
      (w w' : os.World)
      → command_loop os fuel reads t0 timeout show p m w ≡ some (p', m', w')
      → (is_running os p' w' && ltb (os.now w' - t0) timeout) ≡ false
  unfolding command_loop
  command_loop-over zero t0 timeout show p p' m m' w w' e = absurd (ground arith)
  command_loop-over (suc fuel) t0 timeout show p p' m m' w w' e =
      elim (Bool-cases (is_running os p w && ltb (os.now w - t0) timeout)) [
        | inr stops ↦ let same = rw (command_loop, stops) at e in ground (arith, same)
        | inl goes ↦
            let again = rw (command_loop, goes) at e in
            let ((q, out, err, v), read, rest) =
              >>=-eq-some (read_output os reads busy_wait_interval p w) _ again in
            command_loop-over fuel t0 timeout show q p' (show_output_of show out err m) m' v w' rest
      ]

  status-none :
      (show : Bool) (p : LocalProcess) (m : ProcessManager) (outcome : Result Bool) (w : os.World)
      {out err : List ℕ} {m' : ProcessManager} {w' : os.World}
      → last_output os reads show p m (outcome, w) ≡ some (ok (none, out, err), m', w')
      → outcome ≡ ok true
  unfolding last_output
  status-none show p m (raise error) w e = absurd (ground arith)
  status-none show p m (ok true) w e = refl
  status-none show p m (ok false) w e =
      let ((q, out, err, v), read, rest) =
        >>=-eq-some (read_output os reads nonblock_read_timeout p w) _ e in
      absurd (ground (arith, rest))

  ended-terminated :
      (running : Bool) (p : LocalProcess) (w : os.World)
      → (ended os running p w).0 ≡ ok true
      → running ≡ true
  ended-terminated true p w e = refl
  ended-terminated false p w e = elim (Result-cases (wait os none p w).0) [
    | inl (code, waited) ↦ absurd (ground (arith, rw (waited) at e))
    | inr (error, waited) ↦ absurd (ground (arith, rw (waited) at e))
  ]

  -- A command that ends without a status code was still running when the smaller one of the timeout
  -- and max_command_timeout had passed since its start.
  pub run_command-timeout :
      (fuel : ℕ) (cmd cwd : String) (env : Dict String) (timeout : ℕ) (show : Bool)
      (m m' : ProcessManager) (w w' : os.World) (out err : List ℕ)
      → run_command os fuel reads cmd cwd env timeout show m w ≡ some (ok (none, out, err), m', w')
      → (p : LocalProcess) × (late : os.World) × (is_running os p late ≡ true)
        × (min timeout max_command_timeout
            ≤ os.now late - os.now (start_process os cmd cwd env false m w).2)
  unfolding run_command
  run_command-timeout fuel cmd cwd env timeout show m m' w w' out err e =
      let (process, m1, w1) = start_process os cmd cwd env false m w in
      let ((p, m2, w2), loops, rest) =
        >>=-eq-some
          (command_loop os fuel reads (os.now w1) (min timeout max_command_timeout) show process m1
            w1)
          _ e in
      let over =
        command_loop-over fuel (os.now w1) (min timeout max_command_timeout) show process p m1 m2 w1
          w2 loops in
      let (outcome, w3) = ended os (is_running os p w2) p w2 in
      let running =
        ended-terminated (is_running os p w2) p w2 (status-none show p m2 outcome w3 rest) in
      (p, w2, running, ground (arith, over, running))
