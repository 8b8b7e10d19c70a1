-- ===== src/BugHunter/Outcomes.antt =====
-- The questions of `ask_user_to_test` of core/agents/bug_hunter.py, and what their answers lead to.
use gpt_pilot.Prelude.{
  false, ◌≡◌, refl, some, none, List, [], ◌∷◌, ◌++◌, ◌==◌, string_eq, option_eq, update_last, arith,
  if◌then◌else◌, Bool-cases, ◌∙◌, subst, inl, inr, sym,
}
use gpt_pilot.Result.{Result, ok, ◌>>=◌}
use gpt_pilot.Records.{Iteration, IterationStatus, Cycle}
use gpt_pilot.ProjectState.{ProjectState, complete_iteration}
use gpt_pilot.ProjectState.Iterations.{set_status}
use gpt_pilot.BugHunter.{TestAnswers, change_last_cycle, extract_debugging_logs, ask_for_feedback}
use gpt_pilot.BugHunter.Missing.{
  LastUnfinished, LastUnfinished-unfinished_iterations, change_current_iteration-LastUnfinished,
  LastUnfinished-current_iteration, update_first-snoc,
}
use gpt_pilot.Records.Work.{finish_iteration, is_unfinished_iteration}

-- The status that the answers lead to.
abbrev pub feedback_status : TestAnswers → IterationStatus
feedback_status a =
    if a.feedback.button == some "done"
    then IterationStatus.done
    else if a.feedback.button == some "start_pair_programming"
    then IterationStatus.start_pair_programming
    else IterationStatus.hunting_for_bug

abbrev pub tested_status : TestAnswers → IterationStatus
tested_status a =
    if a.is_fixed.button == some "yes"
    then IterationStatus.done
    else if a.is_fixed.button == some "start_pair_programming"
    then IterationStatus.start_pair_programming
    else feedback_status a

-- After the test: the same iterations but for the last, which has this status, and a cycle.
pub record Tested (i : Iteration) (others : List Iteration) (status : IterationStatus)
    (s : ProjectState) : Type 0 where
  pub after : Iteration
  pub iterations : s.iterations ≡ others ++ after ∷ []
  pub has_status : after.status ≡ some status
  pub reproduction : after.bug_reproduction_description ≡ i.bug_reproduction_description

pub set_status-Tested :
    (status : IterationStatus) (i : Iteration) (s : ProjectState) (l : LastUnfinished i s)
    → (s' : ProjectState) × (set_status status s ≡ ok s') × Tested i l.others status s'
unfolding set_status
set_status-Tested status i s l = (
  record s { iterations = l.others ++ record i { status = some status } ∷ [] },
  change_current_iteration-LastUnfinished (λ (i : Iteration). record i { status = some status }) i s
      l,
  record {
    after = record i { status = some status };
    iterations = refl;
    has_status = refl;
    reproduction = refl;
  },
)

pub complete_iteration-Tested :
    (i : Iteration) (s : ProjectState) (l : LastUnfinished i s)
    → s.has_next ≡ false
    → (s' : ProjectState) × (complete_iteration s ≡ ok s')
      × Tested i l.others IterationStatus.done s'
unfolding complete_iteration finish_iteration
complete_iteration-Tested i s l writable = (
  record s {
    iterations = l.others ++ record i { status = some IterationStatus.done } ∷ [];
    relevant_files = none;
    modified_files = [];
  },
  rw
      (
        LastUnfinished-unfinished_iterations i s l,
        writable,
        l.iterations,
        update_first-snoc is_unfinished_iteration
            (λ (i : Iteration). record i { status = some IterationStatus.done }) l.others i
            l.finished l.unfinished,
      )
      refl,
  record {
    after = record i { status = some IterationStatus.done };
    iterations = refl;
    has_status = refl;
    reproduction = refl;
  },
)

-- The iteration with a change of its last cycle.
abbrev pub with_last : (Cycle → Cycle) → Cycle → List Cycle → Iteration → Iteration
with_last change c cs i = record i { bug_hunting_cycles = some (update_last change (c ∷ cs)) }

pub change_last_cycle-LastUnfinished :
    (change : Cycle → Cycle) (c : Cycle) (cs : List Cycle) (i : Iteration) (s : ProjectState)
    (l : LastUnfinished i s)
    → i.bug_hunting_cycles ≡ some (c ∷ cs)
    → change_last_cycle change s
      ≡ ok (record s { iterations = l.others ++ with_last change c cs i ∷ [] })
unfolding change_last_cycle
change_last_cycle-LastUnfinished change c cs i s l cycles = ground (
  arith,
  LastUnfinished-current_iteration i s l,
  cycles,
  change_current_iteration-LastUnfinished (with_last change c cs) i s l,
)

abbrev pub still_last :
    (change : Cycle → Cycle) (c : Cycle) (cs : List Cycle) (i : Iteration) (s : ProjectState)
    (l : LastUnfinished i s)
    → LastUnfinished
        (with_last change c cs i)
        (record s { iterations = l.others ++ with_last change c cs i ∷ [] })
still_last change c cs i s l = record {
  others = l.others;
  finished = l.finished;
  iterations = refl;
  unfinished = l.unfinished;
}

-- The outcome of asking: what is left, and the status that the iteration has then.
abbrev pub Outcome : Iteration → List Iteration → IterationStatus → Result ProjectState → Type 0
Outcome i others status result = (s : ProjectState) × (result ≡ ok s) × Tested i others status s

pub Outcome-same :
    (i : Iteration) (others : List Iteration) (status status' : IterationStatus)
    (result result' : Result ProjectState)
    → status' ≡ status
    → result' ≡ result
    → Outcome i others status result
    → Outcome i others status' result'
Outcome-same i others status status' result result' same_status same (s, e, t) =
    (s, same ∙ e, subst (λ st. Tested i others st s) (sym same_status) t)

pub Outcome-with_last :
    (change : Cycle → Cycle) (c : Cycle) (cs : List Cycle) (i : Iteration) (others : List Iteration)
    (status : IterationStatus) (result : Result ProjectState)
    → Outcome (with_last change c cs i) others status result
    → Outcome i others status result
Outcome-with_last change c cs i others status result (s, e, t) = (
  s,
  e,
  record {
    after = t.after;
    iterations = t.iterations;
    has_status = t.has_status;
    reproduction = t.reproduction;
  },
)

abbrev logs_given : TestAnswers → Cycle → Cycle
logs_given a c = record c {
  backend_logs = some (extract_debugging_logs a.backend_logs);
  frontend_logs = some (extract_debugging_logs a.frontend_logs);
  user_feedback = a.feedback.text;
}

hunting-Outcome :
    (a : TestAnswers) (c : Cycle) (cs : List Cycle) (i : Iteration) (s : ProjectState)
    (l : LastUnfinished i s)
    → i.bug_hunting_cycles ≡ some (c ∷ cs)
    → Outcome i l.others IterationStatus.hunting_for_bug
        (change_last_cycle (logs_given a) s >>= set_status IterationStatus.hunting_for_bug)
hunting-Outcome a c cs i s l cycles =
    Outcome-with_last (logs_given a) c cs i l.others IterationStatus.hunting_for_bug
      (change_last_cycle (logs_given a) s >>= set_status IterationStatus.hunting_for_bug)
      (rw (change_last_cycle-LastUnfinished (logs_given a) c cs i s l cycles) (
        set_status-Tested IterationStatus.hunting_for_bug (with_last (logs_given a) c cs i)
          (record s { iterations = l.others ++ with_last (logs_given a) c cs i ∷ [] })
          (still_last (logs_given a) c cs i s l)))

pub ask_for_feedback-Outcome :
    (a : TestAnswers) (c : Cycle) (cs : List Cycle) (i : Iteration) (s : ProjectState)
    (l : LastUnfinished i s)
    → i.bug_hunting_cycles ≡ some (c ∷ cs)
    → s.has_next ≡ false
    → Outcome i l.others (feedback_status a) (ask_for_feedback a s)
unfolding ask_for_feedback
ask_for_feedback-Outcome a c cs i s l cycles writable =
    elim (Bool-cases (a.feedback.button == some "done")) [
      | inl is_done ↦
          Outcome-same i l.others IterationStatus.done (feedback_status a) (complete_iteration s)
            (ask_for_feedback a s) (ground (arith, is_done)) (ground (arith, is_done))
            (complete_iteration-Tested i s l writable)
      | inr not_done ↦ elim (Bool-cases (a.feedback.button == some "start_pair_programming")) [
        | inl pairs ↦
            Outcome-same i l.others IterationStatus.start_pair_programming (feedback_status a)
              (set_status IterationStatus.start_pair_programming s) (ask_for_feedback a s)
              (ground (arith, not_done, pairs)) (ground (arith, not_done, pairs))
              (set_status-Tested IterationStatus.start_pair_programming i s l)
        | inr goes_on ↦
            Outcome-same i l.others IterationStatus.hunting_for_bug (feedback_status a)
              (change_last_cycle (logs_given a) s >>= set_status IterationStatus.hunting_for_bug)
              (ask_for_feedback a s) (ground (arith, not_done, goes_on))
              (ground (arith, not_done, goes_on)) (hunting-Outcome a c cs i s l cycles)
      ]
    ]
