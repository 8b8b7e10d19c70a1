-- ===== src/BugHunter/Testing.antt =====
-- `ask_user_to_test` of core/agents/bug_hunter.py when the iteration has what it reads.
use gpt_pilot.Prelude.{
  false, ◌≡◌, refl, some, none, List, [], ◌∷◌, ◌++◌, ◌==◌, string_eq, option_eq, update_last, arith,
  if◌then◌else◌, Bool-cases, inl, inr, true, Bool, Option, String, not, ap,
}
use gpt_pilot.Result.{Result, ok, ◌>>=◌}
use gpt_pilot.Records.{Iteration, IterationStatus, Cycle}
use gpt_pilot.ProjectState.{ProjectState}
use gpt_pilot.BugHunter.{
  TestAnswers, change_last_cycle, ask_for_feedback, ask_if_fixed, true, Bool, String,
  ask_user_to_test, Option, ensured, not, empty_cycle,
}
use gpt_pilot.BugHunter.Missing.{
  LastUnfinished, with_cycles, ensure_bug_hunting_cycles-LastUnfinished,
}
use gpt_pilot.Agents.{respond_done, AgentClass}
use gpt_pilot.BugHunter.Outcomes.{
  Outcome, Tested, feedback_status, tested_status, with_last, set_status-Tested,
  complete_iteration-Tested, change_last_cycle-LastUnfinished, still_last, Outcome-same,
  Outcome-with_last, ask_for_feedback-Outcome,
}

abbrev fix_tried : Cycle → Cycle
fix_tried c = record c { fix_attempted = some true }

abbrev tried :
    Cycle → List Cycle → (i : Iteration) (s : ProjectState) → LastUnfinished i s → ProjectState
tried c cs i s l = record s { iterations = l.others ++ with_last fix_tried c cs i ∷ [] }

-- Whether feedback is asked for next, and what is done then.
abbrev then_feedback : TestAnswers → Bool × ProjectState → Result ProjectState
then_feedback a (awaiting, s) = if awaiting then ask_for_feedback a s else ok s

-- A list of cycles stays non-empty.
abbrev fix_tried_first : Cycle → List Cycle → Cycle
fix_tried_first c [] = fix_tried c
fix_tried_first c (c' ∷ cs) = c

abbrev fix_tried_rest : Cycle → List Cycle → List Cycle
fix_tried_rest c [] = []
fix_tried_rest c (c' ∷ cs) = update_last fix_tried (c' ∷ cs)

last_cycles :
    (c : Cycle) (cs : List Cycle)
    → some (update_last fix_tried (c ∷ cs)) ≡ some (fix_tried_first c cs ∷ fix_tried_rest c cs)
last_cycles c [] = refl
last_cycles c (c' ∷ cs) = refl

fixed-Outcome :
    (a : TestAnswers) (c : Cycle) (cs : List Cycle) (i : Iteration) (s : ProjectState)
    (l : LastUnfinished i s)
    → i.bug_hunting_cycles ≡ some (c ∷ cs)
    → s.has_next ≡ false
    → Outcome i l.others (tested_status a) (ask_if_fixed a.is_fixed false s >>= then_feedback a)
unfolding ask_if_fixed
fixed-Outcome a c cs i s l cycles writable = elim (Bool-cases (a.is_fixed.button == some "yes")) [
  | inl fixed ↦
      let (s', e, t) = complete_iteration-Tested i' s1 l1 writable in
      back (s', ground (arith, change, fixed, e), t) (ground (arith, fixed))
  | inr not_fixed ↦ elim (Bool-cases (a.is_fixed.button == some "start_pair_programming")) [
    | inl pairs ↦
        let (s', e, t) = set_status-Tested IterationStatus.start_pair_programming i' s1 l1 in
        back (s', ground (arith, change, not_fixed, pairs, e), t) (ground (arith, not_fixed, pairs))
    | inr goes_on ↦
        let (s', e, t) =
          ask_for_feedback-Outcome a (fix_tried_first c cs) (fix_tried_rest c cs) i' s1 l1
            (last_cycles c cs) writable in
        back (s', ground (arith, change, not_fixed, goes_on, e), t)
          (ground (arith, not_fixed, goes_on))
  ]
]
  where
    i' : Iteration
    i' = with_last fix_tried c cs i

    s1 : ProjectState
    s1 = tried c cs i s l

    l1 : LastUnfinished (with_last fix_tried c cs i) (tried c cs i s l)
    l1 = still_last fix_tried c cs i s l

    change : change_last_cycle fix_tried s ≡ ok (tried c cs i s l)
    change = change_last_cycle-LastUnfinished fix_tried c cs i s l cycles

    back :
        {status : IterationStatus}
        → Outcome
            (with_last fix_tried c cs i)
            l.others
            status
            (ask_if_fixed a.is_fixed false s >>= then_feedback a)
        → tested_status a ≡ status
        → Outcome i l.others (tested_status a) (ask_if_fixed a.is_fixed false s >>= then_feedback a)
    back {status} o e =
        Outcome-same i l.others status (tested_status a)
          (ask_if_fixed a.is_fixed false s >>= then_feedback a)
          (ask_if_fixed a.is_fixed false s >>= then_feedback a) e refl
          (Outcome-with_last fix_tried c cs i l.others status
            (ask_if_fixed a.is_fixed false s >>= then_feedback a) o)

ensured-cons :
    (current next : Option (List Cycle))
    → (c : Cycle) × (cs : List Cycle) × (ensured current next ≡ c ∷ cs)
ensured-cons none none = (empty_cycle, [], refl)
ensured-cons (some []) none = (empty_cycle, [], refl)
ensured-cons (some (c ∷ cs)) none = (c, cs, refl)
ensured-cons current (some []) = (empty_cycle, [], refl)
ensured-cons current (some (c ∷ cs)) = (c, cs, refl)

-- The question whether the bug is fixed, if it is asked, and the questions after it.
abbrev asked : TestAnswers → Bool → ProjectState → Result ProjectState
asked a true s = ask_if_fixed a.is_fixed false s >>= then_feedback a
asked a false s = ask_for_feedback a s

abbrev pub status_after : TestAnswers → Bool → IterationStatus
status_after a true = tested_status a
status_after a false = feedback_status a

asked-Outcome :
    (a : TestAnswers) (test : Bool) (c : Cycle) (cs : List Cycle) (i : Iteration) (s : ProjectState)
    (l : LastUnfinished i s)
    → i.bug_hunting_cycles ≡ some (c ∷ cs)
    → s.has_next ≡ false
    → Outcome i l.others (status_after a test) (asked a test s)
asked-Outcome a true c cs i s l cycles writable = fixed-Outcome a c cs i s l cycles writable
asked-Outcome a false c cs i s l cycles writable =
    ask_for_feedback-Outcome a c cs i s l cycles writable

abbrev slotted : (i : Iteration) (s : ProjectState) → LastUnfinished i s → ProjectState
slotted i s l = record s { iterations = l.others ++ with_cycles i i ∷ [] }

ask_user_to_test-asked :
    (a : TestAnswers) (test : Bool) (i : Iteration) (next s : ProjectState) (steps : String)
    (l : LastUnfinished i next)
    → i.bug_reproduction_description ≡ some steps
    → asked a test (slotted i next l) ≡ ok s
    → ask_user_to_test a (not test) test i next ≡ ok (some (respond_done AgentClass.bug_hunter), s)
unfolding ask_user_to_test
ask_user_to_test-asked a true i next s steps l described answered =
    ground (arith, ensure_bug_hunting_cycles-LastUnfinished i i next l, described, answered)
ask_user_to_test-asked a false i next s steps l described answered =
    ground (arith, ensure_bug_hunting_cycles-LastUnfinished i i next l, described, answered)

-- If the last iteration is the unfinished one and says how to reproduce the bug, then asking the user
-- to test never raises: only that iteration changes, its status becomes the one that the answers call
-- for, and it keeps the description, so that the user can be asked again.
pub ask_user_to_test-Tested :
    (a : TestAnswers) (test : Bool) (i : Iteration) (next : ProjectState) (steps : String)
    (l : LastUnfinished i next)
    → i.bug_reproduction_description ≡ some steps
    → next.has_next ≡ false
    → (s : ProjectState) × (ask_user_to_test a (not test) test i next
        ≡ ok (some (respond_done AgentClass.bug_hunter), s))
      × Tested i l.others (status_after a test) s
ask_user_to_test-Tested a test i next steps l described writable =
    let (c, cs, cycles) = ensured-cons i.bug_hunting_cycles i.bug_hunting_cycles in
    let (s, answered, t) =
      asked-Outcome a test c cs (with_cycles i i) (slotted i next l)
        (record {
          others = l.others;
          finished = l.finished;
          iterations = refl;
          unfinished = l.unfinished;
        })
        (ap some cycles) writable in
    (
      s,
      ask_user_to_test-asked a test i next s steps l described answered,
      record {
        after = t.after;
        iterations = t.iterations;
        has_status = t.has_status;
        reproduction = t.reproduction;
      },
    )
