-- ===== src/Troubleshooter/Bugs.antt =====
-- The way of a bug from `create_iteration` of core/agents/troubleshooter.py to the BugHunter.
use gpt_pilot.Prelude.{
  String, ◌≡◌, refl, Bool, true, false, ◌||◌, ◌∙◌, Option, none, some, List, [], ◌∷◌, ◌++◌, ap,
  arith, Bool-cases, inl, inr, if◌then◌else◌, last?, ltb,
}
use gpt_pilot.Result.{ok, raise, key_error}
use gpt_pilot.Records.{IterationStatus, Task}
use gpt_pilot.ProjectState.{
  ProjectState, current_task, unfinished_tasks, unfinished_iterations, current_iteration,
}
use gpt_pilot.Agents.{AgentClass, respond_done}
use gpt_pilot.BugHunter.{Answers, hunt_bug, is_text, has_logs, or_no_cycles, can_load}
use gpt_pilot.BugHunter.Missing.{
  LastUnfinished, hunt_bug-undescribed, hunt_bug-uninstructed, LastUnfinished-current_iteration,
}
use gpt_pilot.Troubleshooter.{
  Texts, Questions, Feedback, get_user_feedback, after_feedback, get_run_command,
  with_relevant_files, new_iteration, new_status, ask_about, reported, FilesAction,
  create_iteration, get_task_convo,
}
use gpt_pilot.Prelude.Strings.{size}
use gpt_pilot.Records.Work.{iterations_unfinished}
use gpt_pilot.Troubleshooter.Loops.{get_user_feedback-is_loop, get_user_feedback-should_iterate}

new_status-bug :
    (f : Feedback) (report : String)
    → f.is_loop ≡ false
    → f.bug_report ≡ some report
    → new_status f ≡ IterationStatus.hunting_for_bug
unfolding new_status
new_status-bug f report no_loop bug = ground (arith, no_loop, bug)

-- The logs that the user gave with the report.
abbrev pub logged : Feedback → Bool
logged f = is_text f.backend_logs || is_text f.frontend_logs

cycles-bug :
    (f : Feedback)
    → new_status f ≡ IterationStatus.hunting_for_bug
    → (new_iteration f).bug_hunting_cycles ≡ some (if logged f then reported f ∷ [] else [])
unfolding new_iteration
cycles-bug f hunting = ground (arith, hunting)

status-bug :
    (f : Feedback)
    → new_status f ≡ IterationStatus.hunting_for_bug
    → (new_iteration f).status ≡ some IterationStatus.hunting_for_bug
unfolding new_iteration
status-bug f hunting = ap some hunting

undescribed-new : (f : Feedback) → (new_iteration f).bug_reproduction_description ≡ none
unfolding new_iteration
undescribed-new f = refl

no_cycles-bug :
    (f : Feedback)
    → new_status f ≡ IterationStatus.hunting_for_bug
    → logged f ≡ false
    → (new_iteration f).bug_hunting_cycles ≡ some []
no_cycles-bug f hunting no_logs = cycles-bug f hunting ∙ rw (no_logs) refl

-- What the BugHunter misses.
abbrev pub missing_key : Feedback → String
missing_key f = if logged f then "human_readable_instructions" else "bug_reproduction_description"

hunt_bug-new_iteration :
    (is_json : String → Bool) (a : Answers) (f : Feedback) (report : String) (task : Task)
    (current next : ProjectState)
    → f.is_loop ≡ false
    → f.bug_report ≡ some report
    → current_task current ≡ some task
    → can_load is_json task.test_instructions ≡ true
    → LastUnfinished (new_iteration f) current
    → LastUnfinished (new_iteration f) next
    → hunt_bug is_json a current next ≡ raise (key_error (missing_key f))
hunt_bug-new_iteration is_json a f report task current next no_loop bug worked readable here there =
    elim (Bool-cases (logged f)) [
      | inl logs ↦
          hunt_bug-uninstructed is_json a (new_iteration f) (reported f) [] task current next
            (LastUnfinished-current_iteration (new_iteration f) current here) (status-bug f hunting)
            (undescribed-new f) (cycles-bug f hunting ∙ rw (logs) refl) refl logs worked readable
            there
          ∙ ground (arith, logs)
      | inr no_logs ↦
          hunt_bug-undescribed is_json a (new_iteration f) current next
            (LastUnfinished-current_iteration (new_iteration f) current here) (status-bug f hunting)
            (undescribed-new f)
            (ap (λ cycles. has_logs (last? (or_no_cycles cycles)))
              (no_cycles-bug f hunting no_logs))
            there
          ∙ ground (arith, no_logs)
    ]
  where
    hunting : new_status f ≡ IterationStatus.hunting_for_bug
    hunting = new_status-bug f report no_loop bug

get_run_command-ok :
    (command : String) (current next : ProjectState) (task : Task)
    → current_task current ≡ some task
    → get_task_convo task ≡ ok tt
    → (next' : ProjectState) × (get_run_command command current next ≡ ok next')
      × (next'.tasks ≡ next.tasks)
unfolding get_run_command
get_run_command-ok command current next task at broken_down =
    elim (Bool-cases (is_text current.run_command)) [
      | inl known ↦ (next, ground (arith, known), refl)
      | inr unknown ↦ (
        record next { run_command = some (if ltb (size command) 5 then "" else command) },
        ground (arith, unknown, at, broken_down),
        refl,
      )
    ]

-- The current and the next state when the feedback is dealt with.
with_relevant_files-same :
    (actions : Option (List FilesAction)) (current next : ProjectState)
    → (with_relevant_files actions current next).0.iterations ≡ current.iterations
with_relevant_files-same none current next = refl
with_relevant_files-same (some actions) current next = refl

with_relevant_files-tasks :
    (actions : Option (List FilesAction)) (current next : ProjectState)
    → (with_relevant_files actions current next).1.tasks ≡ next.tasks
with_relevant_files-tasks none current next = refl
with_relevant_files-tasks (some actions) current next = refl

current_task-same : (s s' : ProjectState) → s'.tasks ≡ s.tasks → current_task s' ≡ current_task s
unfolding current_task unfinished_tasks
current_task-same s s' same = rw same refl

abbrev with_iteration : Feedback → ProjectState × ProjectState → ProjectState
with_iteration f states = record states.1 {
  iterations = states.0.iterations ++ new_iteration f ∷ [];
}

after_feedback-bug :
    (texts : Texts) (f : Feedback) (states : ProjectState × ProjectState)
    → f.should_iterate ≡ true
    → f.is_loop ≡ false
    → after_feedback texts f states.0 states.1 ≡ ok (with_iteration f states)
unfolding after_feedback
after_feedback-bug texts f states iterate no_loop = ground (arith, iterate, no_loop)

ask_about-bug :
    (texts : Texts) (steps : Option String) (questions : List Questions) (task : Task)
    (current next : ProjectState) (f : Feedback)
    → is_text task.test_instructions ≡ true
    → get_user_feedback questions ≡ some f
    → f.should_iterate ≡ true
    → f.is_loop ≡ false
    → ask_about texts steps questions task current next
      ≡ some (
          ok (
            respond_done AgentClass.troubleshooter,
            (with_relevant_files f.actions current next).0,
            with_iteration f (with_relevant_files f.actions current next),
          ))
ask_about-bug texts steps questions task current next f instructed given iterate no_loop = ground (
  arith,
  instructed,
  given,
  after_feedback-bug texts f (with_relevant_files f.actions current next) iterate no_loop,
)

LastUnfinished-new :
    (f : Feedback) (current s : ProjectState)
    → unfinished_iterations current ≡ []
    → new_status f ≡ IterationStatus.hunting_for_bug
    → s.iterations ≡ current.iterations ++ new_iteration f ∷ []
    → LastUnfinished (new_iteration f) s
unfolding unfinished_iterations iterations_unfinished
LastUnfinished-new f current s settled hunting e = record {
  others = current.iterations;
  finished = settled;
  iterations = e;
  unfinished = rw (status-bug f hunting) refl;
}

-- When the user reports a bug of a task that has its breakdown and instructions for its test, which
-- are JSON, and no iteration is unfinished, the Troubleshooter adds an iteration for the bug. When this state has become the current
-- one, the BugHunter raises a KeyError however the user and the LLM answer: it misses the
-- instructions of the cycle if logs came with the report, and else the description of how to reproduce
-- the bug.
pub create_iteration-hunt_bug :
    (is_json : String → Bool) (texts : Texts) (run_command : String) (steps : Option String)
    (questions : List Questions) (task : Task) (f : Feedback) (report : String)
    (current next after : ProjectState) (answers : Answers)
    → current_task current ≡ some task
    → get_task_convo task ≡ ok tt
    → can_load is_json task.test_instructions ≡ true
    → next.tasks ≡ current.tasks
    → is_text task.test_instructions ≡ true
    → unfinished_iterations current ≡ []
    → get_user_feedback questions ≡ some f
    → f.bug_report ≡ some report
    → after.iterations ≡ current.iterations ++ new_iteration f ∷ []
    → (current' next' : ProjectState) × (create_iteration texts run_command steps questions current
          next
        ≡ some (ok (respond_done AgentClass.troubleshooter, current', next')))
      × (current_iteration next' ≡ some (new_iteration f))
      × (hunt_bug is_json answers next' after ≡ raise (key_error (missing_key f)))
create_iteration-hunt_bug is_json texts run_command steps questions task f report current next after
      answers at broken_down readable same_tasks instructed settled given bug follows =
    let no_loop = get_user_feedback-is_loop questions f given in
    let iterate = get_user_feedback-should_iterate questions f report given bug in
    let hunting = new_status-bug f report no_loop bug in
    let (next1, commanded, kept) =
      get_run_command-ok run_command current next task at broken_down in
    let states = with_relevant_files f.actions current next1 in
    let last =
      LastUnfinished-new f current (with_iteration f states) settled hunting (
        ap (λ is. is ++ new_iteration f ∷ []) (with_relevant_files-same f.actions current next1)) in
    let worked =
      current_task-same current (with_iteration f states)
        (with_relevant_files-tasks f.actions current next1 ∙ kept ∙ same_tasks)
      ∙ at in
    (
      states.0,
      with_iteration f states,
      unfold create_iteration in
          ground (
            arith,
            commanded,
            at,
            ask_about-bug texts steps questions task current next1 f instructed given iterate
                no_loop,
          ),
      LastUnfinished-current_iteration (new_iteration f) (with_iteration f states) last,
      hunt_bug-new_iteration is_json answers f report task (with_iteration f states) after no_loop
          bug worked readable last (LastUnfinished-new f current after settled hunting follows),
    )
