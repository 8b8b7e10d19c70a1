-- ===== src/TechLead/Editing.antt =====
-- A plan that the user did not edit: `update_epics_and_tasks` of core/agents/tech_lead.py.
use gpt_pilot.Prelude.{
  ℕ, suc, String, ◌≡◌, refl, ◌∙◌, ap, sym, false, none, some, List, [], ◌∷◌, ◌++◌, string_eq,
  option_eq, nat_eq, ==_refl, map, contains, length, is_empty, update_first, arith, if◌then◌else◌,
  true, subst,
}
use gpt_pilot.Prelude.Distinct.{IsDistinct}
use mathlib.Core.List.{append_assoc, append-nil}
use gpt_pilot.Result.{ok}
use gpt_pilot.Records.{Task, Epic}
use gpt_pilot.ProjectState.{ProjectState, unfinished_epics}
use gpt_pilot.TechLead.{
  EditedEpic, same_task, existing_task, updated_task, updated_tasks, updated_plan, set_sub_epics,
  update_epics_and_tasks, numbered_epics, task_status_eq, kept_or_new, new_task,
}
use gpt_pilot.Records.Work.{is_unfinished_epic}

abbrev pub Knows : List Task → Task → Type 0
Knows existing t = existing_task t.description existing ≡ some t

abbrev pub AllKnown : List Task → List Task → Type 0
AllKnown existing [] = Unit
AllKnown existing (t ∷ ts) = Knows existing t × AllKnown existing ts

-- The tasks of a sub epic have its number.
abbrev pub AllNumbered : ℕ → List Task → Type 0
AllNumbered number [] = Unit
AllNumbered number (t ∷ ts) = (t.sub_epic_id ≡ some number) × AllNumbered number ts

abbrev pub PlanNumbered : ℕ → List EditedEpic → Type 0
PlanNumbered number [] = Unit
PlanNumbered number (e ∷ es) = AllNumbered number e.tasks × PlanNumbered (suc number) es

abbrev pub tasks_of : List EditedEpic → List Task
tasks_of [] = []
tasks_of (e ∷ es) = e.tasks ++ tasks_of es

abbrev pub descriptions : List Task → List String
descriptions ts = map (λ (t : Task). t.description) ts

same_task_refl : (t : Task) → same_task t t ≡ true
unfolding same_task
same_task_refl t =
    rw
      (
        ==_refl t.description,
        ==_refl t.status,
        ==_refl t.test_instructions,
        ==_refl t.id,
        ==_refl t.instructions,
        ==_refl t.pre_breakdown_testing_instructions,
        ==_refl t.sub_epic_id,
        ==_refl t.related_api_endpoints,
      )
      refl

existing_task-none :
    (d : String) (ts : List Task) → contains (descriptions ts) d ≡ false → existing_task d ts ≡ none
unfolding existing_task
existing_task-none d [] new = refl
existing_task-none d (t ∷ ts) new = ground (arith, existing_task-none d ts, new)

Knows-cons :
    (x : Task) (existing : List Task) (t : Task) → Knows existing t → Knows (x ∷ existing) t
unfolding existing_task
Knows-cons x existing t known = ground (arith, known)

AllKnown-cons :
    (x : Task) (existing ts : List Task) → AllKnown existing ts → AllKnown (x ∷ existing) ts
AllKnown-cons x existing [] known = tt
AllKnown-cons x existing (t ∷ ts) known =
    (Knows-cons x existing t known.0, AllKnown-cons x existing ts known.1)

Knows-head :
    (t : Task) (ts : List Task)
    → contains (descriptions ts) t.description ≡ false
    → Knows (t ∷ ts) t
unfolding existing_task
Knows-head t ts new = ground (arith, existing_task-none t.description ts new, ==_refl t.description)

IsDistinct-AllKnown : (ts : List Task) → IsDistinct (descriptions ts) → AllKnown ts ts
IsDistinct-AllKnown [] distinct = tt
IsDistinct-AllKnown (t ∷ ts) distinct =
    (Knows-head t ts distinct.0, AllKnown-cons t ts ts (IsDistinct-AllKnown ts distinct.1))

updated_task-same :
    (id : String) (existing : List Task) (number : ℕ) (t : Task)
    → Knows existing t
    → t.sub_epic_id ≡ some number
    → updated_task id existing number t ≡ t
updated_task-same id existing number t known at =
    ap (λ o. kept_or_new id o number t) known
    ∙ ap
        (λ b.
          if b then record t { sub_epic_id = some number } else new_task id t.description number)
        (same_task_refl t)
    ∙ ap (λ n. record t { sub_epic_id = n }) (sym at)

updated_tasks-same :
    (uuid : ℕ → String) (existing : List Task) (number : ℕ) (updated ts : List Task)
    → AllKnown existing ts
    → AllNumbered number ts
    → updated_tasks uuid existing number updated ts ≡ updated ++ ts
unfolding updated_tasks
updated_tasks-same uuid existing number updated [] known at = sym (append-nil updated)
updated_tasks-same uuid existing number updated (t ∷ ts) known at =
    ap (λ u. updated_tasks uuid existing number (updated ++ u ∷ []) ts)
      (updated_task-same (uuid (length updated)) existing number t known.0 at.0)
    ∙ updated_tasks-same uuid existing number (updated ++ t ∷ []) ts known.1 at.1
    ∙ append_assoc updated (t ∷ []) ts

AllKnown-append :
    (existing xs ys : List Task)
    → AllKnown existing (xs ++ ys)
    → AllKnown existing xs × AllKnown existing ys
AllKnown-append existing [] ys known = (tt, known)
AllKnown-append existing (x ∷ xs) ys known =
    let (left, right) = AllKnown-append existing xs ys known.1 in ((known.0, left), right)

updated_plan-same :
    (uuid : ℕ → String) (existing : List Task) (number : ℕ) (updated : List Task)
    (plan : List EditedEpic)
    → AllKnown existing (tasks_of plan)
    → PlanNumbered number plan
    → updated_plan uuid existing number updated plan ≡ updated ++ tasks_of plan
unfolding updated_plan
updated_plan-same uuid existing number updated [] known at = sym (append-nil updated)
updated_plan-same uuid existing number updated (e ∷ es) known at =
    let (here, there) = AllKnown-append existing e.tasks (tasks_of es) known in
    ap (λ u. updated_plan uuid existing (suc number) u es)
      (updated_tasks-same uuid existing number updated e.tasks here at.0)
    ∙ updated_plan-same uuid existing (suc number) (updated ++ e.tasks) es there at.1
    ∙ append_assoc updated e.tasks (tasks_of es)

-- If the plan comes back from the user as it was, with descriptions that differ from each other and
-- every task numbered by its sub epic, then all tasks are kept, ids included, and in their order.
pub update_epics_and_tasks-same :
    (uuid : ℕ → String) (plan : List EditedEpic) (next : ProjectState)
    → is_empty (unfinished_epics next) ≡ false
    → next.tasks ≡ tasks_of plan
    → IsDistinct (descriptions next.tasks)
    → PlanNumbered 1 plan
    → (next' : ProjectState) × (update_epics_and_tasks uuid plan next ≡ ok next')
      × (next'.tasks ≡ next.tasks)
unfolding update_epics_and_tasks set_sub_epics
update_epics_and_tasks-same uuid plan next has_epic tasks distinct at = (
  record next {
    epics =
        update_first is_unfinished_epic
          (λ (e : Epic). record e {
            sub_epics = numbered_epics 1 (map (λ (e : EditedEpic). e.description) plan);
          })
          next.epics;
    tasks = updated_plan uuid next.tasks 1 [] plan;
  },
  rw (has_epic) refl,
  updated_plan-same uuid next.tasks 1 [] plan
        (subst (λ ts. AllKnown next.tasks ts) tasks (IsDistinct-AllKnown next.tasks distinct)) at
      ∙ sym tasks,
)
