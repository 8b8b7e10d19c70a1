-- ===== src/BugHunter/Missing.antt =====
-- Iterations that lack what `run` of core/agents/bug_hunter.py reads.
use gpt_pilot.Prelude.{
  ◌≡◌, refl, Bool, true, List, [], ◌∷◌, ◌++◌, select, update_first, arith, String, some, none,
  last?, ◌∙◌, false, ap,
}
use gpt_pilot.BugHunter.{
  Answers, hunt_bug, check_logs, ask_user_to_test, some, ensure_bug_hunting_cycles,
  get_bug_reproduction_instructions, generate_iteration_convo_so_far, none, ok, TestAnswers,
  texts_of, has_logs, hunt, load_test_instructions, can_load, raise, key_error, or_no_cycles, false,
  ensured,
}
use gpt_pilot.Records.{Iteration, IterationStatus, Cycle, Task}
use gpt_pilot.ProjectState.{current_iteration, current_task, unfinished_iterations, ProjectState}
use gpt_pilot.ProjectState.Iterations.{change_current_iteration}
use gpt_pilot.Records.Work.{iterations_unfinished, is_unfinished_iteration}

pub select-snoc {ℓ} :
    {A : Type ℓ} (p : A → Bool) (xs : List A) (x : A)
    → select p xs ≡ []
    → p x ≡ true
    → select p (xs ++ x ∷ []) ≡ x ∷ []
unfolding select
select-snoc p [] x none_before here = rw (here) refl
select-snoc p (y ∷ ys) x none_before here = ground (arith, select-snoc p ys x, here)

pub update_first-snoc {ℓ} :
    {A : Type ℓ} (p : A → Bool) (f : A → A) (xs : List A) (x : A)
    → select p xs ≡ []
    → p x ≡ true
    → update_first p f (xs ++ x ∷ []) ≡ xs ++ f x ∷ []
unfolding select update_first
update_first-snoc p f [] x none_before here = rw (here) refl
update_first-snoc p f (y ∷ ys) x none_before here = ground (arith, update_first-snoc p f ys x, here)

-- The iterations with one that is unfinished, the last.
pub record LastUnfinished (i : Iteration) (s : ProjectState) : Type 0 where
  pub others : List Iteration
  pub finished : select is_unfinished_iteration others ≡ []
  pub iterations : s.iterations ≡ others ++ i ∷ []
  pub unfinished : is_unfinished_iteration i ≡ true

pub LastUnfinished-unfinished_iterations :
    (i : Iteration) (s : ProjectState) → LastUnfinished i s → unfinished_iterations s ≡ i ∷ []
unfolding unfinished_iterations iterations_unfinished
LastUnfinished-unfinished_iterations i s l =
    rw (l.iterations) (select-snoc is_unfinished_iteration l.others i l.finished l.unfinished)

pub LastUnfinished-current_iteration :
    (i : Iteration) (s : ProjectState) → LastUnfinished i s → current_iteration s ≡ some i
unfolding current_iteration
LastUnfinished-current_iteration i s l = rw (LastUnfinished-unfinished_iterations i s l) refl

pub change_current_iteration-LastUnfinished :
    (change : Iteration → Iteration) (i : Iteration) (s : ProjectState) (l : LastUnfinished i s)
    → change_current_iteration change s ≡ ok (record s { iterations = l.others ++ change i ∷ [] })
unfolding change_current_iteration
change_current_iteration-LastUnfinished change i s l =
    rw
      (
        LastUnfinished-unfinished_iterations i s l,
        l.iterations,
        update_first-snoc is_unfinished_iteration change l.others i l.finished l.unfinished,
      )
      refl

abbrev described : String → Iteration → Iteration
described steps i = record i { bug_reproduction_description = some steps }

abbrev with_steps : String → (i : Iteration) (s : ProjectState) → LastUnfinished i s → ProjectState
with_steps steps i s l = record s { iterations = l.others ++ described steps i ∷ [] }

LastUnfinished-described :
    (steps : String) (i : Iteration) (s : ProjectState) (l : LastUnfinished i s)
    → LastUnfinished (described steps i) (with_steps steps i s l)
LastUnfinished-described steps i s l = record {
  others = l.others;
  finished = l.finished;
  iterations = refl;
  unfinished = l.unfinished;
}

abbrev pub with_cycles : Iteration → Iteration → Iteration
with_cycles current i = record i {
  bug_hunting_cycles = some (ensured current.bug_hunting_cycles i.bug_hunting_cycles);
}

pub ensure_bug_hunting_cycles-LastUnfinished :
    (current i : Iteration) (next : ProjectState) (l : LastUnfinished i next)
    → ensure_bug_hunting_cycles current next
      ≡ ok (record next { iterations = l.others ++ with_cycles current i ∷ [] })
unfolding ensure_bug_hunting_cycles change_current_iteration update_first iterations_unfinished
    select
ensure_bug_hunting_cycles-LastUnfinished current i next l =
    rw (LastUnfinished-current_iteration i next l)
      (change_current_iteration-LastUnfinished (with_cycles current) i next l)

-- Without a description of how to reproduce the bug the user cannot be asked to test.
ask_user_to_test-missing :
    (answers : TestAnswers) (reproduce test : Bool) (current i : Iteration) (next : ProjectState)
    → current.bug_reproduction_description ≡ none
    → LastUnfinished i next
    → ask_user_to_test answers reproduce test current next
      ≡ raise (key_error "bug_reproduction_description")
unfolding ask_user_to_test
ask_user_to_test-missing answers reproduce test current i next undescribed l =
    ground (arith, ensure_bug_hunting_cycles-LastUnfinished current i next l, undescribed)

hunt_bug-asked :
    (is_json : String → Bool) (a : Answers) (i : Iteration) (current next : ProjectState)
    → current_iteration current ≡ some i
    → i.bug_reproduction_description ≡ none
    → (l : LastUnfinished i next)
    → hunt_bug is_json a current next
      ≡ hunt is_json i.status a current i (with_steps a.reproduction i next l)
unfolding hunt_bug get_bug_reproduction_instructions
hunt_bug-asked is_json a i current next at undescribed l = ground (
  arith,
  at,
  undescribed,
  change_current_iteration-LastUnfinished (described a.reproduction) i next l,
)

-- A reported bug with no logs.
pub hunt_bug-undescribed :
    (is_json : String → Bool) (a : Answers) (i : Iteration) (current next : ProjectState)
    → current_iteration current ≡ some i
    → i.status ≡ some IterationStatus.hunting_for_bug
    → i.bug_reproduction_description ≡ none
    → has_logs (last? (or_no_cycles i.bug_hunting_cycles)) ≡ false
    → LastUnfinished i next
    → hunt_bug is_json a current next ≡ raise (key_error "bug_reproduction_description")
unfolding ask_user_to_test ensure_bug_hunting_cycles current_iteration change_current_iteration
    iterations_unfinished update_first select
hunt_bug-undescribed is_json a i current next at hunting undescribed no_logs l =
    hunt_bug-asked is_json a i current next at undescribed l
    ∙ ap (λ s. hunt is_json s a current i (with_steps a.reproduction i next l)) hunting
    ∙ ground (
      arith,
      no_logs,
      ask_user_to_test-missing a.test true false i (described a.reproduction i)
          (with_steps a.reproduction i next l) undescribed
          (LastUnfinished-described a.reproduction i next l),
    )

-- A bug with logs of the user only.
pub hunt_bug-uninstructed :
    (is_json : String → Bool) (a : Answers) (i : Iteration) (c : Cycle) (cs : List Cycle)
    (task : Task) (current next : ProjectState)
    → current_iteration current ≡ some i
    → i.status ≡ some IterationStatus.hunting_for_bug
    → i.bug_reproduction_description ≡ none
    → i.bug_hunting_cycles ≡ some (c ∷ cs)
    → c.human_readable_instructions ≡ none
    → has_logs (last? (c ∷ cs)) ≡ true
    → current_task current ≡ some task
    → can_load is_json task.test_instructions ≡ true
    → LastUnfinished i next
    → hunt_bug is_json a current next ≡ raise (key_error "human_readable_instructions")
unfolding check_logs generate_iteration_convo_so_far texts_of load_test_instructions
hunt_bug-uninstructed is_json a i c cs task current next at hunting undescribed cycles uninstructed
      logs worked readable l =
    hunt_bug-asked is_json a i current next at undescribed l
    ∙ rw (hunting, cycles, logs, uninstructed, load_test_instructions, worked, readable) refl
