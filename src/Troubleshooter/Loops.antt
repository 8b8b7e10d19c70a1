-- ===== src/Troubleshooter/Loops.antt =====
-- What `get_user_feedback` of core/agents/troubleshooter.py can return.
use gpt_pilot.Prelude.{String, ◌≡◌, true, false, some, List, [], ◌∷◌, arith, inl, inr, Option-cases}
use gpt_pilot.Troubleshooter.{Questions, Feedback, told, get_user_feedback}

told-is_loop : (q : Questions) (f : Feedback) → told q ≡ some f → f.is_loop ≡ false
unfolding told
told-is_loop q f h = ground arith

told-should_iterate :
    (q : Questions) (f : Feedback) (report : String)
    → told q ≡ some f
    → f.bug_report ≡ some report
    → f.should_iterate ≡ true
unfolding told
told-should_iterate q f report h bug = ground arith

last_round :
    (qs : List Questions) (f : Feedback)
    → get_user_feedback qs ≡ some f
    → (q : Questions) × (told q ≡ some f)
unfolding get_user_feedback
last_round [] f h = absurd (ground arith)
last_round (q ∷ qs) f h = elim (Option-cases (told q)) [
  | inl nothing ↦ last_round qs f (ground (arith, nothing, h))
  | inr (f', e) ↦ (q, ground (arith, e, h))
]

-- However the user answers, `get_user_feedback` never reports a loop.
pub get_user_feedback-is_loop :
    (qs : List Questions) (f : Feedback) → get_user_feedback qs ≡ some f → f.is_loop ≡ false
get_user_feedback-is_loop qs f h = let (q, e) = last_round qs f h in told-is_loop q f e

-- Feedback with the report of a bug asks for an iteration.
pub get_user_feedback-should_iterate :
    (qs : List Questions) (f : Feedback) (report : String)
    → get_user_feedback qs ≡ some f
    → f.bug_report ≡ some report
    → f.should_iterate ≡ true
get_user_feedback-should_iterate qs f report h bug =
    let (q, e) = last_round qs f h in told-should_iterate q f report e bug
