-- ===== src/StateManager/Knowledge/Utilities.antt =====
-- `update_utility_functions` of core/state/state_manager.py: an entry for each function of a file.
use gpt_pilot.Prelude.{
  ◌≡◌, refl, true, false, List, [], ◌∷◌, ◌++◌, any, update_first, string_eq, Bool-cases, arith, inl,
  inr,
}
use gpt_pilot.Records.{UtilityFunction}
use gpt_pilot.ProjectState.{ProjectState}
use gpt_pilot.StateManager.Knowledge.{
  same_function, put_function, functions_or_none, update_utility_functions,
}

abbrev set_values : UtilityFunction → UtilityFunction → UtilityFunction
set_values f g = record g {
  return_value = f.return_value;
  input_value = f.input_value;
  status = f.status;
}

update_first_twice :
    (f : UtilityFunction) (gs : List UtilityFunction)
    → update_first
        (same_function f)
        (set_values f)
        (update_first (same_function f) (set_values f) gs)
      ≡ update_first (same_function f) (set_values f) gs
unfolding update_first same_function
update_first_twice f [] = refl
update_first_twice f (g ∷ gs) = ground (arith, update_first_twice f gs)

any-update_first :
    (f : UtilityFunction) (gs : List UtilityFunction)
    → any (same_function f) (update_first (same_function f) (set_values f) gs)
      ≡ any (same_function f) gs
unfolding update_first any same_function
any-update_first f [] = refl
any-update_first f (g ∷ gs) = ground (arith, any-update_first f gs)

update_first-append :
    (f : UtilityFunction) (gs : List UtilityFunction)
    → any (same_function f) gs ≡ false
    → update_first (same_function f) (set_values f) (gs ++ f ∷ []) ≡ gs ++ f ∷ []
unfolding update_first any same_function
update_first-append f [] new = ground arith
update_first-append f (g ∷ gs) new = ground (arith, new, update_first-append f gs)

any-append_self :
    (f : UtilityFunction) (gs : List UtilityFunction) → any (same_function f) (gs ++ f ∷ []) ≡ true
unfolding any same_function
any-append_self f [] = ground arith
any-append_self f (g ∷ gs) = ground (arith, any-append_self f gs)

put_function_twice :
    (f : UtilityFunction) (gs : List UtilityFunction)
    → put_function f (put_function f gs) ≡ put_function f gs
unfolding put_function
put_function_twice f gs = elim (Bool-cases (any (same_function f) gs)) [
  | inl known ↦ rw (put_function, known, any-update_first f gs, known, update_first_twice f gs) refl
  | inr new ↦ rw (put_function, new, any-append_self f gs, update_first-append f gs new) refl
]

-- An update of a utility function that is made again changes nothing.
pub update_utility_functions_twice :
    (f : UtilityFunction) (next : ProjectState)
    → update_utility_functions f (update_utility_functions f next) ≡ update_utility_functions f next
unfolding update_utility_functions
update_utility_functions_twice f next =
    rw (put_function_twice f (functions_or_none next.knowledge_base.utility_functions)) refl
