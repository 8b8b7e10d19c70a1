-- ===== src/ProjectState/Iterations.antt =====
-- Changes that the agents make through `current_iteration` of core/db/models/project_state.py.
use gpt_pilot.Prelude.{Option, none, some, is_empty, update_first, if◌then◌else◌, some}
use gpt_pilot.Result.{Result, ok, raise, type_error}
use gpt_pilot.Records.{Iteration, IterationStatus, Task}
use gpt_pilot.Records.Work.{is_unfinished_iteration, is_unfinished_task}
use gpt_pilot.ProjectState.{
  ProjectState, unfinished_iterations, current_iteration, unfinished_tasks,
}

-- `self.next_state.current_iteration[...] = ...`, where None cannot be subscripted.
unfoldable pub change_current_iteration :
    (Iteration → Iteration) → ProjectState → Result ProjectState
unfolding unfinished_iterations
change_current_iteration change s =
    if is_empty (unfinished_iterations s)
    then raise type_error
    else ok (record s { iterations = update_first is_unfinished_iteration change s.iterations })

unfoldable pub set_status : IterationStatus → ProjectState → Result ProjectState
set_status status = change_current_iteration (λ (i : Iteration). record i { status = some status })

-- `self.current_state.current_iteration[...]`, where an entry of it is read.
abbrev pub or_type_error : Option Iteration → Result Iteration
or_type_error none = raise type_error
or_type_error (some i) = ok i

abbrev pub iteration_of : ProjectState → Result Iteration
iteration_of s = or_type_error (current_iteration s)

-- `self.next_state.current_task[...] = ...`
unfoldable pub change_current_task : (Task → Task) → ProjectState → Result ProjectState
unfolding unfinished_tasks
change_current_task change s =
    if is_empty (unfinished_tasks s)
    then raise type_error
    else ok (record s { tasks = update_first is_unfinished_task change s.tasks })
