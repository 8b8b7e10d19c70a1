-- ===== src/Scheduler.antt =====
-- core/llm/ollama_scheduler.py: the jobs of the Ollama models, their workers and the semaphores. The
-- coroutines interleave at their awaits: `advance` takes one worker to its next await, or is `none`
-- while the worker has to wait, and a run is a list of such steps in any order. That is more than
-- `asyncio` allows, where taking a unit that is free does not yield to another worker.
pub mod Resources
use gpt_pilot.Prelude.{
  ℕ, zero, suc, ◌+◌, ◌-◌, String, Bool, true, false, not, ◌&&◌, ◌||◌, Option, none, some, List, [],
  ◌∷◌, ◌++◌, ◌==◌, nat_eq, string_eq, contains, ltb, if◌then◌else◌,
}
use gpt_pilot.Result.{Result, ok, raise, value_error}

-- `id` stands for the identity of the job and its future.
pub record OllamaJob : Type 0 where
  pub id : ℕ
  pub priority : ℕ
  pub prompt : String
  pub cpu_threads : ℕ
  pub gpu_mem_mb : ℕ

-- Where a worker stands: before it takes a job, before and in the CPU phase, while it acquires GPU
-- memory with so many units taken, in the GPU phase, and after the queue was empty.
pub data Worker : Type 0 where
  idle exited : Worker
  cpu_waiting in_cpu in_gpu : OllamaJob → Worker
  gpu_waiting : OllamaJob → ℕ → Worker

pub record OllamaScheduler : Type 0 where
  pub total_cpu_threads : ℕ
  pub total_gpu_mem : ℕ
  pub cpu_free : ℕ
  pub gpu_mem_free : ℕ
  pub queue : List OllamaJob
  pub workers : List Worker
  pub completed : List OllamaJob
  pub cancelled : List ℕ
  pub gpu_active : ℕ
  pub max_gpu_concurrency : ℕ

unfoldable pub new_scheduler : ℕ → ℕ → OllamaScheduler
new_scheduler total_cpu_threads total_gpu_mem = record {
  total_cpu_threads = total_cpu_threads;
  total_gpu_mem = total_gpu_mem;
  cpu_free = total_cpu_threads;
  gpu_mem_free = total_gpu_mem;
  queue = [];
  workers = [];
  completed = [];
  cancelled = [];
  gpu_active = 0;
  max_gpu_concurrency = 0;
}

-- The queue gives the job of the least priority first.
unfoldable pub put : OllamaJob → List OllamaJob → List OllamaJob
put job [] = job ∷ []
put job (j ∷ queue) =
    let rest = put job queue in if ltb job.priority j.priority then job ∷ j ∷ queue else j ∷ rest

-- `submit` up to its await. Numbers are not negative here.
unfoldable pub submit : OllamaJob → OllamaScheduler → Result OllamaScheduler
submit job s =
    if job.prompt == ""
    then raise (value_error "prompt must be a non-empty string")
    else if ltb s.total_cpu_threads job.cpu_threads || ltb s.total_gpu_mem job.gpu_mem_mb
    then raise (value_error "Requested resources exceed scheduler limits")
    else ok (record s { queue = put job s.queue; workers = s.workers ++ idle ∷ [] })

-- The caller of `submit` is cancelled.
unfoldable pub cancel : ℕ → OllamaScheduler → OllamaScheduler
cancel id s = record s { cancelled = id ∷ s.cancelled }

abbrev pub max : ℕ → ℕ → ℕ
max a b = if ltb a b then b else a

-- One step of a worker. Units of GPU memory are taken one by one, and all are given back at once.
unfoldable pub step : Worker → OllamaScheduler → Option (Worker × OllamaScheduler)
step idle s = elim s.queue [
  | [] ↦ some (exited, s)
  | job ∷ queue ↦ some (cpu_waiting job, record s { queue = queue })
]
step exited s = none
step (cpu_waiting job) s =
    if ltb 0 s.cpu_free then some (in_cpu job, record s { cpu_free = s.cpu_free - 1 }) else none
step (in_cpu job) s =
    let after = if contains s.cancelled job.id then idle else gpu_waiting job 0 in
    some (after, record s { cpu_free = s.cpu_free + 1 })
step (gpu_waiting job taken) s =
    if ltb taken job.gpu_mem_mb
    then if ltb 0 s.gpu_mem_free
      then some (gpu_waiting job (taken + 1), record s { gpu_mem_free = s.gpu_mem_free - 1 })
      else none
    else some (
      in_gpu job,
      record s {
        gpu_active = s.gpu_active + 1;
        max_gpu_concurrency = max s.max_gpu_concurrency (s.gpu_active + 1);
      },
    )
step (in_gpu job) s = some (
  idle,
  record s {
    completed = if contains s.cancelled job.id then s.completed else s.completed ++ job ∷ [];
    gpu_active = s.gpu_active - 1;
    gpu_mem_free = s.gpu_mem_free + job.gpu_mem_mb;
  },
)

abbrev pub worker_at : ℕ → List Worker → Option Worker
worker_at n [] = none
worker_at zero (w ∷ workers) = some w
worker_at (suc n) (w ∷ workers) = worker_at n workers

abbrev pub set_worker : ℕ → Worker → List Worker → List Worker
set_worker n w [] = []
set_worker zero w (v ∷ workers) = w ∷ workers
set_worker (suc n) w (v ∷ workers) = v ∷ set_worker n w workers

-- A step of the worker with the index.
unfoldable pub advance : ℕ → OllamaScheduler → Option OllamaScheduler
advance n s = elim (worker_at n s.workers) [
  | none ↦ none
  | some w ↦ elim (step w s) [
    | none ↦ none
    | some (w', s') ↦ some (record s' { workers = set_worker n w' s'.workers })
  ]
]
