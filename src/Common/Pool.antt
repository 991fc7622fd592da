-- ===== src/Common/Pool.antt =====
-- src/common/thread_pool.h: each method is one step under the mutex, and `worker` is a round of
-- `worker_loop` up to the call of the task.
use rtstream.Prelude.{
  ◌≡◌, refl, ap, ◌∙◌, sym, Bool, true, false, List, [], ◌∷◌, ◌++◌, append_assoc, append-nil,
  if◌then◌else◌,
}

-- A task is of any type.
pub record ThreadPool {ℓ} (A : Type ℓ) : Type ℓ where
  pub tasks : List A
  pub stopped : Bool

-- What a worker does next; `waits` is the wait on the condition variable.
pub data Round {ℓ} (A : Type ℓ) : Type ℓ where
  runs : A → ThreadPool A → Round A
  waits ends : Round A

-- A call from outside, or a round of a worker.
pub data Event {ℓ} (A : Type ℓ) : Type ℓ where
  submits : A → Event A
  works shuts_down : Event A

module _ {ℓ} {A : Type ℓ} where
  unfoldable pub submit : A → ThreadPool A → ThreadPool A
  submit task p = if p.stopped then p else record p { tasks = p.tasks ++ task ∷ [] }

  unfoldable pub shutdown : ThreadPool A → ThreadPool A
  shutdown p = if p.stopped then p else record p { stopped = true }

  unfoldable pub worker : List A → Bool → Round A
  worker [] true = ends
  worker [] false = waits
  worker (task ∷ tasks) stopped = runs task (record { tasks = tasks; stopped = stopped })

  -- The tasks that workers ran, in the order in which they took them, and the pool at the end.
  unfoldable pub run : List (Event A) → ThreadPool A → List A × ThreadPool A
  unfolding submit shutdown worker
  run [] p = ([], p)
  run (submits task ∷ es) p = run es (submit task p)
  run (shuts_down ∷ es) p = run es (shutdown p)
  run (works ∷ es) p = elim (worker p.tasks p.stopped) [
    | runs task p' ↦ let (done, end) = run es p' in (task ∷ done, end)
    | waits ↦ run es p
    | ends ↦ run es p
  ]

  -- The tasks that were submitted before the shutdown.
  unfoldable pub accepted : List (Event A) → Bool → List A
  accepted [] stopped = []
  accepted (submits task ∷ es) stopped =
      let rest = accepted es stopped in if stopped then rest else task ∷ rest
  accepted (works ∷ es) stopped = accepted es stopped
  accepted (shuts_down ∷ es) stopped = accepted es true

  -- Whatever the workers and the callers do, and in whatever order: the tasks that were run, and then those
  -- that wait, are those that waited at first and then those accepted, each once and in
  -- order; nothing submitted after a shutdown is run, and a shutdown loses nothing.
  pub run-accepted :
      (es : List (Event A)) (tasks : List A) (stopped : Bool)
      → (run es (record { tasks = tasks; stopped = stopped })).0
          ++ (run es (record { tasks = tasks; stopped = stopped })).1.tasks
        ≡ tasks ++ accepted es stopped
  unfolding run accepted
  run-accepted [] tasks stopped = sym (append-nil tasks)
  run-accepted (submits task ∷ es) tasks true = run-accepted es tasks true
  run-accepted (submits task ∷ es) tasks false =
      run-accepted es (tasks ++ task ∷ []) false
      ∙ append_assoc tasks (task ∷ []) (accepted es false)
  run-accepted (shuts_down ∷ es) tasks true = run-accepted es tasks true
  run-accepted (shuts_down ∷ es) tasks false = run-accepted es tasks true
  run-accepted (works ∷ es) [] true = run-accepted es [] true
  run-accepted (works ∷ es) [] false = run-accepted es [] false
  run-accepted (works ∷ es) (task ∷ tasks) stopped =
      ap (λ rest. task ∷ rest) (run-accepted es tasks stopped)

  -- A worker ends only after a shutdown, when no task waits.
  pub worker-ends :
      (tasks : List A) (stopped : Bool)
      → worker tasks stopped ≡ ends
      → (tasks ≡ []) × (stopped ≡ true)
  unfolding worker
  worker-ends [] true e = (refl, refl)
  worker-ends [] false e = cc
  worker-ends (task ∷ tasks) stopped e = cc
