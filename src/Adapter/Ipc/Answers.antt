-- ===== src/Adapter/Ipc/Answers.antt =====
-- Each task that calls the adapter gets the answer to its own call.
use bkc_chooser.Base.{ℕ, Option, some, ◌≡◌}
use bkc_chooser.Adapter.Ipc.{Api, Tasks, returned, answer_to, Reachable}
use bkc_chooser.Adapter.Ipc.Kept.{Kept-Reachable}

module _ {C O A R : Type 0} (api : Api C O A R) where
  -- In every state that tasks and lwIP's task can reach, in whatever order they run, a task that is
  -- behind a call has an answer, and not the value that memset left: the last message of the task
  -- that lwIP's task served was that of this call, and its answer is what the task has, although
  -- all tasks share one semaphore for the answers.
  pub gets_own_answer :
      (a : A) (s : Tasks C A R) (j : ℕ) (f : C) (v : Option R)
      → Reachable api a s
      → s.phase j ≡ returned f v
      → (r : R) × (v ≡ some r) × (answer_to j s.answers ≡ some (f, r))
  gets_own_answer a s j f v h e = (Kept-Reachable api a s h).got j f v e
