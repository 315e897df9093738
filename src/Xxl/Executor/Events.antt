-- ===== src/Xxl/Executor/Events.antt =====
-- What happens to an executor, one event after another: the calls of its methods, a goroutine that
-- begins to run its task, and a task's function that ends. The scheduler of the Go runtime may
-- choose any order.
use foundation_framework.Base.{
  ℕ, String, Option, none, some, List, [], ◌∷◌, ◌++◌, get_elem?, remove_at,
}
use foundation_framework.Xxl.Dto.{Body, RunReq, KillReq, IdleBeatReq}
use foundation_framework.Xxl.Executor.{
  Executor, Task, Running, Callbacks, TaskResult, set_log, reg_task, run_task, kill_task, idle_beat,
  begin, finish,
}

pub data Event : Type 0 where
  log : ℕ → Event
  register : String → ℕ → Event
  run : Body RunReq → Callbacks → Event
  kill : Body KillReq → Callbacks → Event
  idle : Body IdleBeatReq → Event
  begins : ℕ → Event
  ends : ℕ → TaskResult → Event

-- The goroutine at an index of `spawned` reads its task and enters the task's function.
unfoldable pub begin_task : ℕ → ℕ → Option Task → Executor → Executor
begin_task i a none e = e
begin_task i a (some t) e = record e {
  spawned = remove_at i e.spawned;
  running = e.running ++ begin a t ∷ [];
}

unfoldable pub begin_at : ℕ → Option ℕ → Executor → Executor
unfolding begin_task
begin_at i none e = e
begin_at i (some a) e = begin_task i a (get_elem? e.tasks a) e

unfoldable pub finish_at : ℕ → Option Running → TaskResult → Executor → Executor
finish_at i none r e = e
finish_at i (some g) r e = let e' = finish g r e in record e' { running = remove_at i e'.running }

unfoldable pub step : Event → Executor → Executor
step (log l) e = set_log l e
step (register pattern fn) e = reg_task pattern fn e
step (run body between) e = (run_task body between e).0
step (kill body between) e = (kill_task body between e).0
step (idle body) e = (idle_beat body e).0
step (begins i) e = begin_at i (get_elem? e.spawned i) e
step (ends i r) e = finish_at i (get_elem? e.running i) r e

unfoldable pub steps : List Event → Executor → Executor
steps [] e = e
steps (ev ∷ evs) e = steps evs (step ev e)
