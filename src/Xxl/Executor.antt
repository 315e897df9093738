-- ===== src/Xxl/Executor.antt =====
-- xxl/executor.go and xxl/task.go. Tasks are objects on a heap: `reg_list` and `run_list` hold
-- addresses into `tasks`, and a goroutine holds the address of its task, so a write by one request
-- is seen by all. A context is a number into `contexts`; `cancel` is the context it cancels.
pub mod Events
pub mod Heap
pub mod Invariant
pub mod Requests
pub mod Reachable
pub mod Scheduling
pub mod Accepted
pub mod Sharing
pub mod Kill
use foundation_framework.Base.{
  ℕ, zero, suc, String, Bool, true, false, Option, none, some, List, [], ◌∷◌, ◌++◌, length,
  get_elem?, set, if◌then◌else◌, ◌=ˢ◌,
}
use foundation_framework.Base.Int.{ℤ, pos, ltb_ℤ}
use foundation_framework.Err.{◌<>◌}
use foundation_framework.Xxl.Dto.{
  Body, decoded, refused, null, RunReq, KillReq, IdleBeatReq, cover_early,
}
use foundation_framework.Xxl.Reply.{
  Reply, return_call, return_kill, return_idle_beat, return_general, int64_to_str,
}
use foundation_framework.Xxl.TaskList
use foundation_framework.Xxl.TaskList.{TaskList}

pub record Context : Type 0 where
  pub timeout : Option ℤ
  pub cancelled : Bool

-- `fn` and `log` are numbers for the registered function and the log object.
pub record Task : Type 0 where
  pub id : ℤ
  pub name : String
  pub ext : Option ℕ
  pub param : Option RunReq
  pub fn : ℕ
  pub cancel : Option ℕ
  pub log : Option ℕ

-- A goroutine in `t.fn(t.Ext, t.Param, t.log)`: its task's address and what it read of the task
-- when it began; the deferred function has captured `cancel`.
pub record Running : Type 0 where
  pub task : ℕ
  pub ext : Option ℕ
  pub param : Option RunReq
  pub fn : ℕ
  pub log : Option ℕ
  pub cancel : Option ℕ

-- `spawned` are the goroutines that have not begun to run, `running` those in the task's function,
-- `posted` what was sent to `/api/callback`.
pub record Executor : Type 0 where
  pub tasks : List Task
  pub contexts : List Context
  pub reg_list : TaskList
  pub run_list : TaskList
  pub log : Option ℕ
  pub spawned : List ℕ
  pub running : List Running
  pub posted : List Reply

-- How a request ends: with a body written, or by a nil dereference, which `net/http` recovers and
-- the deferred `Unlock` survives.
pub data Outcome : Type 0 where
  replied : Reply → Outcome
  panicked : Outcome

-- `newExecutor`, without its two background goroutines.
unfoldable pub new_executor : Executor
new_executor = record {
  tasks = [];
  contexts = [];
  reg_list = [];
  run_list = [];
  log = none;
  spawned = [];
  running = [];
  posted = [];
}

-- `Log`
unfoldable pub set_log : ℕ → Executor → Executor
set_log l e = record e { log = some l }

-- `RegTask`
unfoldable pub reg_task : String → ℕ → Executor → Executor
reg_task pattern fn e = record e {
  tasks =
      e.tasks
      ++ record {
        id = pos 0;
        name = "";
        ext = none;
        param = none;
        fn = fn;
        cancel = none;
        log = none;
      }
        ∷ [];
  reg_list = TaskList.set pattern (length e.tasks) e.reg_list;
}

-- `callback(task, code, msg)`: the key is made of the task's id at this time. A nil `Param` would
-- panic in `returnCall`, after the removal.
callback_of : ℤ → String → Option Task → Executor → Executor
callback_of code msg none e = e
callback_of code msg (some t) e =
    let e' = record e { run_list = TaskList.del (int64_to_str t.id) e.run_list } in
    elim t.param [
      | none ↦ e'
      | some p ↦ record e' { posted = e.posted ++ return_call p code msg ∷ [] }
    ]

unfoldable pub callback : ℕ → ℤ → String → Executor → Executor
unfolding callback_of
callback task code msg e = callback_of code msg (get_elem? e.tasks task) e

-- Callbacks of other goroutines that come between two steps of a request: task, code, message.
abbrev pub Callbacks : Type 0
Callbacks = List (ℕ × ℤ × String)

unfoldable pub callbacks : Callbacks → Executor → Executor
callbacks [] e = e
callbacks ((task, code, msg) ∷ cs) e = callbacks cs (callback task code msg e)

-- A call of a `CancelFunc`; `none` is the call of a nil function.
unfoldable pub cancel_context : List Context → ℕ → List Context
cancel_context [] i = []
cancel_context (c ∷ cs) zero = record c { cancelled = true } ∷ cs
cancel_context (c ∷ cs) (suc i) = c ∷ cancel_context cs i

unfoldable pub call_cancel : Option ℕ → Executor → Option Executor
unfolding cancel_context
call_cancel none e = none
call_cancel (some c) e = some (record e { contexts = cancel_context e.contexts c })

-- `e.runList.Del(key)` after a `Cancel()` that did not panic.
unfoldable pub drop_entry : String → Option Executor → Option Executor
drop_entry key none = none
drop_entry key (some e) = some (record e { run_list = TaskList.del key e.run_list })

-- The branch of `coverEarly`: the old task is cancelled, and the entry under its id removed.
cover_task : Option Task → Executor → Option Executor
cover_task none e = none
cover_task (some old) e = drop_entry (int64_to_str old.id) (call_cancel old.cancel e)

unfoldable pub cover : Option ℕ → Executor → Option Executor
unfolding cover_task drop_entry
cover none e = some e
cover (some a) e = cover_task (get_elem? e.tasks a) e

new_context : ℤ → Context
new_context timeout = record {
  timeout = if ltb_ℤ (pos 0) timeout then some timeout else none;
  cancelled = false;
}

-- `if task.log == nil { task.log = e.log }`
or_log : Option ℕ → Option ℕ → Option ℕ
or_log none l = l
or_log (some l) _ = some l

-- The writes of `runTask` to the task's object; `c` is the context it has made.
unfoldable pub launched_task : RunReq → ℕ → Option ℕ → Task → Task
unfolding or_log
launched_task p c log t = record t {
  id = p.job_id;
  name = p.executor_handler;
  ext = some c;
  param = some p;
  cancel = some c;
  log = or_log t.log log;
}

-- The end of `runTask`, from `e.regList.Get` on, at the address of the registered task.
launch_task : RunReq → ℕ → Option Task → Executor → Executor × Outcome
launch_task p a none e = (e, panicked)
launch_task p a (some t) e = (
  record e {
    tasks = set e.tasks a (launched_task p (length e.contexts) e.log t);
    contexts = e.contexts ++ new_context p.executor_timeout ∷ [];
    run_list = TaskList.set (int64_to_str p.job_id) a e.run_list;
    spawned = e.spawned ++ a ∷ [];
  },
  replied return_general,
)

unfoldable pub launch : RunReq → Option ℕ → Executor → Executor × Outcome
unfolding launch_task new_context launched_task
launch p none e = (e, panicked)
launch p (some a) e = launch_task p a (get_elem? e.tasks a) e

-- `launch` after the branch of `coverEarly`.
unfoldable pub launch_after : RunReq → Executor → Option Executor → Executor × Outcome
launch_after p e none = (e, panicked)
launch_after p e (some e') = launch p (TaskList.get p.executor_handler e'.reg_list) e'

-- `runTask`; `between` are the callbacks that run after the test of `e.runList.Exists`.
unfoldable pub run_task : Body RunReq → Callbacks → Executor → Executor × Outcome
run_task null between e = (e, panicked)
run_task (refused p) between e = (e, replied (return_call p (pos 500) "params err"))
run_task (decoded p) between e =
    let key = int64_to_str p.job_id in
    let e' = callbacks between e in
    if TaskList.exists p.executor_handler e.reg_list
    then (if TaskList.exists key e.run_list
        then (if p.executor_block_strategy =ˢ cover_early
            then launch_after p e' (cover (TaskList.get key e'.run_list) e')
            else (e', replied (return_call p (pos 500) "There are tasks running")))
        else launch_after p e' (some e'))
    else (e, replied (return_call p (pos 500) "Task not registered"))

-- The answer of `killTask` after `task.Cancel()` and `e.runList.Del`.
kill_reply : Executor → Option Executor → Executor × Outcome
kill_reply e none = (e, panicked)
kill_reply e (some e') = (e', replied return_general)

-- The end of `killTask`, on the task that `e.runList.Get` found.
kill_found : String → Option Task → Executor → Executor × Outcome
kill_found key none e = (e, panicked)
kill_found key (some t) e = kill_reply e (drop_entry key (call_cancel t.cancel e))

kill_get : String → Option ℕ → Executor → Executor × Outcome
kill_get key none e = (e, panicked)
kill_get key (some a) e = kill_found key (get_elem? e.tasks a) e

-- `killTask`: an error of the decoding is ignored.
kill_job : KillReq → Callbacks → Executor → Executor × Outcome
unfolding kill_get kill_found kill_reply drop_entry
kill_job p between e =
    let key = int64_to_str p.job_id in
    let e' = callbacks between e in
    if TaskList.exists key e.run_list
    then kill_get key (TaskList.get key e'.run_list) e'
    else (e', replied (return_kill (pos 500)))

unfoldable pub kill_task : Body KillReq → Callbacks → Executor → Executor × Outcome
unfolding kill_job
kill_task null between e = (e, panicked)
kill_task (refused p) between e = kill_job p between e
kill_task (decoded p) between e = kill_job p between e

unfoldable pub beat : Executor → Executor × Outcome
beat e = (e, replied return_general)

unfoldable pub idle_beat : Body IdleBeatReq → Executor → Executor × Outcome
idle_beat null e = (e, panicked)
idle_beat (refused p) e = (e, replied (return_idle_beat (pos 500)))
idle_beat (decoded p) e = (
  e,
  if TaskList.exists (int64_to_str p.job_id) e.run_list
      then replied (return_idle_beat (pos 500))
      else replied return_general,
)

-- How the task's function ends: nil, an error with its text, a panic with the value's text.
pub data TaskResult : Type 0 where
  done : TaskResult
  failed panic : String → TaskResult

-- `Task.Run` up to the call of `t.fn`.
unfoldable pub begin : ℕ → Task → Running
begin a t = record {
  task = a;
  ext = t.ext;
  param = t.param;
  fn = t.fn;
  log = t.log;
  cancel = t.cancel;
}

-- A nil `cancel` would end the process; a task that runs has one.
or_else : Executor → Option Executor → Executor
or_else e none = e
or_else e (some e') = e'

-- `Task.Run` from the end of `t.fn` on; only a panic cancels the context.
unfoldable pub finish : Running → TaskResult → Executor → Executor
unfolding or_else
finish r done e = callback r.task (pos 200) "执行成功" e
finish r (failed text) e = callback r.task (pos 500) text e
finish r (panic text) e =
    let e' = callback r.task (pos 500) ("task panic:" <> text) e in
    or_else e' (call_cancel r.cancel e')
