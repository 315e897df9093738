-- ===== src/Tests/Scheduler.antt =====
-- The executor at small runs: the theorems of Xxl/Executor at concrete inputs.
use foundation_framework.Base.{
  ℕ, String, ◌≡◌, ◌≢◌, refl, true, false, none, some, List, [], ◌∷◌, arith, eq_iff,
}
use foundation_framework.Base.Dict
use foundation_framework.Base.Int.{pos}
use foundation_framework.Base.Decimal.{format_int}
use foundation_framework.Xxl.Dto.{RunReq, decoded, serial_execution, cover_early}
use foundation_framework.Xxl.Reply.{int64_to_str, return_call}
use foundation_framework.Xxl.Executor.{
  Executor, replied, done, new_executor, reg_task, run_task, kill_task, callback, callbacks, launch,
  launch_after, begin, finish,
}
use foundation_framework.Xxl.Executor.Events.{
  Event, register, run, begins, ends, steps, step, begin_at, finish_at,
}
use foundation_framework.Xxl.Executor.Invariant.{IsWellFormed}
use foundation_framework.Xxl.Executor.Reachable.{reachable-IsWellFormed}
use foundation_framework.Xxl.Executor.Scheduling.{admits, run_task_refuses}
use foundation_framework.Xxl.Executor.Accepted.{Accepted, run_task_accepts}
use foundation_framework.Xxl.Executor.Sharing.{run_task-callback, shared_task_callback}
use foundation_framework.Xxl.Executor.Kill.{IsKilled, kill_task-IsKilled}

-- A request for a job, at a handler, with a strategy.
abbrev request : ℕ → String → String → RunReq
request job handler strategy = record {
  job_id = pos job;
  executor_handler = handler;
  executor_params = "";
  executor_block_strategy = strategy;
  executor_timeout = pos 0;
  log_id = pos 7;
  log_date_time = pos 0;
  glue_type = "BEAN";
  glue_source = "";
  glue_updatetime = pos 0;
  broadcast_index = pos 0;
  broadcast_total = pos 1;
}

-- One handler is registered.
abbrev registered : List Event
registered = register "report" 1 ∷ []

abbrev ready : Executor
ready = steps registered new_executor

-- Job 1 runs at it.
abbrev started : List Event
started = register "report" 1 ∷ run (decoded (request 1 "report" serial_execution)) [] ∷ []

abbrev busy : Executor
busy = steps started new_executor

reachable-IsWellFormed_example : IsWellFormed (steps started new_executor)
reachable-IsWellFormed_example = reachable-IsWellFormed started

run_task_accepts_example :
    Accepted
      (request 1 "report" serial_execution)
      ready
      (run_task (decoded (request 1 "report" serial_execution)) [] ready)
unfolding steps step new_executor reg_task Dict.get Dict.put Dict.remove
run_task_accepts_example =
    run_task_accepts (request 1 "report" serial_execution) [] ready
      (reachable-IsWellFormed registered) refl

run_task_refuses_example :
    ((run_task (decoded (request 1 "report" serial_execution)) [] busy).0 ≡ busy)
    × ((run_task (decoded (request 1 "report" serial_execution)) [] busy).1
        ≡ replied
            (return_call (request 1 "report" serial_execution) (pos 500) "There are tasks running"))
unfolding steps step new_executor reg_task run_task callbacks launch_after launch Dict.get Dict.put
    Dict.remove int64_to_str format_int
run_task_refuses_example = run_task_refuses (request 1 "report" serial_execution) [] busy refl

run_task-callback_example :
    (a : ℕ) × (Dict.get ready.reg_list "report" ≡ some a)
    × (admits (request 1 "report" serial_execution) (
          callback a
            (pos 200)
            "done"
            (run_task (decoded (request 1 "report" serial_execution)) [] ready).0)
        ≡ true)
    × ((k : String)
        → k ≢ int64_to_str (pos 1)
        → Dict.get
            (callback a
              (pos 200)
              "done"
              (run_task (decoded (request 1 "report" serial_execution)) [] ready).0).run_list
            k
          ≡ Dict.get
              (run_task (decoded (request 1 "report" serial_execution)) [] ready).0.run_list
              k)
unfolding steps step new_executor reg_task run_task callbacks launch_after launch Dict.get Dict.put
    Dict.remove int64_to_str format_int
run_task-callback_example =
    run_task-callback (request 1 "report" serial_execution) [] ready (pos 200) "done"
      (reachable-IsWellFormed registered) refl

-- Job 2 has the handler of job 1: the end of the first run frees job 2 and blocks job 1.
shared_task_callback_example :
    let e' =
      callback 0
        (pos 200)
        "done"
        (run_task (decoded (request 2 "report" serial_execution)) [] busy).0 in
    (Dict.get e'.run_list (int64_to_str (pos 2)) ≡ none)
    × (Dict.get e'.run_list (int64_to_str (pos 1)) ≡ some 0)
    × (admits (request 1 "report" serial_execution) e' ≡ false)
unfolding steps step new_executor reg_task run_task callbacks launch_after launch Dict.get Dict.put
    Dict.remove int64_to_str format_int
shared_task_callback_example =
    shared_task_callback (request 1 "report" serial_execution) (request 2 "report" serial_execution)
      busy 0 (pos 200) "done" (reachable-IsWellFormed started) refl refl refl refl
      (λ s. ground (arith, eq_iff serial_execution cover_early))

kill_task-IsKilled_example :
    IsKilled (int64_to_str (pos 1)) busy (kill_task (decoded (record { job_id = pos 1 })) [] busy)
kill_task-IsKilled_example =
    kill_task-IsKilled (record { job_id = pos 1 }) busy (reachable-IsWellFormed started)

-- A run from its request to its end: the job is listed meanwhile, and one result is posted.
abbrev one_run : List Event
one_run =
    register "report" 1
    ∷ run (decoded (request 1 "report" serial_execution)) []
    ∷ begins 0
    ∷ ends 0 done
    ∷ []

one_run_frees : Dict.get (steps one_run new_executor).run_list "1" ≡ none
unfolding steps step new_executor reg_task run_task callbacks launch_after launch Dict.get Dict.put
    Dict.remove int64_to_str format_int callback finish begin_at finish_at begin
one_run_frees = refl
