-- ===== src/Xxl/Executor/Sharing.antt =====
-- Callbacks find their job by the id that the task's object holds at that time, and one object serves
-- every job of its handler.
use foundation_framework.Base.{
  eq_false, get_elem?-lt, eq_refl, ℕ, ◌<◌, String, ◌≡◌, ◌≢◌, sym, true, false, none, some, [],
  length, get_elem?, Option-cases, inl, inr, ◌=ˢ◌, if◌then◌else◌,
}
use foundation_framework.Base.Int.{ℤ}
use foundation_framework.Base.Dict
use foundation_framework.Base.Dict.{get-put, get-put_cases, get-remove}
use foundation_framework.Xxl.Dto.{decoded, cover_early, RunReq}
use foundation_framework.Xxl.Reply.{int64_to_str}
use foundation_framework.Xxl.Executor.{
  Executor, Task, Callbacks, callback_of, callback, callbacks, launch_task, launch, launch_after,
  run_task,
}
use foundation_framework.Xxl.Executor.Invariant.{IsWellFormed, Fewer-callback}
use foundation_framework.Xxl.Executor.Scheduling.{IsLaunch, launch-IsLaunch, admits}
use foundation_framework.Xxl.Executor.Accepted.{run_task_accepts}

-- A callback takes the entry under the task's present id off the run list, and no other.
get-callback :
    (a : ℕ) (code : ℤ) (msg : String) (t : Task) (e : Executor) (k : String)
    → get_elem? e.tasks a ≡ some t
    → Dict.get (callback a code msg e).run_list k
      ≡ (if int64_to_str t.id =ˢ k then none else Dict.get e.run_list k)
unfolding callback callback_of
get-callback a code msg t e k h = elim (Option-cases t.param) [
  | inl none_such ↦ rw (h, none_such) (get-remove e.run_list (int64_to_str t.id) k)
  | inr q ↦ rw (h, q.1) (get-remove e.run_list (int64_to_str t.id) k)
]

reg_list-callback :
    (a : ℕ) (code : ℤ) (msg : String) (e : Executor) → (callback a code msg e).reg_list ≡ e.reg_list
reg_list-callback a code msg e = (Fewer-callback a code msg e).reg_list

-- The life of a job: after its request has been accepted and before its handler's task is launched
-- again, the callback of the run frees the job, so that a request for it is admitted whatever its
-- strategy, and leaves the other jobs on the run list as they were.
pub run_task-callback :
    (p : RunReq) (between : Callbacks) (e : Executor) (code : ℤ) (msg : String)
    → IsWellFormed e
    → admits p e ≡ true
    → (a : ℕ) × (Dict.get e.reg_list p.executor_handler ≡ some a)
      × (admits p (callback a code msg (run_task (decoded p) between e).0) ≡ true)
      × ((k : String)
          → k ≢ int64_to_str p.job_id
          → Dict.get (callback a code msg (run_task (decoded p) between e).0).run_list k
            ≡ Dict.get (run_task (decoded p) between e).0.run_list k)
run_task-callback p between e code msg w h =
    let (ok, (a, reg, l)) = run_task_accepts p between e w h in
    let e' = (run_task (decoded p) between e).0 in
    let (t, at_a, id, _, _, _) = l.task in
    let key = int64_to_str p.job_id in
    let gone = get-callback a code msg t e' key at_a in
    let regs = reg_list-callback a code msg e' in
    (
      a,
      reg,
      rw (regs, l.reg_list, reg, gone, id, eq_refl key),
      λ k ne. rw (get-callback a code msg t e' k at_a, id, eq_false key k (λ q. ne (sym q))),
    )

module _ (q : RunReq) (e : Executor) (a : ℕ) (reg : Dict.get e.reg_list q.executor_handler ≡ some a)
    (free : Dict.get e.run_list (int64_to_str q.job_id) ≡ none) where
  -- A job that is not listed is launched at once.
  run_task-free : run_task (decoded q) [] e ≡ launch q (some a) e
  unfolding run_task callbacks launch_after
  run_task-free = rw (reg, free)

  run_list-run_task :
      a < length e.tasks
      → (run_task (decoded q) [] e).0.run_list ≡ Dict.put e.run_list (int64_to_str q.job_id) a
  unfolding launch launch_task
  run_list-run_task h = let (t, found) = get_elem?-lt e.tasks a h in rw (run_task-free, found)

  run_task-IsLaunch : a < length e.tasks → IsLaunch q a e (run_task (decoded q) [] e).0
  run_task-IsLaunch h = rw run_task-free (launch-IsLaunch q a e h).0

-- Two jobs with one handler share its task object. While the first job is listed, a request for
-- the second one, which is not, is accepted and overwrites the object's id; the callback of
-- the first job's run then frees the second job, and leaves the first one listed, although
-- its run is over: it is refused from then on unless it covers.
pub shared_task_callback :
    (p q : RunReq) (e : Executor) (a : ℕ) (code : ℤ) (msg : String)
    → IsWellFormed e
    → Dict.get e.reg_list q.executor_handler ≡ some a
    → Dict.get e.run_list (int64_to_str p.job_id) ≡ some a
    → Dict.get e.run_list (int64_to_str q.job_id) ≡ none
    → p.executor_handler ≡ q.executor_handler
    → p.executor_block_strategy ≢ cover_early
    → let e' = callback a code msg (run_task (decoded q) [] e).0 in
      (Dict.get e'.run_list (int64_to_str q.job_id) ≡ none)
      × (Dict.get e'.run_list (int64_to_str p.job_id) ≡ some a)
      × (admits p e' ≡ false)
shared_task_callback p q e a code msg w reg listed free same strategy =
    let h = w.registered q.executor_handler a reg in
    let kp = int64_to_str p.job_id in
    let kq = int64_to_str q.job_id in
    let e' = (run_task (decoded q) [] e).0 in
    let l = run_task-IsLaunch q e a reg free h in
    let (t, at_a, id, _, _, _) = l.task in
    let other = eq_false kq kp (λ (s : kq ≡ kp). cc (s, listed, free)) in
    let still : Dict.get (callback a code msg e').run_list kp ≡ some a =
      rw (get-callback a code msg t e' kp at_a, id, other)
        (rw (run_list-run_task q e a reg free h, get-put, other) listed) in
    (
      rw (get-callback a code msg t e' kq at_a, id, eq_refl kq),
      still,
      rw (reg_list-callback a code msg e', l.reg_list, same, reg, still, eq_false _ _ strategy),
    )
