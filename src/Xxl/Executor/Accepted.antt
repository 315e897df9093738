-- ===== src/Xxl/Executor/Accepted.antt =====
-- The requests that `runTask` accepts.
use foundation_framework.Base.{
  is_some, ap, get_elem?-lt, ℕ, ◌<◌, ◌≡◌, ◌∙◌, true, Option, some, List, [], length, get_elem?,
  arith, get_elem?-append, Bool-cases, inl, inr, eq_iff, ◌=ˢ◌,
}
use foundation_framework.Base.Dict
use foundation_framework.Base.Dict.{get-put, get-put_cases, get-remove}
use foundation_framework.Xxl.Dto.{decoded, cover_early, RunReq}
use foundation_framework.Xxl.Reply.{int64_to_str, return_general}
use foundation_framework.Xxl.TaskList
use foundation_framework.Xxl.Executor.{
  Executor, Task, Context, Callbacks, Outcome, replied, callbacks, call_cancel, cover, launch_task,
  launch, launch_after, run_task, cancel_context,
}
use foundation_framework.Xxl.Executor.Heap.{length-cancel_context, cancel_context-cancelled}
use foundation_framework.Xxl.Executor.Invariant.{
  IsWellFormed, Fewer, Fewer-callbacks, Fewer-IsWellFormed,
}
use foundation_framework.Xxl.Executor.Scheduling.{
  IsLaunch, launch-IsLaunch, cover_total, admits, IsLaunch-of,
}

-- The end of a request on a well-formed executor: its handler is still registered, so a launch.
launch_after-IsLaunch :
    (p : RunReq) (a : ℕ) (e m : Executor)
    → Dict.get m.reg_list p.executor_handler ≡ some a
    → a < length m.tasks
    → IsLaunch p a m (launch_after p e (some m)).0
      × ((launch_after p e (some m)).1 ≡ replied return_general)
unfolding launch_after
launch_after-IsLaunch p a e m h k = rw h (launch-IsLaunch p a m k)

-- The answer and the effect of an accepted request.
abbrev pub Accepted : RunReq → Executor → Executor × Outcome → Type 0
Accepted p e r =
    (r.1 ≡ replied return_general)
    × ((a : ℕ) × (Dict.get e.reg_list p.executor_handler ≡ some a) × IsLaunch p a e r.0)

is_some-some : {o : Option ℕ} → is_some o ≡ true → (a : ℕ) × (o ≡ some a)
is_some-some h = ground arith

module _ (p : RunReq) (e m₀ : Executor) (w : IsWellFormed e)
    (found : TaskList.exists p.executor_handler e.reg_list ≡ true) where
  -- The executor after a cover, which keeps the heap and the registrations.
  launch_after-Accepted :
      (m : Executor)
      → m.tasks ≡ e.tasks
      → m.reg_list ≡ e.reg_list
      → m.spawned ≡ e.spawned
      → length m.contexts ≡ length e.contexts
      → Accepted p e (launch_after p m₀ (some m))
  launch_after-Accepted m ht hr hs hc =
      let (a, reg) = is_some-some found in
      let (l, ok) =
        launch_after-IsLaunch p a m₀ m (rw hr reg)
          (rw ht (w.registered p.executor_handler a reg)) in
      (ok, (a, reg, IsLaunch-of hc hs hr l))

  cover-Accepted :
      (f : Fewer e m₀)
      → Accepted p e
          (launch_after p m₀ (cover (TaskList.get (int64_to_str p.job_id) m₀.run_list) m₀))
  cover-Accepted f =
      let w₀ = Fewer-IsWellFormed f w in
      let (m, eq, c) =
        cover_total (TaskList.get (int64_to_str p.job_id) m₀.run_list) w₀
          (w₀.listed (int64_to_str p.job_id)) in
      rw eq (
        launch_after-Accepted m (c.tasks ∙ f.tasks) (c.reg_list ∙ f.reg_list)
          (c.spawned ∙ f.spawned) (c.contexts ∙ ap (λ (l : List Context). length l) f.contexts))

  same-Accepted : (f : Fewer e m₀) → Accepted p e (launch_after p m₀ (some m₀))
  same-Accepted f =
      launch_after-Accepted m₀ f.tasks f.reg_list f.spawned
        (ap (λ (l : List Context). length l) f.contexts)

-- A request that is admitted is answered by 200 whatever other goroutines' callbacks come between,
-- never by a panic, and is launched on its handler's task: the job is listed there, the task
-- carries the request and the cancel function of a fresh context, and a goroutine is spawned.
pub run_task_accepts :
    (p : RunReq) (between : Callbacks) (e : Executor)
    → IsWellFormed e
    → admits p e ≡ true
    → Accepted p e (run_task (decoded p) between e)
unfolding run_task
run_task_accepts p between e w h =
    let f = Fewer-callbacks between e in
    elim (Bool-cases (TaskList.exists p.executor_handler e.reg_list)) [
      | inr none_such ↦ absurd (ground arith)
      | inl found ↦ elim (Bool-cases (TaskList.exists (int64_to_str p.job_id) e.run_list)) [
        | inr free ↦ rw (found, free) (same-Accepted p e (callbacks between e) w found f)
        | inl listed ↦ elim (Bool-cases (p.executor_block_strategy =ˢ cover_early)) [
          | inl over ↦ rw (found, listed, over) (cover-Accepted p e (callbacks between e) w found f)
          | inr keep ↦ absurd (ground arith)
        ]
      ]
    ]

-- A launch adds a context and keeps those that were there.
launch-contexts :
    (p : RunReq) (a : ℕ) (m : Executor) (c : ℕ)
    → a < length m.tasks
    → c < length m.contexts
    → get_elem? (launch p (some a) m).0.contexts c ≡ get_elem? m.contexts c
unfolding launch launch_task
launch-contexts p a m c h k =
    let (t, found) = get_elem?-lt m.tasks a h in rw found (get_elem?-append m.contexts _ c k)

module _ (p : RunReq) (e : Executor) (a b : ℕ) (t : Task) (c : ℕ)
    (reg : Dict.get e.reg_list p.executor_handler ≡ some a)
    (listed : Dict.get e.run_list (int64_to_str p.job_id) ≡ some b)
    (at_b : get_elem? e.tasks b ≡ some t) (has : t.cancel ≡ some c)
    (strategy : p.executor_block_strategy ≡ cover_early) where
  abbrev covered : Executor
  covered = record e {
    contexts = cancel_context e.contexts c;
    run_list = TaskList.del (int64_to_str t.id) e.run_list;
  }

  cover-listed : cover (some b) e ≡ some covered
  unfolding cover call_cancel
  cover-listed = rw at_b (rw has)

  run_task-covered : run_task (decoded p) [] e ≡ launch p (some a) covered
  unfolding run_task callbacks launch_after
  run_task-covered =
      let over = (eq_iff p.executor_block_strategy cover_early).1 strategy in
      rw (reg, listed, over, cover-listed, reg)

-- What a request that covers an earlier run does to it: the context whose cancel function the
-- listed task holds is cancelled.
run_task_covers :
    (p : RunReq) (e : Executor) (a b : ℕ) (t : Task) (c : ℕ)
    → IsWellFormed e
    → Dict.get e.reg_list p.executor_handler ≡ some a
    → Dict.get e.run_list (int64_to_str p.job_id) ≡ some b
    → get_elem? e.tasks b ≡ some t
    → t.cancel ≡ some c
    → p.executor_block_strategy ≡ cover_early
    → (x : Context) × (get_elem? (run_task (decoded p) [] e).0.contexts c ≡ some x)
      × (x.cancelled ≡ true)
run_task_covers p e a b t c w reg listed at_b has strategy =
    let lt : c < length e.contexts = ground (arith, w.listed (int64_to_str p.job_id) b listed) in
    let (x, is_x, marked) = cancel_context-cancelled e.contexts c lt in
    (
      x,
      rw (run_task-covered p e a b t c reg listed at_b has strategy) (
          launch-contexts p a (covered p e a b t c reg listed at_b has strategy) c
            (w.registered p.executor_handler a reg) (rw (length-cancel_context e.contexts c) lt)
          ∙ is_x),
      marked,
    )
