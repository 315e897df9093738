-- ===== src/Xxl/Executor/Scheduling.antt =====
-- What `runTask` answers, and what an accepted run leaves behind.
use foundation_framework.Base.{
  ◌&&◌, ◌||◌, not, get_elem?-set_self, get_elem?-lt, eq_refl, ℕ, ◌<◌, ◌≡◌, refl, Bool, false,
  Option, none, some, [], ◌∷◌, ◌++◌, length, get_elem?, arith, get_elem?-append_last, Bool-cases,
  inl, inr, ◌=ˢ◌, if◌then◌else◌,
}
use foundation_framework.Base.Int.{pos}
use foundation_framework.Base.Dict
use foundation_framework.Base.Dict.{get-put, get-put_cases, get-remove}
use foundation_framework.Xxl.Dto.{decoded, cover_early, RunReq}
use foundation_framework.Xxl.Reply.{int64_to_str, return_general, return_call}
use foundation_framework.Xxl.TaskList
use foundation_framework.Xxl.Executor.{
  callbacks, Executor, Task, Context, Callbacks, replied, call_cancel, cover_task, cover,
  drop_entry, launch_task, launched_task, new_context, launch, run_task, cancel_context,
}
use foundation_framework.Xxl.Executor.Heap.{Launched, LaunchedFields-cancel, length-cancel_context}
use foundation_framework.Xxl.Executor.Invariant.{Live, IsWellFormed}

-- What a launch leaves: the job is listed at its handler's task, the task carries the request, a
-- fresh context is its own, and a goroutine is spawned for it.
pub record IsLaunch (p : RunReq) (a : ℕ) (e e' : Executor) : Type 0 where
  pub listed : Dict.get e'.run_list (int64_to_str p.job_id) ≡ some a
  pub task :
      (t : Task) × (get_elem? e'.tasks a ≡ some t)
      × (t.id ≡ p.job_id)
      × (t.param ≡ some p)
      × (t.ext ≡ some (length e.contexts))
      × (t.cancel ≡ some (length e.contexts))
  pub fresh :
      (c : Context) × (get_elem? e'.contexts (length e.contexts) ≡ some c) × (c.cancelled ≡ false)
  pub spawned : e'.spawned ≡ e.spawned ++ a ∷ []
  pub reg_list : e'.reg_list ≡ e.reg_list

module _ (p : RunReq) (a : ℕ) (t : Task) (e : Executor) (h : a < length e.tasks) where
  launch_task-IsLaunch : IsLaunch p a e (launch_task p a (some t) e).0
  unfolding launch_task new_context launched_task
  launch_task-IsLaunch = record {
    listed = ground (
      arith,
      get-put e.run_list (int64_to_str p.job_id) (int64_to_str p.job_id) a,
      eq_refl (int64_to_str p.job_id),
    );
    task = (
      launched_task p (length e.contexts) e.log t,
      get_elem?-set_self e.tasks a _ h,
      refl,
      refl,
      refl,
      refl,
    );
    fresh = (_, get_elem?-append_last e.contexts (new_context p.executor_timeout), refl);
    spawned = refl;
    reg_list = refl;
  }

pub launch-IsLaunch :
    (p : RunReq) (a : ℕ) (e : Executor)
    → a < length e.tasks
    → IsLaunch p a e (launch p (some a) e).0 × ((launch p (some a) e).1 ≡ replied return_general)
unfolding launch
launch-IsLaunch p a e h =
    let (t, found) = get_elem?-lt e.tasks a h in
    rw found (launch_task-IsLaunch p a t e h, unfold launch_task in refl)

-- The outcome of `cover` on a listed task: the old task's context is cancelled.
pub record IsCovered (e e' : Executor) : Type 0 where
  pub tasks : e'.tasks ≡ e.tasks
  pub reg_list : e'.reg_list ≡ e.reg_list
  pub spawned : e'.spawned ≡ e.spawned
  pub contexts : length e'.contexts ≡ length e.contexts

pub cover_total :
    (o : Option ℕ) {e : Executor}
    → IsWellFormed e
    → ((a : ℕ) → o ≡ some a → Live e a)
    → (e' : Executor) × (cover o e ≡ some e') × IsCovered e e'
unfolding cover
cover_total none {e} w h =
    (e, refl, record { tasks = refl; reg_list = refl; spawned = refl; contexts = refl })
cover_total (some a) {e} w h = cover_live (get_elem? e.tasks a) (h a refl)
  where
    cover_live :
        (o : Option Task)
        → Launched (length e.contexts) o
        → (e' : Executor) × (cover_task o e ≡ some e') × IsCovered e e'
    cover_live none l = absurd l
    cover_live (some t) l =
        let (c, has, lt) = LaunchedFields-cancel (length e.contexts) t.cancel t.param l in
        (
          record e {
            contexts = cancel_context e.contexts c;
            run_list = TaskList.del (int64_to_str t.id) e.run_list;
          },
          rw has (unfold call_cancel drop_entry in refl),
          record {
            tasks = refl;
            reg_list = refl;
            spawned = refl;
            contexts = length-cancel_context e.contexts c;
          },
        )

-- Whether `runTask` accepts a request: its handler is registered, and the job is not listed as
-- running unless the request covers earlier runs.
abbrev pub admits : RunReq → Executor → Bool
admits p e =
    TaskList.exists p.executor_handler e.reg_list
    && (not (TaskList.exists (int64_to_str p.job_id) e.run_list)
        || p.executor_block_strategy =ˢ cover_early)

-- A request that is not admitted is answered by a 500 with the reason, and changes nothing: the
-- executor is then as the callbacks of other goroutines between the reads of `runTask` leave it, if its
-- handler is registered, and else as it was.
pub run_task_refuses :
    (p : RunReq) (between : Callbacks) (e : Executor)
    → admits p e ≡ false
    → ((run_task (decoded p) between e).0
        ≡ (if TaskList.exists p.executor_handler e.reg_list then callbacks between e else e))
      × ((run_task (decoded p) between e).1
          ≡ replied (
              return_call p (pos 500) (
                if TaskList.exists p.executor_handler e.reg_list
                then "There are tasks running"
                else "Task not registered")))
unfolding run_task
run_task_refuses p between e h = elim (Bool-cases (TaskList.exists p.executor_handler e.reg_list)) [
  | inr none_such ↦ rw none_such (refl, refl)
  | inl found ↦ elim (Bool-cases (TaskList.exists (int64_to_str p.job_id) e.run_list)) [
    | inr free ↦ absurd (ground arith)
    | inl listed ↦ elim (Bool-cases (p.executor_block_strategy =ˢ cover_early)) [
      | inl over ↦ absurd (ground arith)
      | inr keep ↦ rw (found, listed, keep) (refl, refl)
    ]
  ]
]

pub IsLaunch-of :
    {p : RunReq} {a : ℕ} {e m e' : Executor}
    → length m.contexts ≡ length e.contexts
    → m.spawned ≡ e.spawned
    → m.reg_list ≡ e.reg_list
    → IsLaunch p a m e'
    → IsLaunch p a e e'
IsLaunch-of hc hs hr l = record {
  listed = l.listed;
  task = rw (← hc) l.task;
  fresh = rw (← hc) l.fresh;
  spawned = rw (← hs) l.spawned;
  reg_list = rw (← hr) l.reg_list;
}
