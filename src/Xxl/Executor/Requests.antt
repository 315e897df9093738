-- ===== src/Xxl/Executor/Requests.antt =====
-- `runTask` and `killTask` keep the invariant of the executor, on every branch.
use foundation_framework.Base.{
  ℕ, ◌<◌, String, Option, none, some, [], ◌∷◌, length, get_elem?, arith, get_elem?-set,
  lt-of_get_elem?, length-set, length-append, All-append, All-map, Bool-cases, Option-cases, inl,
  inr, ◌=ˢ◌,
}
use mathlib.Core.Path.{subst}
use foundation_framework.Base.Dict.{get-put_cases}
use foundation_framework.Xxl.Dto.{Body, decoded, refused, null, cover_early, RunReq, KillReq}
use foundation_framework.Xxl.Reply.{int64_to_str}
use foundation_framework.Xxl.TaskList
use foundation_framework.Xxl.Executor.{
  Executor, Task, Running, Callbacks, callbacks, kill_reply, launch_task, launched_task,
  new_context, launch, launch_after, run_task, kill_found, kill_get, kill_job, kill_task,
}
use foundation_framework.Xxl.Executor.Heap.{Launched-mono, Launched-set}
use foundation_framework.Xxl.Executor.Invariant.{
  Live, IsWellFormed, Fewer-callbacks, Fewer-IsWellFormed, OnSome, call_cancel-OnSome,
  drop_entry-OnSome, cover-OnSome,
}

module _ (p : RunReq) (a : ℕ) (t : Task) {e : Executor} (w : IsWellFormed e)
    (here : a < length e.tasks) where
  abbrev launched : Executor
  launched = (launch_task p a (some t) e).0

  -- What was live stays so.
  launch-Live : (b : ℕ) → Live e b → Live launched b
  unfolding launch_task launched_task
  launch-Live b l = rw (length-append e.contexts (new_context p.executor_timeout ∷ [])) (
      Launched-set _ e.tasks a b _ here (omega arith)
        (Launched-mono (length e.contexts) _ (get_elem? e.tasks b) (omega arith) l))

  launch-Live_self : Live launched a
  unfolding launch_task launched_task
  launch-Live_self =
      rw (length-append e.contexts (new_context p.executor_timeout ∷ []))
        (rw (get_elem?-set e.tasks a a _ here) (ground arith))

  launch_task-IsWellFormed : IsWellFormed launched
  unfolding launch_task launched_task
  launch_task-IsWellFormed = record {
    registered = λ k b h. rw (length-set e.tasks a _) (w.registered k b h);
    listed = λ k b h. elim (get-put_cases e.run_list (int64_to_str p.job_id) k a h) [
      | inl new ↦ subst (Live launched) new launch-Live_self
      | inr old ↦ launch-Live b (w.listed k b old)
    ];
    waiting =
        All-append (Live launched) e.spawned (a ∷ [])
          (All-map (Live e) launch-Live e.spawned w.waiting) (launch-Live_self, tt);
    busy = All-map (λ (r : Running). Live e r.task) (λ r l. launch-Live r.task l) e.running w.busy;
  }

launch-IsWellFormed :
    (p : RunReq) (o : Option ℕ) {e : Executor} → IsWellFormed e → IsWellFormed (launch p o e).0
unfolding launch
launch-IsWellFormed p none w = w
launch-IsWellFormed p (some a) {e} w = elim (Option-cases (get_elem? e.tasks a)) [
  | inl gone ↦ rw gone (unfold launch_task in w)
  | inr h ↦ rw h.1 (launch_task-IsWellFormed p a h.0 w (lt-of_get_elem? e.tasks a h.1))
]

launch_after-IsWellFormed :
    (p : RunReq) (o : Option Executor) {e : Executor}
    → IsWellFormed e
    → OnSome o
    → IsWellFormed (launch_after p e o).0
unfolding launch_after
launch_after-IsWellFormed p none w h = w
launch_after-IsWellFormed p (some e') w h = launch-IsWellFormed p _ h

pub run_task-IsWellFormed :
    (body : Body RunReq) (between : Callbacks) {e : Executor}
    → IsWellFormed e
    → IsWellFormed (run_task body between e).0
unfolding run_task
run_task-IsWellFormed null between w = w
run_task-IsWellFormed (refused p) between w = w
run_task-IsWellFormed (decoded p) between {e} w =
    let e' = callbacks between e in
    let w' : IsWellFormed e' = Fewer-IsWellFormed (Fewer-callbacks between e) w in
    elim (Bool-cases (TaskList.exists p.executor_handler e.reg_list)) [
      | inr none_such ↦ rw none_such w
      | inl found ↦ elim (Bool-cases (TaskList.exists (int64_to_str p.job_id) e.run_list)) [
        | inr free ↦ rw (found, free) (launch_after-IsWellFormed p (some e') w' w')
        | inl listed ↦ elim (Bool-cases (p.executor_block_strategy =ˢ cover_early)) [
          | inl over ↦
              rw (found, listed, over) (launch_after-IsWellFormed p _ w' (cover-OnSome _ w'))
          | inr keep ↦ rw (found, listed, keep) w'
        ]
      ]
    ]

kill_reply-IsWellFormed :
    (o : Option Executor) {e : Executor}
    → IsWellFormed e
    → OnSome o
    → IsWellFormed (kill_reply e o).0
unfolding kill_reply
kill_reply-IsWellFormed none w h = w
kill_reply-IsWellFormed (some e') w h = h

kill_found-IsWellFormed :
    (key : String) (o : Option Task) {e : Executor}
    → IsWellFormed e
    → IsWellFormed (kill_found key o e).0
unfolding kill_found
kill_found-IsWellFormed key none w = w
kill_found-IsWellFormed key (some t) {e} w =
    kill_reply-IsWellFormed _ w (drop_entry-OnSome key _ (call_cancel-OnSome t.cancel w))

kill_get-IsWellFormed :
    (key : String) (o : Option ℕ) {e : Executor}
    → IsWellFormed e
    → IsWellFormed (kill_get key o e).0
unfolding kill_get
kill_get-IsWellFormed key none w = w
kill_get-IsWellFormed key (some a) {e} w = kill_found-IsWellFormed key (get_elem? e.tasks a) w

kill_job-IsWellFormed :
    (p : KillReq) (between : Callbacks) {e : Executor}
    → IsWellFormed e
    → IsWellFormed (kill_job p between e).0
unfolding kill_job
kill_job-IsWellFormed p between {e} w =
    let w' : IsWellFormed (callbacks between e) =
      Fewer-IsWellFormed (Fewer-callbacks between e) w in
    elim (Bool-cases (TaskList.exists (int64_to_str p.job_id) e.run_list)) [
      | inl listed ↦ rw listed (kill_get-IsWellFormed _ _ w')
      | inr free ↦ rw free w'
    ]

pub kill_task-IsWellFormed :
    (body : Body KillReq) (between : Callbacks) {e : Executor}
    → IsWellFormed e
    → IsWellFormed (kill_task body between e).0
unfolding kill_task
kill_task-IsWellFormed null between w = w
kill_task-IsWellFormed (refused p) between w = kill_job-IsWellFormed p between w
kill_task-IsWellFormed (decoded p) between w = kill_job-IsWellFormed p between w
