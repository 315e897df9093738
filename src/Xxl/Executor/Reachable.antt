-- ===== src/Xxl/Executor/Reachable.antt =====
-- Every executor that events lead to satisfies the invariant.
use foundation_framework.Base.{
  ℕ, String, ◌≡◌, refl, Option, none, some, List, [], ◌∷◌, get_elem?, arith, length-append,
  All-append, All-remove_at, All-get_elem?, All-map, Option-cases, inl, inr,
}
use foundation_framework.Base.Int.{pos}
use foundation_framework.Base.Dict
use foundation_framework.Base.Dict.{get-put_cases, get-remove}
use foundation_framework.Xxl.Dto.{decoded, refused, null}
use foundation_framework.Xxl.Executor.{
  Executor, Task, Running, TaskResult, done, failed, panic, new_executor, set_log, reg_task,
  or_else, idle_beat, begin, finish,
}
use foundation_framework.Xxl.Executor.Events.{
  Event, log, register, run, kill, idle, begins, ends, begin_task, begin_at, finish_at, step, steps,
}
use foundation_framework.Xxl.Executor.Heap.{Launched-append}
use foundation_framework.Xxl.Executor.Invariant.{
  Live, IsWellFormed, Fewer-callback, Fewer-IsWellFormed, OnSome, call_cancel-OnSome,
}
use foundation_framework.Xxl.Executor.Requests.{run_task-IsWellFormed, kill_task-IsWellFormed}
use foundation_framework.Err.{◌<>◌}

reg_task-IsWellFormed :
    (pattern : String) (fn : ℕ) {e : Executor}
    → IsWellFormed e
    → IsWellFormed (reg_task pattern fn e)
unfolding reg_task
reg_task-IsWellFormed pattern fn {e} w = record {
  registered = λ k a h.
      rw (length-append e.tasks (_ ∷ [])) (elim (get-put_cases e.reg_list pattern k _ h) [
        | inl new ↦ omega arith
        | inr old ↦ omega (arith, w.registered k a old)
      ]);
  listed = λ k a h. Launched-append _ e.tasks _ a (w.listed k a h);
  waiting = All-map (Live e) (λ a l. Launched-append _ e.tasks _ a l) e.spawned w.waiting;
  busy =
      All-map (λ (r : Running). Live e r.task) (λ r l. Launched-append _ e.tasks _ r.task l)
        e.running w.busy;
}

Live-begin : (a : ℕ) (t : Task) → (begin a t).task ≡ a
unfolding begin
Live-begin a t = refl

begin_task-IsWellFormed :
    (i a : ℕ) (o : Option Task) {e : Executor}
    → IsWellFormed e
    → Live e a
    → IsWellFormed (begin_task i a o e)
unfolding begin_task begin
begin_task-IsWellFormed i a none w l = w
begin_task-IsWellFormed i a (some t) {e} w l = record {
  registered = w.registered;
  listed = w.listed;
  waiting = All-remove_at (Live e) i e.spawned w.waiting;
  busy = All-append (λ (r : Running). Live e r.task) e.running (begin a t ∷ []) w.busy (l, tt);
}

begin_at-IsWellFormed :
    (i : ℕ) {e : Executor} → IsWellFormed e → IsWellFormed (begin_at i (get_elem? e.spawned i) e)
unfolding begin_at
begin_at-IsWellFormed i {e} w = elim (Option-cases (get_elem? e.spawned i)) [
  | inl gone ↦ rw gone w
  | inr h ↦
      rw h.1
        (begin_task-IsWellFormed i h.0 _ w (All-get_elem? (Live e) e.spawned i h.0 w.waiting h.1))
]

or_else-IsWellFormed :
    (o : Option Executor) {e : Executor} → IsWellFormed e → OnSome o → IsWellFormed (or_else e o)
unfolding or_else
or_else-IsWellFormed none w h = w
or_else-IsWellFormed (some e') w h = h

finish-IsWellFormed :
    (r : Running) (o : TaskResult) {e : Executor} → IsWellFormed e → IsWellFormed (finish r o e)
unfolding finish
finish-IsWellFormed r done {e} w = Fewer-IsWellFormed (Fewer-callback r.task _ _ e) w
finish-IsWellFormed r (failed text) {e} w = Fewer-IsWellFormed (Fewer-callback r.task _ _ e) w
finish-IsWellFormed r (panic text) {e} w =
    let w' = Fewer-IsWellFormed (Fewer-callback r.task (pos 500) ("task panic:" <> text) e) w in
    or_else-IsWellFormed _ w' (call_cancel-OnSome r.cancel w')

finish_at-IsWellFormed :
    (i : ℕ) (o : Option Running) (r : TaskResult) {e : Executor}
    → IsWellFormed e
    → IsWellFormed (finish_at i o r e)
unfolding finish_at
finish_at-IsWellFormed i none r w = w
finish_at-IsWellFormed i (some g) r {e} w =
    let w' = finish-IsWellFormed g r w in
    record {
      registered = w'.registered;
      listed = w'.listed;
      waiting = w'.waiting;
      busy =
          All-remove_at (λ (q : Running). Live (finish g r e) q.task) i (finish g r e).running
            w'.busy;
    }

-- Every event keeps the invariant.
pub step-IsWellFormed : (ev : Event) {e : Executor} → IsWellFormed e → IsWellFormed (step ev e)
unfolding step set_log idle_beat
step-IsWellFormed (log l) w = record {
  registered = w.registered;
  listed = w.listed;
  waiting = w.waiting;
  busy = w.busy;
}
step-IsWellFormed (register pattern fn) w = reg_task-IsWellFormed pattern fn w
step-IsWellFormed (run body between) w = run_task-IsWellFormed body between w
step-IsWellFormed (kill body between) w = kill_task-IsWellFormed body between w
step-IsWellFormed (idle null) w = w
step-IsWellFormed (idle (refused p)) w = w
step-IsWellFormed (idle (decoded p)) w = w
step-IsWellFormed (begins i) w = begin_at-IsWellFormed i w
step-IsWellFormed (ends i r) w = finish_at-IsWellFormed i _ r w

pub steps-IsWellFormed :
    (evs : List Event) {e : Executor} → IsWellFormed e → IsWellFormed (steps evs e)
unfolding steps
steps-IsWellFormed [] w = w
steps-IsWellFormed (ev ∷ evs) w = steps-IsWellFormed evs (step-IsWellFormed ev w)

new_executor-IsWellFormed : IsWellFormed new_executor
unfolding new_executor
new_executor-IsWellFormed = record {
  registered = λ k a h. absurd (cc (Dict.get-empty {V = ℕ} k));
  listed = λ k a h. absurd (cc (Dict.get-empty {V = ℕ} k));
  waiting = tt;
  busy = tt;
}

-- Whatever requests come, in whatever order, with whatever callbacks between their steps and
-- whatever the tasks return, every registered address is in the heap, and every task on the run
-- list, spawned or running has been launched: it has parameters and the cancel function of a
-- context that was made.
pub reachable-IsWellFormed : (evs : List Event) → IsWellFormed (steps evs new_executor)
reachable-IsWellFormed evs = steps-IsWellFormed evs new_executor-IsWellFormed
