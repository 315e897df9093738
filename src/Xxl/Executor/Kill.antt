-- ===== src/Xxl/Executor/Kill.antt =====
-- What `killTask` does, alone and beside a callback that comes between its two reads.
use foundation_framework.Base.{
  is_some-none, eq_false, eq_refl, ℕ, ◌<◌, String, ◌≡◌, ◌≢◌, refl, sym, true, false, none, some, [],
  length, get_elem?, Option-cases, inl, inr, if◌then◌else◌,
}
use foundation_framework.Base.Int.{pos}
use foundation_framework.Base.Dict
use foundation_framework.Base.Dict.{get-put, get-put_cases, get-remove}
use foundation_framework.Xxl.Dto.{decoded, KillReq}
use foundation_framework.Xxl.Reply.{int64_to_str, return_general, return_kill}
use foundation_framework.Xxl.TaskList
use foundation_framework.Xxl.Executor.{
  Executor, Task, Context, Callbacks, Outcome, replied, panicked, callbacks, call_cancel, kill_get,
  kill_task, cancel_context,
}
use foundation_framework.Xxl.Executor.Heap.{cancel_context-cancelled, Launched-task}
use foundation_framework.Xxl.Executor.Invariant.{IsWellFormed}

-- `killTask` reads the run list twice, and callbacks take no lock of the executor: where one takes
-- the job off the list between the two reads, the handler dereferences nil.
kill_task_race :
    (p : KillReq) (between : Callbacks) (e : Executor)
    → TaskList.exists (int64_to_str p.job_id) e.run_list ≡ true
    → TaskList.exists (int64_to_str p.job_id) (callbacks between e).run_list ≡ false
    → (kill_task (decoded p) between e).1 ≡ panicked
unfolding kill_task
kill_task_race p between e before after =
    rw (before, is_some-none _ after) (unfold kill_get in refl)

module _ (p : KillReq) (e : Executor) (w : IsWellFormed e) where
  -- A job that is not listed: 500, and nothing happens.
  kill-absent :
      Dict.get e.run_list (int64_to_str p.job_id) ≡ none
      → kill_task (decoded p) [] e ≡ (e, replied (return_kill (pos 500)))
  unfolding kill_task callbacks
  kill-absent free = rw free

  -- A listed job: its task's context is cancelled, and the job taken off the list.
  kill-listed :
      (a : ℕ) (t : Task) (c : ℕ)
      → Dict.get e.run_list (int64_to_str p.job_id) ≡ some a
      → get_elem? e.tasks a ≡ some t
      → t.cancel ≡ some c
      → kill_task (decoded p) [] e ≡ (
        record e {
          contexts = cancel_context e.contexts c;
          run_list = TaskList.del (int64_to_str p.job_id) e.run_list;
        },
        replied return_general,
      )
  unfolding kill_task callbacks call_cancel
  kill-listed a t c listed at_a has = rw listed (rw at_a (rw has))

-- What killing a job means: it is off the list, the other jobs are not touched, and the context of
-- its task is cancelled if it was on it; the answer is 200 for a listed job and 500 for another.
pub record IsKilled (key : String) (e : Executor) (r : Executor × Outcome) : Type 0 where
  pub gone : Dict.get r.0.run_list key ≡ none
  pub others : (k : String) → k ≢ key → Dict.get r.0.run_list k ≡ Dict.get e.run_list k
  pub answer : r.1 ≡ (
      if TaskList.exists key e.run_list
      then replied return_general
      else replied (return_kill (pos 500)))
  pub cancelled :
      (a : ℕ) (t : Task) (c : ℕ)
      → Dict.get e.run_list key ≡ some a
      → get_elem? e.tasks a ≡ some t
      → t.cancel ≡ some c
      → (x : Context) × (get_elem? r.0.contexts c ≡ some x) × (x.cancelled ≡ true)

IsKilled-listed :
    (p : KillReq) (e : Executor) (a : ℕ) (t : Task) (c : ℕ)
    → Dict.get e.run_list (int64_to_str p.job_id) ≡ some a
    → get_elem? e.tasks a ≡ some t
    → t.cancel ≡ some c
    → c < length e.contexts
    → IsKilled (int64_to_str p.job_id) e (
      record e {
        contexts = cancel_context e.contexts c;
        run_list = TaskList.del (int64_to_str p.job_id) e.run_list;
      },
      replied return_general,
    )
IsKilled-listed p e a t c listed at_a has lt = record {
  gone = rw (get-remove, eq_refl);
  others = λ k ne. rw (get-remove, eq_false _ _ (λ s. ne (sym s)));
  answer = rw listed;
  cancelled = λ a' t' c' listed' at_a' has'.
      let same_c : c' ≡ c = cc in rw same_c (cancel_context-cancelled e.contexts c lt);
}

-- On a well-formed executor, for a decoded request and with no callback between its reads, `killTask` never panics and kills
-- the job.
pub kill_task-IsKilled :
    (p : KillReq) (e : Executor)
    → IsWellFormed e
    → IsKilled (int64_to_str p.job_id) e (kill_task (decoded p) [] e)
kill_task-IsKilled p e w = elim (Option-cases (Dict.get e.run_list (int64_to_str p.job_id))) [
  | inl free ↦ rw (kill-absent p e w free) (record {
    gone = free;
    others = λ k ne. refl;
    answer = rw free;
    cancelled = λ a t c listed. absurd (cc);
  })
  | inr q ↦
      let (t, c, at_a, has, lt) =
        Launched-task (length e.contexts) _ (w.listed (int64_to_str p.job_id) q.0 q.1) in
      rw (kill-listed p e w q.0 t c q.1 at_a has) (IsKilled-listed p e q.0 t c q.1 at_a has lt)
]
