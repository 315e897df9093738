-- ===== src/Xxl/Executor/Invariant.antt =====
-- The invariant of an executor between two events, and that callbacks and cancellations keep it.
use foundation_framework.Base.{
  ℕ, ◌<◌, String, ◌≡◌, refl, ◌∙◌, Option, none, some, List, [], ◌∷◌, length, get_elem?, arith, All,
  All-map, Option-cases, inl, inr,
}
use foundation_framework.Base.Int.{ℤ}
use foundation_framework.Base.Dict
use foundation_framework.Base.Dict.{get-put_cases, get-remove}
use foundation_framework.Xxl.Reply.{int64_to_str}
use foundation_framework.Xxl.Executor.{
  Executor, Task, Running, Callbacks, callback_of, callback, callbacks, call_cancel, cover_task,
  cover, drop_entry, cancel_context,
}
use foundation_framework.Xxl.Executor.Heap.{Launched, length-cancel_context}

-- The object at `a` has been launched.
abbrev pub Live : Executor → ℕ → Type 0
Live e a = Launched (length e.contexts) (get_elem? e.tasks a)

-- Registered addresses are in the heap; listed and running tasks have been launched.
pub record IsWellFormed (e : Executor) : Type 0 where
  pub registered : (k : String) (a : ℕ) → Dict.get e.reg_list k ≡ some a → a < length e.tasks
  pub listed : (k : String) (a : ℕ) → Dict.get e.run_list k ≡ some a → Live e a
  pub waiting : All (Live e) e.spawned
  pub busy : All (λ (r : Running). Live e r.task) e.running

-- What a callback may change: it takes entries off the run list, and posts.
pub record Fewer (e e' : Executor) : Type 0 where
  pub tasks : e'.tasks ≡ e.tasks
  pub contexts : e'.contexts ≡ e.contexts
  pub reg_list : e'.reg_list ≡ e.reg_list
  pub log : e'.log ≡ e.log
  pub spawned : e'.spawned ≡ e.spawned
  pub running : e'.running ≡ e.running
  pub run_list :
      (k : String) (a : ℕ) → Dict.get e'.run_list k ≡ some a → Dict.get e.run_list k ≡ some a

Fewer-del :
    (e : Executor) (key : String) (ps : List _)
    → Fewer e (record e { run_list = Dict.remove e.run_list key; posted = ps })
Fewer-del e key ps = record {
  tasks = refl;
  contexts = refl;
  reg_list = refl;
  log = refl;
  spawned = refl;
  running = refl;
  run_list = λ k a h. ground (arith, get-remove e.run_list key k, h);
}

pub Fewer-refl : (e : Executor) → Fewer e e
Fewer-refl e = record {
  tasks = refl;
  contexts = refl;
  reg_list = refl;
  log = refl;
  spawned = refl;
  running = refl;
  run_list = λ k a h. h;
}

pub Fewer-trans : {a b c : Executor} → Fewer a b → Fewer b c → Fewer a c
Fewer-trans p q = record {
  tasks = q.tasks ∙ p.tasks;
  contexts = q.contexts ∙ p.contexts;
  reg_list = q.reg_list ∙ p.reg_list;
  log = q.log ∙ p.log;
  spawned = q.spawned ∙ p.spawned;
  running = q.running ∙ p.running;
  run_list = λ k a h. p.run_list k a (q.run_list k a h);
}

Fewer-callback_of :
    (code : ℤ) (msg : String) (o : Option Task) (e : Executor) → Fewer e (callback_of code msg o e)
unfolding callback_of
Fewer-callback_of code msg none e = Fewer-refl e
Fewer-callback_of code msg (some t) e = elim (Option-cases t.param) [
  | inl h ↦ rw h (Fewer-del e (int64_to_str t.id) e.posted)
  | inr h ↦ rw h.1 (Fewer-del e (int64_to_str t.id) _)
]

pub Fewer-callback :
    (task : ℕ) (code : ℤ) (msg : String) (e : Executor) → Fewer e (callback task code msg e)
unfolding callback
Fewer-callback task code msg e = Fewer-callback_of code msg (get_elem? e.tasks task) e

pub Fewer-callbacks : (cs : Callbacks) (e : Executor) → Fewer e (callbacks cs e)
unfolding callbacks
Fewer-callbacks [] e = Fewer-refl e
Fewer-callbacks ((task, code, msg) ∷ cs) e =
    Fewer-trans (Fewer-callback task code msg e) (Fewer-callbacks cs (callback task code msg e))

pub Fewer-IsWellFormed : {e e' : Executor} → Fewer e e' → IsWellFormed e → IsWellFormed e'
Fewer-IsWellFormed {e} {e'} f w = record {
  registered = λ k a h. rw f.tasks (w.registered k a (rw f.reg_list at h));
  listed = λ k a h. rw (f.tasks, f.contexts) (w.listed k a (f.run_list k a h));
  waiting = rw (f.spawned, f.tasks, f.contexts) w.waiting;
  busy = rw (f.running, f.tasks, f.contexts) w.busy;
}

-- Cancelling a context only marks it.
pub cancel-IsWellFormed :
    {e : Executor} (c : ℕ)
    → IsWellFormed e
    → IsWellFormed (record e { contexts = cancel_context e.contexts c })
cancel-IsWellFormed {e} c w = record {
  registered = w.registered;
  listed = λ k a h. rw (length-cancel_context e.contexts c) (w.listed k a h);
  waiting = All-map (Live e) (λ a l. rw (length-cancel_context e.contexts c) l) e.spawned w.waiting;
  busy =
      All-map (λ (r : Running). Live e r.task) (λ r l. rw (length-cancel_context e.contexts c) l)
        e.running w.busy;
}

pub del-IsWellFormed :
    {e : Executor} (key : String)
    → IsWellFormed e
    → IsWellFormed (record e { run_list = Dict.remove e.run_list key })
del-IsWellFormed {e} key w = Fewer-IsWellFormed (Fewer-del e key e.posted) w

abbrev pub OnSome : Option Executor → Type 0
OnSome none = Unit
OnSome (some e) = IsWellFormed e

pub call_cancel-OnSome : (o : Option ℕ) {e : Executor} → IsWellFormed e → OnSome (call_cancel o e)
unfolding call_cancel
call_cancel-OnSome none w = tt
call_cancel-OnSome (some c) w = cancel-IsWellFormed c w

pub drop_entry-OnSome : (key : String) (o : Option Executor) → OnSome o → OnSome (drop_entry key o)
unfolding drop_entry
drop_entry-OnSome key none w = tt
drop_entry-OnSome key (some e) w = del-IsWellFormed key w

cover_task-OnSome : (o : Option Task) {e : Executor} → IsWellFormed e → OnSome (cover_task o e)
unfolding cover_task
cover_task-OnSome none w = tt
cover_task-OnSome (some old) {e} w =
    drop_entry-OnSome (int64_to_str old.id) (call_cancel old.cancel e)
      (call_cancel-OnSome old.cancel w)

pub cover-OnSome : (o : Option ℕ) {e : Executor} → IsWellFormed e → OnSome (cover o e)
unfolding cover
cover-OnSome none w = w
cover-OnSome (some a) {e} w = cover_task-OnSome (get_elem? e.tasks a) w
