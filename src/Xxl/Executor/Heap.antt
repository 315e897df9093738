-- ===== src/Xxl/Executor/Heap.antt =====
-- What a task's object holds once it has been launched, and what a write to the heap keeps of it.
use foundation_framework.Base.{
  ℕ, zero, suc, ◌≤◌, ◌<◌, ◌≡◌, refl, true, Option, none, some, List, [], ◌∷◌, ◌++◌, length,
  get_elem?, set, arith, get_elem?-set, get_elem?-append,
}
use foundation_framework.Xxl.Dto.{RunReq}
use foundation_framework.Xxl.Executor.{Task, Context, cancel_context}

-- Both a cancel function, of one of the first `n` contexts, and parameters.
abbrev pub LaunchedFields : ℕ → Option ℕ → Option RunReq → Type 0
LaunchedFields n (some c) (some p) = c < n
LaunchedFields n _ _ = ⊥

-- The object at an address has been launched.
abbrev pub Launched : ℕ → Option Task → Type 0
Launched n none = ⊥
Launched n (some t) = LaunchedFields n t.cancel t.param

pub LaunchedFields-cancel :
    (n : ℕ) (o : Option ℕ) (q : Option RunReq)
    → LaunchedFields n o q
    → (c : ℕ) × (o ≡ some c) × (c < n)
LaunchedFields-cancel n (some c) (some p) l = (c, refl, l)
LaunchedFields-cancel n (some c) none l = absurd l
LaunchedFields-cancel n none q l = absurd l

pub Launched-mono : (n m : ℕ) (o : Option Task) → n ≤ m → Launched n o → Launched m o
Launched-mono n m o h l = ground arith

pub length-cancel_context : (cs : List Context) (c : ℕ) → length (cancel_context cs c) ≡ length cs
unfolding cancel_context
length-cancel_context [] c = refl
length-cancel_context (x ∷ cs) zero = refl
length-cancel_context (x ∷ cs) (suc c) = omega (arith, length-cancel_context cs c)

pub cancel_context-cancelled :
    (cs : List Context) (c : ℕ)
    → c < length cs
    → (x : Context) × (get_elem? (cancel_context cs c) c ≡ some x) × (x.cancelled ≡ true)
unfolding cancel_context
cancel_context-cancelled [] c h = elim h [ ]
cancel_context-cancelled (x ∷ cs) zero h = (record x { cancelled = true }, refl, refl)
cancel_context-cancelled (x ∷ cs) (suc c) h = cancel_context-cancelled cs c (omega arith)

-- A launched object's address is in the heap.
pub Launched-lt : (n : ℕ) (ts : List Task) (a : ℕ) → Launched n (get_elem? ts a) → a < length ts
Launched-lt n [] a l = absurd l
Launched-lt n (t ∷ ts) zero l = omega arith
Launched-lt n (t ∷ ts) (suc a) l = omega (arith, Launched-lt n ts a l)

-- Allocating an object keeps the launched ones.
pub Launched-append :
    (n : ℕ) (ts us : List Task) (a : ℕ)
    → Launched n (get_elem? ts a)
    → Launched n (get_elem? (ts ++ us) a)
Launched-append n ts us a l = rw (get_elem?-append ts us a (Launched-lt n ts a l)) l

-- Launching one object keeps the others launched.
pub Launched-set :
    (n : ℕ) (ts : List Task) (a b : ℕ) (t : Task)
    → a < length ts
    → LaunchedFields n t.cancel t.param
    → Launched n (get_elem? ts b)
    → Launched n (get_elem? (set ts a t) b)
Launched-set n ts a b t h k l = rw (get_elem?-set ts a b t h) (ground arith)

-- The task and the context of a launched object.
pub Launched-task :
    (n : ℕ) (o : Option Task)
    → Launched n o
    → (t : Task) × (c : ℕ) × (o ≡ some t) × (t.cancel ≡ some c) × (c < n)
Launched-task n none l = absurd l
Launched-task n (some t) l =
    let (c, has, lt) = LaunchedFields-cancel n t.cancel t.param l in (t, c, refl, has, lt)
