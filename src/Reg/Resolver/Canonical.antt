-- ===== src/Reg/Resolver/Canonical.antt =====
-- The addresses of a connection depend only on which endpoints there are.
use foundation_framework.Base.{
  suc, String, ◌≡◌, refl, true, List, [], ◌∷◌, ◌↔◌, inl, inr, Bool-cases, ◌=ˢ◌, arith, eq_iff,
}
use foundation_framework.Base.Order.{
  In, SameElements, Distinct, Ascends, In-sort, sort-Ascends, Ascends-eq, text_before,
  text_before-StrictOrder,
}
use foundation_framework.Err.{nil, is_nil}
use foundation_framework.Reg.Instance.{Instance}
use foundation_framework.Reg.Resolver.{
  contains, conns_set, populate_endpoints, endpoints, Resolver, Event, call_back, close, step, run,
  sent, call_back_handle,
}

contains-In : (a : String) (xs : List String) → contains a xs ≡ true → In a xs
unfolding contains
contains-In a [] h = absurd (cc)
contains-In a (x ∷ xs) h = elim (Bool-cases (x =ˢ a)) [
  | inl t ↦ inl ((eq_iff x a).0 t)
  | inr f ↦ inr (contains-In a xs (ground arith))
]

In-contains : (a : String) (xs : List String) → In a xs → contains a xs ≡ true
unfolding contains
In-contains a [] m = elim m [ ]
In-contains a (x ∷ xs) (inl e) = ground (arith, eq_iff x a)
In-contains a (x ∷ xs) (inr m) = ground (arith, In-contains a xs m)

In-conns_set : (a : String) (xs : List String) → In a (conns_set xs) ↔ In a xs
unfolding conns_set
In-conns_set a [] = (λ h. h, λ h. h)
In-conns_set a (x ∷ xs) = elim (Bool-cases (contains x (conns_set xs))) [
  | inl t ↦ rw t (
    λ h. inr ((In-conns_set a xs).0 h),
    λ h. elim h [
      | inl e ↦ rw (← e) (contains-In x (conns_set xs) t)
      | inr m ↦ (In-conns_set a xs).1 m
    ],
  )
  | inr f ↦ rw f (
    λ h. elim h [ inl e ↦ inl e | inr m ↦ inr ((In-conns_set a xs).0 m) ],
    λ h. elim h [ inl e ↦ inl e | inr m ↦ inr ((In-conns_set a xs).1 m) ],
  )
]

conns_set-Distinct : (xs : List String) → Distinct (conns_set xs)
unfolding conns_set
conns_set-Distinct [] = tt
conns_set-Distinct (x ∷ xs) = elim (Bool-cases (contains x (conns_set xs))) [
  | inl t ↦ rw t (conns_set-Distinct xs)
  | inr f ↦ rw f (λ m. let t = In-contains x (conns_set xs) m in absurd (cc), conns_set-Distinct xs)
]

-- The addresses are the endpoints, each once and in ascending order.
pub populate_endpoints-Ascends :
    (cc' : List String)
    → Ascends text_before (populate_endpoints cc')
      × ((a : String) → In a (populate_endpoints cc') ↔ In a cc')
unfolding populate_endpoints
populate_endpoints-Ascends cc' = (
  sort-Ascends text_before text_before-StrictOrder (conns_set cc') (conns_set-Distinct cc'),
  λ a. (
    λ m. (In-conns_set a cc').0 ((In-sort text_before a (conns_set cc')).0 m),
    λ m. (In-sort text_before a (conns_set cc')).1 ((In-conns_set a cc').1 m),
  ),
)

-- Any ascending list of the endpoints is what `populateEndpoints` makes of them, in whatever order
-- Go goes through its map; so updates with the same endpoints give the same address list.
pub populate_endpoints_unique :
    (cc' addresses : List String)
    → Ascends text_before addresses
    → SameElements addresses cc'
    → populate_endpoints cc' ≡ addresses
populate_endpoints_unique cc' addresses h same =
    let (up, elements) = populate_endpoints-Ascends cc' in
    Ascends-eq text_before text_before-StrictOrder (populate_endpoints cc') addresses up h
      (λ a. (λ m. (same a).1 ((elements a).0 m), λ m. (elements a).1 ((same a).0 m)))

pub populate_endpoints_same :
    (xs ys : List String) → SameElements xs ys → populate_endpoints xs ≡ populate_endpoints ys
populate_endpoints_same xs ys same =
    let (up, elements) = populate_endpoints-Ascends ys in
    populate_endpoints_unique xs (populate_endpoints ys) up
      (λ a. (λ m. (same a).1 ((elements a).0 m), λ m. (elements a).1 ((same a).0 m)))

step-Ascends :
    (v : Event) (r : Resolver)
    → Ascends text_before r.addresses
    → Ascends text_before (step v r).addresses
unfolding step call_back_handle sent
step-Ascends close r h = h
step-Ascends (call_back services e) r h = elim (Bool-cases (is_nil e)) [
  | inr f ↦ rw f h
  | inl t ↦ elim (Bool-cases r.receives) [
    | inr g ↦ rw (t, g) h
    | inl u ↦ rw (t, u) (populate_endpoints-Ascends (endpoints services)).0
  ]
]

-- Whatever callbacks and closes come, the addresses of a connection ascend, so that no address is
-- there twice.
pub run-Ascends :
    (vs : List Event) (r : Resolver)
    → Ascends text_before r.addresses
    → Ascends text_before (run vs r).addresses
unfolding run
run-Ascends [] r h = h
run-Ascends (v ∷ vs) r h = run-Ascends vs (step v r) (step-Ascends v r h)

-- After `Close` each callback without an error waits for ever on its send, and the addresses stay.
pub closed_call_back_blocks :
    (services : List Instance) (r : Resolver)
    → (step (call_back services nil) (step close r)).blocked ≡ suc r.blocked
unfolding step call_back_handle sent
closed_call_back_blocks services r = refl
