-- ===== src/Base/Order.antt =====
-- Strict orders given by a test, the sorting of a list by one, and texts in the order of Go's `<`.
use Prim.Native.Char.{code}
use Prim.Native.String.{String, [], ◌∷◌}
use mathlib.Core.Path.{◌≡◌, refl, ap₂, sym, subst}
use mathlib.Core.Logic.{◌≢◌, ◌↔◌, ◌⊎◌, inl, inr}
use mathlib.Core.Bool.{Bool, true, false}
use mathlib.Core.List.{List, ◌++◌}
use native.Mathlib.Omega.{arith}
use text.Mathlib.TextEquality.{Char-path}
use foundation_framework.Base.Tests.{ltb, if◌then◌else◌, Bool-cases}
use foundation_framework.Base.Lists.{All, Any, All-map}

pub record StrictOrder {A : Type 0} (before : A → A → Bool) : Type 0 where
  pub irrefl : (a : A) → before a a ≡ false
  pub trans : (a b c : A) → before a b ≡ true → before b c ≡ true → before a c ≡ true
  pub total : (a b : A) → before a b ≡ false → before b a ≡ false → a ≡ b

module _ {A : Type 0} where
  abbrev pub In : A → List A → Type 0
  In a xs = Any (λ x. x ≡ a) xs

  -- The same elements, in whatever order and however often.
  abbrev pub SameElements : List A → List A → Type 0
  SameElements xs ys = (a : A) → In a xs ↔ In a ys

  abbrev pub Distinct : List A → Type 0
  Distinct List.[] = Unit
  Distinct (List.◌∷◌ x xs) = ¬ In x xs × Distinct xs

  pub In-left : (a : A) (xs ys : List A) → In a xs → In a (xs ++ ys)
  In-left a List.[] ys m = elim m [ ]
  In-left a (List.◌∷◌ x xs) ys (inl e) = inl e
  In-left a (List.◌∷◌ x xs) ys (inr m) = inr (In-left a xs ys m)

  pub In-right : (a : A) (xs ys : List A) → In a ys → In a (xs ++ ys)
  In-right a List.[] ys m = m
  In-right a (List.◌∷◌ x xs) ys m = inr (In-right a xs ys m)

  -- An element of two lists in a row is one of either.
  pub In-split : (a : A) (xs ys : List A) → In a (xs ++ ys) → In a xs ⊎ In a ys
  In-split a List.[] ys m = inr m
  In-split a (List.◌∷◌ x xs) ys (inl e) = inl (inl e)
  In-split a (List.◌∷◌ x xs) ys (inr m) = elim (In-split a xs ys m) [
    | inl n ↦ inl (inr n)
    | inr n ↦ inr n
  ]

  All-In : (P : A → Type 0) (a : A) (xs : List A) → All P xs → In a xs → P a
  All-In P a List.[] h m = elim m [ ]
  All-In P a (List.◌∷◌ x xs) h (inl e) = subst P e h.0
  All-In P a (List.◌∷◌ x xs) h (inr m) = All-In P a xs h.1 m

module _ {A : Type 0} (before : A → A → Bool) where
  -- Each element comes before all later ones.
  abbrev pub Ascends : List A → Type 0
  Ascends List.[] = Unit
  Ascends (List.◌∷◌ x xs) = All (λ y. before x y ≡ true) xs × Ascends xs

  unfoldable pub insert : A → List A → List A
  insert a List.[] = List.◌∷◌ a List.[]
  insert a (List.◌∷◌ x xs) =
      let rest = List.◌∷◌ x (insert a xs) in if before x a then rest else List.◌∷◌ a (List.◌∷◌ x xs)

  -- A sort by the test: what `sort.Sort` makes of distinct elements.
  unfoldable pub sort : List A → List A
  unfolding insert
  sort List.[] = List.[]
  sort (List.◌∷◌ x xs) = insert x (sort xs)

  All-insert : (P : A → Type 0) (a : A) (xs : List A) → P a → All P xs → All P (insert a xs)
  unfolding insert
  All-insert P a List.[] p h = (p, tt)
  All-insert P a (List.◌∷◌ x xs) p h = elim (Bool-cases (before x a)) [
    | inl t ↦ rw t (h.0, All-insert P a xs p h.1)
    | inr f ↦ rw f (p, h)
  ]

  In-insert : (a b : A) (xs : List A) → In b (insert a xs) ↔ ((a ≡ b) ⊎ In b xs)
  unfolding insert
  In-insert a b List.[] = (λ h. h, λ h. h)
  In-insert a b (List.◌∷◌ x xs) = elim (Bool-cases (before x a)) [
    | inr f ↦ rw f (λ h. h, λ h. h)
    | inl t ↦ rw t (
      λ h. elim h [
        | inl e ↦ inr (inl e)
        | inr m ↦ elim ((In-insert a b xs).0 m) [ inl e ↦ inl e | inr m' ↦ inr (inr m') ]
      ],
      λ h. elim h [
        | inl e ↦ inr ((In-insert a b xs).1 (inl e))
        | inr m ↦ elim m [ inl e ↦ inl e | inr m' ↦ inr ((In-insert a b xs).1 (inr m')) ]
      ],
    )
  ]

  pub In-sort : (b : A) (xs : List A) → In b (sort xs) ↔ In b xs
  unfolding sort
  In-sort b List.[] = (λ h. h, λ h. h)
  In-sort b (List.◌∷◌ x xs) = (
    λ h. elim ((In-insert x b (sort xs)).0 h) [ inl e ↦ inl e | inr m ↦ inr ((In-sort b xs).0 m) ],
    λ h. (In-insert x b (sort xs)).1 (elim h [ inl e ↦ inl e | inr m ↦ inr ((In-sort b xs).1 m) ]),
  )

  module _ (o : StrictOrder before) where
    insert-Ascends : (a : A) (xs : List A) → ¬ In a xs → Ascends xs → Ascends (insert a xs)
    unfolding insert
    insert-Ascends a List.[] new h = (tt, tt)
    insert-Ascends a (List.◌∷◌ x xs) new h = elim (Bool-cases (before x a)) [
      | inl t ↦ rw t (
        All-insert (λ y. before x y ≡ true) a xs t h.0,
        insert-Ascends a xs (λ m. new (inr m)) h.1,
      )
      | inr f ↦ rw f (elim (Bool-cases (before a x)) [
        | inl t ↦ ((t, All-map (λ y. before x y ≡ true) (λ y p. o.trans a x y t p) xs h.0), h)
        | inr g ↦ absurd (new (inl (o.total x a f g)))
      ])
    ]

    pub sort-Ascends : (xs : List A) → Distinct xs → Ascends (sort xs)
    unfolding sort
    sort-Ascends List.[] h = tt
    sort-Ascends (List.◌∷◌ x xs) h =
        insert-Ascends x (sort xs) (λ m. h.0 ((In-sort x xs).0 m)) (sort-Ascends xs h.1)

    -- Of two ascending lists with the same elements, the first elements are the same.
    heads_eq :
        (x y : A) (xs ys : List A)
        → Ascends (List.◌∷◌ x xs)
        → Ascends (List.◌∷◌ y ys)
        → SameElements (List.◌∷◌ x xs) (List.◌∷◌ y ys)
        → x ≡ y
    heads_eq x y xs ys hx hy same = elim ((same x).0 (inl refl)) [
      | inl e ↦ sym e
      | inr m ↦ elim ((same y).1 (inl refl)) [
        | inl e ↦ e
        | inr n ↦
            let p = All-In (λ z. before y z ≡ true) x ys hy.0 m in
            let q = All-In (λ z. before x z ≡ true) y xs hx.0 n in
            let r = o.trans x y x q p in let i = o.irrefl x in absurd (cc)
      ]
    ]

    -- An element of the tail is not the head.
    tail_of : (x a : A) (xs : List A) → All (λ y. before x y ≡ true) xs → In a xs → x ≢ a
    tail_of x a xs h m e =
        let p = All-In (λ z. before x z ≡ true) a xs h m in
        let i = o.irrefl x in
        let q : before x x ≡ true = subst (λ (z : A). before x z ≡ true) (sym e) p in absurd (cc)

    In-tail :
        (x a : A) (xs ys : List A)
        → All (λ y. before x y ≡ true) xs
        → (In a (List.◌∷◌ x xs) → In a (List.◌∷◌ x ys))
        → In a xs
        → In a ys
    In-tail x a xs ys h f m = elim (f (inr m)) [ inl e ↦ absurd (tail_of x a xs h m e) | inr n ↦ n ]

    -- An ascending list is determined by its elements.
    pub Ascends-eq : (xs ys : List A) → Ascends xs → Ascends ys → SameElements xs ys → xs ≡ ys
    Ascends-eq List.[] List.[] hx hy same = refl
    Ascends-eq List.[] (List.◌∷◌ y ys) hx hy same = absurd ((same y).1 (inl refl))
    Ascends-eq (List.◌∷◌ x xs) List.[] hx hy same = absurd ((same x).0 (inl refl))
    Ascends-eq (List.◌∷◌ x xs) (List.◌∷◌ y ys) hx hy same =
        let e = heads_eq x y xs ys hx hy same in
        let same' : SameElements (List.◌∷◌ x xs) (List.◌∷◌ x ys) =
          subst (λ (z : A). SameElements (List.◌∷◌ x xs) (List.◌∷◌ z ys)) (sym e) same in
        let hy' : All (λ z. before x z ≡ true) ys =
          subst (λ (w : A). All (λ z. before w z ≡ true) ys) (sym e) hy.0 in
        let tails =
          Ascends-eq xs ys hx.1 hy.1
            (λ a. (In-tail x a xs ys hx.0 (same' a).0, In-tail x a ys xs hy' (same' a).1)) in
        ap₂ List.◌∷◌ e tails

-- Go compares strings by their bytes, in UTF-8 that is by their code points.
unfoldable pub text_before : String → String → Bool
text_before [] [] = false
text_before [] (d ∷ t) = true
text_before (c ∷ s) [] = false
text_before (c ∷ s) (d ∷ t) =
    let rest = text_before s t in
    if ltb (code c) (code d) then true else (if ltb (code d) (code c) then false else rest)

text_before_irrefl : (s : String) → text_before s s ≡ false
unfolding text_before
text_before_irrefl [] = refl
text_before_irrefl (c ∷ s) = ground (arith, text_before_irrefl s)

text_before_trans :
    (s t u : String) → text_before s t ≡ true → text_before t u ≡ true → text_before s u ≡ true
unfolding text_before
text_before_trans [] [] u h k = absurd (cc)
text_before_trans [] (d ∷ t) [] h k = absurd (cc)
text_before_trans [] (d ∷ t) (e ∷ u) h k = refl
text_before_trans (c ∷ s) [] u h k = absurd (cc)
text_before_trans (c ∷ s) (d ∷ t) [] h k = absurd (cc)
text_before_trans (c ∷ s) (d ∷ t) (e ∷ u) h k = ground (arith, text_before_trans s t u)

text_before-total : (s t : String) → text_before s t ≡ false → text_before t s ≡ false → s ≡ t
unfolding text_before
text_before-total [] [] h k = refl
text_before-total [] (d ∷ t) h k = absurd (cc)
text_before-total (c ∷ s) [] h k = absurd (cc)
text_before-total (c ∷ s) (d ∷ t) h k =
    ap₂ ◌∷◌ (Char-path c d (ground arith)) (text_before-total s t (ground arith) (ground arith))

pub text_before-StrictOrder : StrictOrder text_before
text_before-StrictOrder = record {
  irrefl = text_before_irrefl;
  trans = text_before_trans;
  total = text_before-total;
}
