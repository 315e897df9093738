-- ===== src/Util/Maps.antt =====
-- Maps of util/umap/map.go. A value of type `any` is a map of such values or a value of another type.
use Prim.Native.Char.{Char}
use foundation_framework.Base.{
  String, ◌≡◌, ◌↔◌, refl, ap, ◌∙◌, sym, true, Option, none, some, List, [], ◌∷◌, ◌++◌, map,
  eq_false, if◌then◌else◌, ◌=ˢ◌, All, inl, inr, Bool-cases,
}
use foundation_framework.Base.Dict
use foundation_framework.Base.Dict.{Dict, get-put}
use text.Mathlib.TextEquality.{eq_iff}
use mathlib.Core.Path.{subst}
use foundation_framework.Base.Order.{In, Distinct}
use foundation_framework.Base.Split.{split, join, no_sep, split-join}

abbrev pub dot : Char
dot = "."

mutual
  pub data Value : Type 0 where
    scalar : String → Value
    object : Fields → Value

  pub data Fields : Type 0 where
    empty : Fields
    field : String → Value → Fields → Fields

-- `value[key]`, with `none` for nil.
unfoldable pub get : Fields → String → Option Value
get empty k = none
get (field j v m) k = let rest = get m k in if j =ˢ k then some v else rest

-- One key of a path: the last one gives the value, and another one must lead to a map.
next_key : List String → (Fields → Option Value) → Option Value → Option Value
next_key [] rest v = v
next_key (k ∷ ks) rest (some (object m)) = rest m
next_key (k ∷ ks) rest (some (scalar s)) = none
next_key (k ∷ ks) rest none = none

unfoldable pub walk : List String → Fields → Option Value
unfolding next_key
walk [] m = none
walk (k ∷ ks) m = next_key ks (walk ks) (get m k)

-- `GetValueByKeyPath`
unfoldable pub get_value_by_key_path : Fields → String → Option Value
get_value_by_key_path m path = walk (split dot path) m

-- A path of keys leads from a map to a value.
pub data Leads : Fields → List String → Value → Type 0 where
  last : {m : Fields} {k : String} {v : Value} → get m k ≡ some v → Leads m (k ∷ []) v
  inside :
      {m n : Fields} {k j : String} {ks : List String} {v : Value}
      → get m k ≡ some (object n)
      → Leads n (j ∷ ks) v
      → Leads m (k ∷ j ∷ ks) v

next_key-cases :
    (j : String) (js : List String) (rest : Fields → Option Value) (o : Option Value) (v : Value)
    → next_key (j ∷ js) rest o ≡ some v
    → (n : Fields) × (o ≡ some (object n)) × (rest n ≡ some v)
unfolding next_key
next_key-cases j js rest none v h = absurd (cc)
next_key-cases j js rest (some (scalar s)) v h = absurd (cc)
next_key-cases j js rest (some (object n)) v h = (n, refl, h)

walk-Leads : (ks : List String) (m : Fields) (v : Value) → walk ks m ≡ some v → Leads m ks v
unfolding walk
walk-Leads [] m v h = absurd (cc)
walk-Leads (k ∷ []) m v h = last h
walk-Leads (k ∷ j ∷ js) m v h =
    let (n, e, r) = next_key-cases j js (walk (j ∷ js)) (get m k) v h in
    inside e (walk-Leads (j ∷ js) n v r)

Leads-walk : (ks : List String) (m : Fields) (v : Value) → Leads m ks v → walk ks m ≡ some v
unfolding walk next_key
Leads-walk ks m v (last e) = e
Leads-walk ks m v (inside {n = n} {k = k} {j = j} {ks = js} e l) =
    ap (next_key (j ∷ js) (walk (j ∷ js))) e ∙ Leads-walk (j ∷ js) n v l

-- A path of keys without dots, put together with dots, gives a value exactly if the keys lead from
-- map to map to that value.
pub get_value_by_key_path_iff :
    (m : Fields) (k : String) (ks : List String) (v : Value)
    → no_sep dot k ≡ true
    → All (λ j. no_sep dot j ≡ true) ks
    → (get_value_by_key_path m (join dot (k ∷ ks)) ≡ some v) ↔ Leads m (k ∷ ks) v
unfolding get_value_by_key_path
get_value_by_key_path_iff m k ks v h all =
    let keys = split-join dot k ks h all in
    (
      λ e. walk-Leads (k ∷ ks) m v (ap (λ (l : List String). walk l m) (sym keys) ∙ e),
      λ l. ap (λ (l : List String). walk l m) keys ∙ Leads-walk (k ∷ ks) m v l,
    )

module _ {T : Type 0} where
  -- The inner loop of `MergeMap`.
  unfoldable pub merged : Dict T → Dict T → Dict T
  merged into [] = into
  merged into ((k, v) ∷ m) = merged (Dict.put into k v) m

  merge_from : Dict T → List (Dict T) → Dict T
  unfolding merged
  merge_from into [] = into
  merge_from into (m ∷ ms) = merge_from (merged into m) ms

  -- `MergeMap`
  unfoldable pub merge_map : List (Dict T) → Dict T
  unfolding merge_from
  merge_map ms = merge_from [] ms

  -- The keys of a map, each once.
  abbrev pub keys : Dict T → List String
  keys m = map (λ e. e.0) m

  abbrev pub or_else : Option T → Option T → Option T
  or_else (some v) o = some v
  or_else none o = o

  get-absent : (m : Dict T) (k : String) → ¬ In k (keys m) → Dict.get m k ≡ none
  unfolding Dict.get
  get-absent [] k absent = refl
  get-absent ((j, v) ∷ m) k absent =
      rw (eq_false j k (λ e. absent (inl e))) (get-absent m k (λ i. absent (inr i)))

  get-merged :
      (m into : Dict T) (k : String)
      → Distinct (keys m)
      → Dict.get (merged into m) k ≡ or_else (Dict.get m k) (Dict.get into k)
  unfolding merged Dict.get
  get-merged [] into k distinct = refl
  get-merged ((j, v) ∷ m) into k (absent, distinct) =
      get-merged m (Dict.put into j v) k distinct ∙ elim (Bool-cases (j =ˢ k)) [
        | inl t ↦
            let same : j ≡ k = (eq_iff j k).0 t in
            let gone : Dict.get m k ≡ none =
              get-absent m k (λ i. absent (subst (λ x. In x (keys m)) (sym same) i)) in
            rw (get-put into j k v, t, gone) refl
        | inr f ↦ rw (get-put into j k v, f) refl
      ]

  merge_from-append :
      (ms : List (Dict T)) (m into : Dict T)
      → merge_from into (ms ++ m ∷ []) ≡ merged (merge_from into ms) m
  unfolding merge_from
  merge_from-append [] m into = refl
  merge_from-append (x ∷ ms) m into = merge_from-append ms m (merged into x)

  -- Of maps that are merged, the last one that has a key gives its value.
  pub merge_map-append :
      (ms : List (Dict T)) (m : Dict T) (k : String)
      → Distinct (keys m)
      → Dict.get (merge_map (ms ++ m ∷ [])) k ≡ or_else (Dict.get m k) (Dict.get (merge_map ms) k)
  unfolding merge_map
  merge_map-append ms m k distinct =
      ap (λ (r : Dict T). Dict.get r k) (merge_from-append ms m [])
      ∙ get-merged m (merge_from [] ms) k distinct
