-- ===== src/Base/Dict.antt =====
-- Go's `map[string]V` as an association list; no theorem depends on the order of the entries.
use Prim.Native.String.{String}
use mathlib.Core.Path.{◌≡◌, refl}
use mathlib.Core.Logic.{◌⊎◌}
use mathlib.Core.Bool.{Bool}
use mathlib.Core.Option.{Option, none, some}
use mathlib.Core.List.{List, [], ◌∷◌}
use native.Mathlib.Omega.{arith}
use text.Mathlib.TextEquality.{eq_iff}
use foundation_framework.Base.Tests.{◌=ˢ◌, if◌then◌else◌, is_some}

abbrev pub Dict {ℓ} : Type ℓ → Type ℓ
Dict V = List (String × V)

module _ {ℓ} {V : Type ℓ} where
  -- m[k], with `none` for a missing key
  unfoldable pub get : Dict V → String → Option V
  get [] k = none
  get ((j, v) ∷ m) k = if j =ˢ k then some v else get m k

  -- delete(m, k)
  unfoldable pub remove : Dict V → String → Dict V
  remove [] k = []
  remove ((j, v) ∷ m) k = let rest = remove m k in if j =ˢ k then rest else (j, v) ∷ rest

  -- m[k] = v
  unfoldable pub put : Dict V → String → V → Dict V
  put m k v = (k, v) ∷ remove m k

  -- _, ok := m[k]
  abbrev pub has : Dict V → String → Bool
  has m k = is_some (get m k)

  pub get-remove :
      (m : Dict V) (k j : String) → get (remove m k) j ≡ (if k =ˢ j then none else get m j)
  unfolding get remove
  get-remove [] k j = ground arith
  get-remove ((i, v) ∷ m) k j = ground (arith, get-remove m k j, eq_iff i k, eq_iff i j, eq_iff k j)

  pub get-put :
      (m : Dict V) (k j : String) (v : V) → get (put m k v) j ≡ (if k =ˢ j then some v else get m j)
  unfolding get put
  get-put m k j v = ground (arith, get-remove m k j)

  -- What a map holds after a write is the value written, or was there.
  pub get-put_cases :
      (m : Dict V) (k j : String) (v : V) {x : V}
      → get (put m k v) j ≡ some x
      → (v ≡ x) ⊎ (get m j ≡ some x)
  get-put_cases m k j v h = ground (arith, get-put m k j v)

  pub get-empty : (k : String) → get [] k ≡ none
  unfolding get
  get-empty k = refl

pub ruleset dict_laws = (get-remove, get-put, get-empty)
