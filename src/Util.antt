-- ===== src/Util.antt =====
-- SplitArray of util/collection/collection.go.
pub mod ListenOn
pub mod Maps
pub mod Usql
pub mod Strings
use native.Mathlib.Nat.{mod-lt, div-add-mod}
use foundation_framework.Base.{
  ℕ, zero, suc, ◌+◌, ◌-◌, ◌*◌, ◌/◌, ◌≤◌, ◌<◌, ◌≡◌, refl, ap, List, [], ◌∷◌, ◌++◌, length, take,
  drop, take-append-drop, length-drop, length-take, All, arith,
}

-- The number of parts of size `size` that `n` elements need.
unfoldable pub num_chunks : ℕ → ℕ → ℕ
num_chunks size n = (n + size - 1) / size

num_chunks-covers : (size n : ℕ) → 0 < size → n ≤ size * num_chunks size n
unfolding num_chunks
num_chunks-covers size n h = omega (arith, div-add-mod (n + size - 1) size, mod-lt (n + size - 1) h)

module _ {A : Type 0} where
  abbrev pub concat : List (List A) → List A
  concat [] = []
  concat (c ∷ cs) = c ++ concat cs

  -- `n` rounds of the loop of SplitArray, from the elements that are left on.
  chunks : ℕ → ℕ → List A → List (List A)
  chunks size zero xs = []
  chunks size (suc n) xs = take size xs ∷ chunks size n (drop size xs)

  -- `SplitArray` of a slice that is not nil; a `chunkSize` of 0 would panic.
  unfoldable pub split_array : List A → ℕ → List (List A)
  unfolding chunks num_chunks
  split_array xs size = chunks size (num_chunks size (length xs)) xs

  chunks-All : (size n : ℕ) (xs : List A) → All (λ c. length c ≤ size) (chunks size n xs)
  unfolding chunks
  chunks-All size zero xs = tt
  chunks-All size (suc n) xs =
      (omega (arith, length-take size xs), chunks-All size n (drop size xs))

  length-chunks : (size n : ℕ) (xs : List A) → length (chunks size n xs) ≡ n
  unfolding chunks
  length-chunks size zero xs = refl
  length-chunks size (suc n) xs = ap suc (length-chunks size n (drop size xs))

  mul_drop :
      (size n : ℕ) (xs : List A) → length xs ≤ size * suc n → length (drop size xs) ≤ size * n
  mul_drop size n xs h = omega (arith, length-drop size xs)

  concat-chunks : (size n : ℕ) (xs : List A) → length xs ≤ size * n → concat (chunks size n xs) ≡ xs
  unfolding chunks
  concat-chunks size zero [] h = refl
  concat-chunks size zero (x ∷ xs) h = absurd (omega arith)
  concat-chunks size (suc n) xs h =
      rw (concat-chunks size n (drop size xs) (mul_drop size n xs h)) (take-append-drop size xs)

  -- The parts of a slice, put together, are the slice; none is longer than `chunkSize`, and they
  -- are as many as the length divided by `chunkSize`, rounded up.
  concat-split_array :
      (xs : List A) (size : ℕ)
      → 0 < size
      → (concat (split_array xs size) ≡ xs)
        × All (λ c. length c ≤ size) (split_array xs size)
        × (length (split_array xs size) ≡ num_chunks size (length xs))
  unfolding split_array
  concat-split_array xs size h = (
    concat-chunks size _ xs (num_chunks-covers size (length xs) h),
    chunks-All size _ xs,
    length-chunks size _ xs,
  )
