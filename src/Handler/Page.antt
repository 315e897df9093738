-- ===== src/Handler/Page.antt =====
-- `Page` and `NewPage` of common/dto/dto.go; the numbers are `int64`, so that the sum wraps around.
use foundation_framework.Base.{
  ℕ, zero, suc, ◌+◌, ◌-◌, ◌*◌, ◌/◌, ◌%◌, ◌^◌, ◌<◌, ◌≤◌, ◌≡◌, refl, Option, none, some, List, ltb,
  true, arith,
}
use foundation_framework.Base.Int.{ℤ, pos, negsuc}
use foundation_framework.Reg.Consul.{to_int64}
use native.Mathlib.Nat.{mod-lt, div-add-mod}

pub record Page (A : Type 0) : Type 0 where
  pub rows : List A
  pub total : ℤ
  pub pages : ℤ

-- The two's complement of an `int64`.
unfoldable pub residue : ℤ → ℕ
residue (pos n) = n
residue (negsuc n) = 2 ^ 64 - suc n

-- `total + pageSize - 1`
unfoldable pub rounded : ℤ → ℤ → ℤ
unfolding to_int64 residue
rounded total size = to_int64 (residue total + residue size + (2 ^ 64 - 1))

abbrev negated : ℕ → ℤ
negated zero = pos 0
negated (suc n) = negsuc n

-- Go's `/`, which truncates; `none` where it panics. The quotient of the least number by -1 wraps.
unfoldable pub quotient : ℤ → ℤ → Option ℤ
unfolding to_int64
quotient a (pos zero) = none
quotient (pos n) (pos (suc m)) = some (pos (n / suc m))
quotient (pos n) (negsuc m) = some (negated (n / suc m))
quotient (negsuc n) (pos (suc m)) = some (negated (suc n / suc m))
quotient (negsuc n) (negsuc m) = some (to_int64 (suc n / suc m))

module _ {A : Type 0} where
  with_pages : List A → ℤ → Option ℤ → Option (Page A)
  with_pages xs total none = none
  with_pages xs total (some n) = some (record { rows = xs; total = total; pages = n })

  unfoldable pub new_page : List A → ℤ → ℤ → Option (Page A)
  unfolding with_pages rounded quotient
  new_page xs total size = with_pages xs total (quotient (rounded total size) size)

rounded-pos : (t s : ℕ) → t + suc s ≤ 2 ^ 63 → rounded (pos t) (pos (suc s)) ≡ pos (t + s)
unfolding rounded residue to_int64
rounded-pos t s h =
    let e : (t + suc s + (2 ^ 64 - 1)) % 2 ^ 64 ≡ t + s = omega arith in
    let f : ltb (t + s) (2 ^ 63) ≡ true = ground arith in rw e (rw f refl)

-- A page of a positive size, where the sum does not overflow: the pages are the fewest that hold the
-- total.
new_page-fewest :
    {A : Type 0} (xs : List A) (t s : ℕ)
    → t + suc s ≤ 2 ^ 63
    → (n : ℕ) × (new_page xs (pos t) (pos (suc s))
        ≡ some (record { rows = xs; total = pos t; pages = pos n }))
      × (t ≤ n * suc s)
      × (n * suc s < t + suc s)
unfolding new_page with_pages quotient
new_page-fewest xs t s h = rw (rounded-pos t s h) (
    let k : 0 < suc s = omega arith in
    (
      (t + s) / suc s,
      refl,
      omega (arith, div-add-mod (t + s) (suc s), mod-lt (t + s) k),
      omega (arith, div-add-mod (t + s) (suc s), mod-lt (t + s) k),
    ))
