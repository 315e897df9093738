-- ===== src/Reg/Discovery/Nacos/Subscription.antt =====
-- The loop in `watch` of reg/nacos/nacos_discovery.go that repeats a failed subscription. Delays are
-- in seconds. `fails k` is whether attempt `k` of the loop fails.
use foundation_framework.Base.{
  ℕ, zero, suc, ◌+◌, ◌*◌, ◌≤◌, Bool, true, false, not, ◌&&◌, ◌||◌, List, [], ◌∷◌, if◌then◌else◌,
  ltb, ◌==◌, Option, none, some, ◌≡◌, refl, arith, Bool-cases, inl, inr, All,
}
use foundation_framework.Base.Int.{ℤ, pos, negsuc}

-- How the loop ends: whether it has subscribed, the attempts that it made, and the delays that it
-- slept, the last one first.
pub record Ended : Type 0 where
  pub subscribed : Bool
  pub attempts : ℕ
  pub slept : List ℕ

unfoldable pub next_delay : ℕ → ℕ
next_delay d = let e = if d == 0 then 1 else d * 2 in if ltb 30 e then 30 else e

is_negative : ℤ → Bool
is_negative (pos n) = false
is_negative (negsuc n) = true

-- `if d.RetriesAfterWatchFailed > 0 { retry-- }`
next_retry : ℤ → ℤ → ℤ
next_retry (pos (suc n)) (pos (suc m)) = pos m
next_retry (pos (suc n)) (pos zero) = negsuc zero
next_retry (pos (suc n)) (negsuc m) = negsuc (suc m)
next_retry (pos zero) retry = retry
next_retry (negsuc n) retry = retry

module _ (retries : ℤ) (fails : ℕ → Bool) where
  -- `none` where the fuel ends first.
  unfoldable pub resubscribe : ℕ → ℤ → ℕ → ℕ → List ℕ → Option Ended
  unfolding is_negative next_retry next_delay
  resubscribe zero retry k delay slept = none
  resubscribe (suc fuel) retry k delay slept =
      let d = next_delay delay in
      let again = resubscribe fuel (next_retry retries retry) (suc k) d (d ∷ slept) in
      let subscribed : Ended = record { subscribed = true; attempts = suc k; slept = slept } in
      let gave_up : Ended = record { subscribed = false; attempts = k; slept = slept } in
      if is_negative retries || not (is_negative retry)
      then (if fails k then again else some subscribed)
      else some gave_up

-- Attempts `k` to `k + m - 1` fail.
unfoldable pub all_fail : (ℕ → Bool) → ℕ → ℕ → Bool
all_fail fails zero k = true
all_fail fails (suc m) k = let rest = all_fail fails m (suc k) in fails k && rest

next_delay-le : (d : ℕ) → next_delay d ≤ 30
unfolding next_delay
next_delay-le d = ground arith

-- What a loop that ends within `m` more attempts returns.
abbrev EndsWell : (ℕ → Bool) → ℕ → ℕ → Option Ended → Type 0
EndsWell fails m k r =
    (w : Ended) × (r ≡ some w)
    × (w.subscribed ≡ not (all_fail fails m k))
    × (w.attempts ≤ k + m)
    × All (λ d. d ≤ 30) w.slept

module _ (n : ℕ) (fails : ℕ → Bool) where
  gives_up :
      (fuel k delay : ℕ) (slept : List ℕ)
      → All (λ d. d ≤ 30) slept
      → EndsWell fails 0 k (resubscribe (pos (suc n)) fails (suc fuel) (negsuc zero) k delay slept)
  unfolding resubscribe all_fail
  gives_up fuel k delay slept h = (_, refl, refl, omega arith, h)

  ends_within :
      (m fuel k delay : ℕ) (slept : List ℕ)
      → suc (suc m) ≤ fuel
      → All (λ d. d ≤ 30) slept
      → EndsWell fails (suc m) k (resubscribe (pos (suc n)) fails fuel (pos m) k delay slept)
  unfolding resubscribe all_fail
  ends_within m zero k delay slept le h = absurd (omega arith)
  ends_within m (suc zero) k delay slept le h = absurd (omega arith)
  ends_within zero (suc (suc fuel)) k delay slept le h = elim (Bool-cases (fails k)) [
    | inl t ↦ rw t (
        let (w, e, s, a, all) =
          gives_up fuel (suc k) (next_delay delay) (next_delay delay ∷ slept)
            (next_delay-le delay, h) in
        (w, e, s, omega arith, all))
    | inr f ↦ rw f (_, refl, refl, omega arith, h)
  ]
  ends_within (suc m) (suc (suc fuel)) k delay slept le h = elim (Bool-cases (fails k)) [
    | inl t ↦ rw t (
        let (w, e, s, a, all) =
          ends_within m (suc fuel) (suc k) (next_delay delay) (next_delay delay ∷ slept)
            (omega arith) (next_delay-le delay, h) in
        (w, e, s, omega arith, all))
    | inr f ↦ rw f (_, refl, refl, omega arith, h)
  ]

  -- With `n + 1` retries configured, whichever attempts fail, the loop ends: it makes at most `n + 2`
  -- attempts, it has subscribed exactly if one of the first `n + 2` succeeds, and it has never slept
  -- for more than 30 seconds.
  pub resubscribe_ends :
      (fuel : ℕ)
      → n + 3 ≤ fuel
      → (w : Ended) × (resubscribe (pos (suc n)) fails fuel (pos (suc n)) 0 0 [] ≡ some w)
        × (w.subscribed ≡ not (all_fail fails (suc (suc n)) 0))
        × (w.attempts ≤ n + 2)
        × All (λ d. d ≤ 30) w.slept
  resubscribe_ends fuel le =
      let (w, e, s, a, all) = ends_within (suc n) fuel 0 0 [] (omega arith) tt in
      (w, e, s, omega arith, all)

-- With `RetriesAfterWatchFailed` left at 0, a subscription that always fails is repeated for ever: no
-- fuel is enough.
resubscribe_never_ends :
    (fails : ℕ → Bool)
    → ((k : ℕ) → fails k ≡ true)
    → (fuel k delay : ℕ) (slept : List ℕ)
    → resubscribe (pos zero) fails fuel (pos zero) k delay slept ≡ none
unfolding resubscribe
resubscribe_never_ends fails h zero k delay slept = refl
resubscribe_never_ends fails h (suc fuel) k delay slept =
    rw (h k)
      (resubscribe_never_ends fails h fuel (suc k) (next_delay delay) (next_delay delay ∷ slept))
