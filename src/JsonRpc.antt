-- ===== src/JsonRpc.antt =====
-- The selection of a service's address: RoundRobinSelector of jsonrpc/jsonrpc.go. The keys of the
-- services that the discovery knows at a call are an argument.
pub mod Call
use native.Mathlib.Nat.{mod-lt, mod-add-mod, mod-eq_of_lt, mod_self}
use foundation_framework.Base.{
  ℕ, zero, suc, ◌+◌, ◌-◌, ◌%◌, ◌<◌, String, ◌≡◌, refl, ap, sym, ◌∙◌, true, false, Option, none,
  some, List, [], ◌∷◌, length, get_elem?, get_elem?-lt, ltb, if◌then◌else◌, arith, Bool-cases, inl,
  inr,
}
use foundation_framework.Err.{Error, nil, ◌<>◌}
use foundation_framework.Err.Comm
use foundation_framework.Err.Stack.{Frame}

pub record RoundRobinSelector : Type 0 where
  pub service_name : String
  pub index : ℕ

-- `index++`, and 0 past the end.
unfoldable pub next_index : ℕ → ℕ → ℕ
next_index n i = if ltb (n - 1) (suc i) then 0 else suc i

module _ (stack : List Frame) where
  -- The address and the error, or `none` where the index is out of range, which would panic.
  unfoldable pub picked :
      RoundRobinSelector → Option String → RoundRobinSelector × Option (String × Error)
  picked s none = (s, none)
  picked s (some key) = (s, some (key, nil))

  unfoldable pub selector :
      List String → RoundRobinSelector → RoundRobinSelector × Option (String × Error)
  unfolding picked next_index
  selector [] s = (s, some ("", Comm.new stack ("未找到服务节点：" <> s.service_name)))
  selector (key ∷ keys) s =
      let i = next_index (length (key ∷ keys)) s.index in
      picked (record s { index = i }) (get_elem? (key ∷ keys) i)

  -- The selector after `k` calls that find the same services.
  unfoldable pub selected : ℕ → List String → RoundRobinSelector → RoundRobinSelector
  selected zero services s = s
  selected (suc k) services s = (selector services (selected k services s)).0

  last : (n i : ℕ) → i < n → ltb (n - 1) (suc i) ≡ true → i + 1 ≡ n
  last n i h t = ground arith

  within : (n i : ℕ) → i < n → ltb (n - 1) (suc i) ≡ false → i + 1 < n
  within n i h f = ground arith

  next_index-mod : (n i : ℕ) → i < n → next_index n i ≡ (i + 1) % n
  unfolding next_index
  next_index-mod n i h = elim (Bool-cases (ltb (n - 1) (suc i))) [
    | inl t ↦ rw t (sym (ap (λ (m : ℕ). m % n) (last n i h t) ∙ mod_self n))
    | inr f ↦ rw f (omega (arith, mod-eq_of_lt (within n i h f)))
  ]

  picked-index : (s : RoundRobinSelector) (o : Option String) → (picked s o).0 ≡ s
  unfolding picked
  picked-index s none = refl
  picked-index s (some key) = refl

  next-selected :
      (k : ℕ) (key : String) (keys : List String) (s : RoundRobinSelector)
      → s.index < length (key ∷ keys)
      → (selected k (key ∷ keys) s).index ≡ (s.index + k) % length (key ∷ keys)
      → next_index (length (key ∷ keys)) (selected k (key ∷ keys) s).index
        ≡ (s.index + suc k) % length (key ∷ keys)
  next-selected k key keys s h e =
      let n = length (key ∷ keys) in
      ap (next_index n) e
      ∙ next_index-mod n ((s.index + k) % n) (mod-lt (s.index + k) (omega arith))
      ∙ mod-add-mod (s.index + k) n 1
      ∙ ap (λ (m : ℕ). m % n) (omega arith)

  plus_zero : (n : ℕ) → n + 0 ≡ n
  plus_zero n = omega arith

  selected-index :
      (k : ℕ) (key : String) (keys : List String) (s : RoundRobinSelector)
      → s.index < length (key ∷ keys)
      → (selected k (key ∷ keys) s).index ≡ (s.index + k) % length (key ∷ keys)
  unfolding selected selector
  selected-index zero key keys s h =
      sym (ap (λ (m : ℕ). m % length (key ∷ keys)) (plus_zero s.index) ∙ mod-eq_of_lt h)
  selected-index (suc k) key keys s h =
      ap (λ (t : RoundRobinSelector). t.index) (picked-index _ _)
      ∙ next-selected k key keys s h (selected-index k key keys s h)

  -- While a service has the same addresses, at least one, and the index is in range, the calls go
  -- round them: call `k + 1` returns the address `k + 1` places after the index, modulo their
  -- number, and no error.
  pub selector_round_robin :
      (k : ℕ) (key : String) (keys : List String) (s : RoundRobinSelector)
      → s.index < length (key ∷ keys)
      → (a : String) × (get_elem? (key ∷ keys) ((s.index + suc k) % length (key ∷ keys)) ≡ some a)
        × ((selector (key ∷ keys) (selected k (key ∷ keys) s)).1 ≡ some (a, nil))
  unfolding selector picked
  selector_round_robin k key keys s h =
      let n = length (key ∷ keys) in
      let (a, p) =
        get_elem?-lt (key ∷ keys) ((s.index + suc k) % n)
          (mod-lt (s.index + suc k) (omega arith)) in
      (a, p, rw (next-selected k key keys s h (selected-index k key keys s h)) (rw p refl))
