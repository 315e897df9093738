-- ===== src/Util/Usql.antt =====
-- Conversions between values of any type and nullable columns: util/usql/sql.go and
-- util/ref/reflect.go. The method `Scan` of `database/sql` is a parameter.
use foundation_framework.Base.{
  ℕ, String, ◌≡◌, ap, Bool, true, false, Option, none, some, if◌then◌else◌,
}
use foundation_framework.Base.Int.{ℤ, pos}
use foundation_framework.Err.{Error, nil}

-- A value of type `any` whose types but pointers are `V`: nil, a nil pointer, a pointer to a value, or
-- another value.
pub data Any (V : Type 0) : Type 0 where
  nothing nil_pointer : Any V
  pointer : Any V → Any V
  value : V → Any V

-- `sql.NullString` and its kin.
pub record Null (T : Type 0) : Type 0 where
  pub content : T
  pub valid : Bool

module _ {V : Type 0} where
  -- `IsPointer`
  unfoldable pub is_pointer : Any V → Bool
  is_pointer nothing = false
  is_pointer nil_pointer = true
  is_pointer (pointer a) = true
  is_pointer (value v) = false

  -- `GetValueFromPointer`, which the code calls on pointers; on another value it would panic.
  unfoldable pub get_value_from_pointer : Any V → Any V
  get_value_from_pointer nothing = nothing
  get_value_from_pointer nil_pointer = nothing
  get_value_from_pointer (pointer a) = a
  get_value_from_pointer (value v) = value v

  module _ {T : Type 0} (zero_value : T) (scan : Any V → Null T → Null T × Error) where
    -- The body of the conversions to a nullable column; an error is only logged.
    unfoldable pub to_null : Any V → Null T
    unfolding is_pointer get_value_from_pointer
    to_null a =
        (scan (if is_pointer a then get_value_from_pointer a else a)
          (record { content = zero_value; valid = false })).0

module _ {T : Type 0} where
  -- The body of the conversions to a pointer.
  unfoldable pub to_pointer : Null T → Option T
  to_pointer n = if n.valid then some n.content else none

-- What `Scan` is documented to do: nil is invalid, and a value of the column's own type is valid.
pub record ScanLaws {V T : Type 0} (inject : T → V) (scan : Any V → Null T → Null T × Error)
    : Type 0 where
  pub null : (n : Null T) → (scan nothing n).0.valid ≡ false
  pub own :
      (t : T) (n : Null T) → scan (value (inject t)) n ≡ (record { content = t; valid = true }, nil)

module _ {V : Type 0} where
  unfoldable pub to_null_string : (Any V → Null String → Null String × Error) → Any V → Null String
  unfolding to_null
  to_null_string scan a = to_null "" scan a

  unfoldable pub to_null_time :
      {Time : Type 0} → Time → (Any V → Null Time → Null Time × Error) → Any V → Null Time
  unfolding to_null
  to_null_time zero_time scan a = to_null zero_time scan a

  unfoldable pub to_null_int16 : (Any V → Null ℤ → Null ℤ × Error) → Any V → Null ℤ
  unfolding to_null
  to_null_int16 scan a = to_null (pos 0) scan a

  unfoldable pub to_null_int32 : (Any V → Null ℤ → Null ℤ × Error) → Any V → Null ℤ
  unfolding to_null
  to_null_int32 scan a = to_null (pos 0) scan a

  unfoldable pub to_null_int64 : (Any V → Null ℤ → Null ℤ × Error) → Any V → Null ℤ
  unfolding to_null
  to_null_int64 scan a = to_null (pos 0) scan a

  unfoldable pub to_null_byte : (Any V → Null ℕ → Null ℕ × Error) → Any V → Null ℕ
  unfolding to_null
  to_null_byte scan a = to_null 0 scan a

  unfoldable pub to_null_float64 :
      {F : Type 0} → F → (Any V → Null F → Null F × Error) → Any V → Null F
  unfolding to_null
  to_null_float64 zero_float scan a = to_null zero_float scan a

  unfoldable pub to_null_bool : (Any V → Null Bool → Null Bool × Error) → Any V → Null Bool
  unfolding to_null
  to_null_bool scan a = to_null false scan a

unfoldable pub to_string_pointer : Null String → Option String
unfolding to_pointer
to_string_pointer n = to_pointer n

unfoldable pub to_time_pointer : {Time : Type 0} → Null Time → Option Time
unfolding to_pointer
to_time_pointer n = to_pointer n

unfoldable pub to_int16_pointer : Null ℤ → Option ℤ
unfolding to_pointer
to_int16_pointer n = to_pointer n

unfoldable pub to_int32_pointer : Null ℤ → Option ℤ
unfolding to_pointer
to_int32_pointer n = to_pointer n

unfoldable pub to_int64_pointer : Null ℤ → Option ℤ
unfolding to_pointer
to_int64_pointer n = to_pointer n

unfoldable pub to_byte_pointer : Null ℕ → Option ℕ
unfolding to_pointer
to_byte_pointer n = to_pointer n

unfoldable pub to_float64_pointer : {F : Type 0} → Null F → Option F
unfolding to_pointer
to_float64_pointer n = to_pointer n

unfoldable pub to_bool_pointer : Null Bool → Option Bool
unfolding to_pointer
to_bool_pointer n = to_pointer n

module _ {V T : Type 0} (inject : T → V) where
  -- A pointer of type `*T` as `any`.
  abbrev pub of_pointer : Option T → Any V
  of_pointer none = nil_pointer
  of_pointer (some t) = pointer (value (inject t))

  -- For each of the conversions, whose bodies are `to_null` and `to_pointer` at its type: a pointer, nil
  -- or not, comes back from the nullable column that it is turned into; a value comes back as a pointer to
  -- it, and nil as a nil pointer.
  to_pointer-to_null :
      (zero_value : T) (scan : Any V → Null T → Null T × Error)
      → ScanLaws inject scan
      → (p : Option T) (t : T)
      → (to_pointer (to_null zero_value scan (of_pointer p)) ≡ p)
        × (to_pointer (to_null zero_value scan (value (inject t))) ≡ some t)
        × (to_pointer (to_null zero_value scan nothing) ≡ none)
  unfolding to_pointer to_null
  to_pointer-to_null zero_value scan laws p t =
      let n : Null T = record { content = zero_value; valid = false } in
      let null =
        ap (λ (b : Bool). if b then some (scan nothing n).0.content else none) (laws.null n) in
      let own : (u : T) → to_pointer (scan (value (inject u)) n).0 ≡ some u =
        λ u. ap (λ (r : Null T × Error). to_pointer r.0) (laws.own u n) in
      (
        elim p as (λ q. to_pointer (to_null zero_value scan (of_pointer q)) ≡ q) [
          | none ↦ null
          | some u ↦ own u
        ],
        own t,
        null,
      )
