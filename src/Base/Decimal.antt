-- ===== src/Base/Decimal.antt =====
-- `strconv.FormatInt(v, 10)`, `strconv.ParseUint(s, 10, bits)` and `strconv.ParseInt(s, 10, bits)`
-- of Go's standard library, which util/convertor/convertor.go and xxl/util.go call.
use foundation_framework.Base.Tests.{ltb, ◌==◌, if◌then◌else◌, lt→ltb}
use foundation_framework.Base.Int.{ℤ, pos, negsuc, IsInt64}
use Prim.Native.Nat.{ℕ, zero, suc, ◌+◌, ◌-◌, ◌*◌, ◌/◌, ◌%◌, ◌^◌, ◌≤◌, ◌<◌}
use Prim.Native.Char.{Char, code}
use Prim.Native.String.{String, [], ◌∷◌}
use mathlib.Core.Path.{◌≡◌, refl, ap, ◌∙◌}
use mathlib.Core.Bool.{Bool, true, false, ◌||◌}
use mathlib.Core.Logic.{dite, dif_pos, dif_neg}
use mathlib.Core.Option.{Option, none, some}
use mathlib.Core.WellFounded.{Acc, WellFounded}
use native.Mathlib.Bridge.{le_prop}
use native.Mathlib.Decide.{dec_lt}
use native.Mathlib.Omega.{arith}

abbrev digit : ℕ → Char
digit zero = "0"
digit (suc zero) = "1"
digit (suc (suc zero)) = "2"
digit (suc (suc (suc zero))) = "3"
digit (suc (suc (suc (suc zero)))) = "4"
digit (suc (suc (suc (suc (suc zero))))) = "5"
digit (suc (suc (suc (suc (suc (suc zero)))))) = "6"
digit (suc (suc (suc (suc (suc (suc (suc zero))))))) = "7"
digit (suc (suc (suc (suc (suc (suc (suc (suc zero)))))))) = "8"
digit _ = "9"

Acc-below : (k n : ℕ) → n < k → Acc ◌<◌ n
Acc-below zero n h = elim h [ ]
Acc-below (suc k) n h = Acc.intro n (λ m lt. Acc-below k m (omega arith))

lt_wf : WellFounded ◌<◌
unfolding Acc-below
lt_wf = record { apply = λ n. Acc-below (suc n) n (omega arith) }

tenth-lt : {n : ℕ} → 9 < n → n / 10 < n
tenth-lt h = omega arith

-- The digits of `n`, before `out`.
emit : (n : ℕ) → Acc ◌<◌ n → String → String
emit n (Acc.intro _ smaller) out =
    dite (dec_lt 9 n) (λ h. emit (n / 10) (smaller (n / 10) (tenth-lt h)) (digit (n % 10) ∷ out))
      (λ _. digit n ∷ out)

unfoldable pub format_uint : ℕ → String
unfolding emit lt_wf dec_lt tenth-lt
format_uint n = emit n (lt_wf.apply n) []

-- `strconv.FormatInt(v, 10)`, and `strconv.Itoa`.
unfoldable pub format_int : ℤ → String
unfolding format_uint
format_int (pos n) = format_uint n
format_int (negsuc n) = "-" ∷ format_uint (suc n)

-- The `Err` of a `*NumError`.
pub data NumError : Type 0 where
  syntax out_of_range : NumError

-- The loop of `ParseUint` in base 10: the value, or the error with the value returned beside it.
scan : ℕ → String → ℕ → ℕ × Option NumError
scan bits [] n = (n, none)
scan bits (c ∷ s) n =
    let d = code c - b'0' in
    let rest = scan bits s (n * 10 + d) in
    if ltb (code c) b'0' || ltb b'9' (code c)
    then (0, some syntax)
    else if ltb (n * 10 + d) (2 ^ bits)
    then rest
    else (2 ^ bits - 1, some out_of_range)

unfoldable pub parse_uint : String → ℕ → ℕ × Option NumError
unfolding scan
parse_uint [] bits = (0, some syntax)
parse_uint (c ∷ s) bits = scan bits (c ∷ s) 0

-- The sign is applied after the cut at `1 << (bits - 1)`; a syntax error returns 0.
signed : Bool → ℕ → ℕ × Option NumError → ℤ × Option NumError
signed neg bits (un, some syntax) = (pos 0, some syntax)
signed true bits (un, e) =
    if ltb (2 ^ (bits - 1)) un
    then (negsuc (2 ^ (bits - 1) - 1), some out_of_range)
    else (if ltb 0 un then negsuc (un - 1) else pos 0, e)
signed false bits (un, e) =
    if ltb un (2 ^ (bits - 1)) then (pos un, e) else (pos (2 ^ (bits - 1) - 1), some out_of_range)

unfoldable pub parse_int : String → ℕ → ℤ × Option NumError
unfolding parse_uint signed
parse_int [] bits = (pos 0, some syntax)
parse_int (c ∷ s) bits =
    if code c == b'-'
    then signed true bits (parse_uint s bits)
    else if code c == b'+'
    then signed false bits (parse_uint s bits)
    else signed false bits (parse_uint (c ∷ s) bits)

-- A digit is read back: no range error while the value stays below `2 ^ bits`.
scan-digit :
    (bits d : ℕ) (s : String) (n : ℕ)
    → d ≤ 9
    → n * 10 + d < 2 ^ bits
    → scan bits (digit d ∷ s) n ≡ scan bits s (n * 10 + d)
unfolding scan
scan-digit bits zero s n h k = rw (lt→ltb _ _ k)
scan-digit bits (suc zero) s n h k = rw (lt→ltb _ _ k)
scan-digit bits (suc (suc zero)) s n h k = rw (lt→ltb _ _ k)
scan-digit bits (suc (suc (suc zero))) s n h k = rw (lt→ltb _ _ k)
scan-digit bits (suc (suc (suc (suc zero)))) s n h k = rw (lt→ltb _ _ k)
scan-digit bits (suc (suc (suc (suc (suc zero))))) s n h k = rw (lt→ltb _ _ k)
scan-digit bits (suc (suc (suc (suc (suc (suc zero)))))) s n h k = rw (lt→ltb _ _ k)
scan-digit bits (suc (suc (suc (suc (suc (suc (suc zero))))))) s n h k = rw (lt→ltb _ _ k)
scan-digit bits (suc (suc (suc (suc (suc (suc (suc (suc zero)))))))) s n h k = rw (lt→ltb _ _ k)
scan-digit bits (suc (suc (suc (suc (suc (suc (suc (suc (suc zero))))))))) s n h k =
    rw (lt→ltb _ _ k)
scan-digit bits (suc (suc (suc (suc (suc (suc (suc (suc (suc (suc d)))))))))) s n h k =
    absurd (omega arith)

scan-emit :
    (bits n : ℕ) (w : Acc ◌<◌ n) (out : String)
    → n < 2 ^ bits
    → scan bits (emit n w out) 0 ≡ scan bits out n
unfolding emit
scan-emit bits n (Acc.intro _ smaller) out h = elim (dec_lt 9 n) [
  | yes p ↦ rw (dif_pos _ le_prop p) (
      scan-emit bits (n / 10) (smaller (n / 10) (tenth-lt p)) (digit (n % 10) ∷ out) (omega arith)
      ∙ (scan-digit bits (n % 10) out (n / 10) (omega arith) (omega arith)
          ∙ ap (scan bits out) (omega arith)))
  | no p ↦
      rw (dif_neg _ p)
        (scan-digit bits n out 0 (omega arith) (omega arith) ∙ ap (scan bits out) (omega arith))
]

-- What is printed starts with a digit, so the sign tests of the parsers fail on it.
abbrev StartsDigit : String → Type 0
StartsDigit [] = ⊥
StartsDigit (c ∷ s) = (47 < code c) × (code c < 58)

digit-code : (d : ℕ) → (47 < code (digit d)) × (code (digit d) < 58)
digit-code zero = omega arith
digit-code (suc zero) = omega arith
digit-code (suc (suc zero)) = omega arith
digit-code (suc (suc (suc zero))) = omega arith
digit-code (suc (suc (suc (suc zero)))) = omega arith
digit-code (suc (suc (suc (suc (suc zero))))) = omega arith
digit-code (suc (suc (suc (suc (suc (suc zero)))))) = omega arith
digit-code (suc (suc (suc (suc (suc (suc (suc zero))))))) = omega arith
digit-code (suc (suc (suc (suc (suc (suc (suc (suc zero)))))))) = omega arith
digit-code (suc (suc (suc (suc (suc (suc (suc (suc (suc d))))))))) = omega arith

emit-StartsDigit : (n : ℕ) (w : Acc ◌<◌ n) (out : String) → StartsDigit (emit n w out)
unfolding emit
emit-StartsDigit n (Acc.intro _ smaller) out = elim (dec_lt 9 n) [
  | yes p ↦
      rw (dif_pos _ le_prop p)
        (emit-StartsDigit (n / 10) (smaller (n / 10) (tenth-lt p)) (digit (n % 10) ∷ out))
  | no p ↦ rw (dif_neg _ p) (digit-code n)
]

parse_uint-scan : (s : String) (bits : ℕ) → StartsDigit s → parse_uint s bits ≡ scan bits s 0
unfolding parse_uint
parse_uint-scan [] bits h = absurd h
parse_uint-scan (c ∷ s) bits h = refl

-- Printing and parsing an unsigned number of `bits` bits gives it back.
pub parse_uint-format_uint :
    (n bits : ℕ) → n < 2 ^ bits → parse_uint (format_uint n) bits ≡ (n, none)
unfolding format_uint
parse_uint-format_uint n bits h =
    parse_uint-scan _ bits (emit-StartsDigit n (lt_wf.apply n) [])
    ∙ (scan-emit bits n (lt_wf.apply n) [] h ∙ (unfold scan in refl))

parse_int-unsigned :
    (s : String) (bits : ℕ)
    → StartsDigit s
    → parse_int s bits ≡ signed false bits (parse_uint s bits)
unfolding parse_int
parse_int-unsigned [] bits h = absurd h
parse_int-unsigned (c ∷ s) bits h = ground arith

-- `strconv.ParseInt(strconv.FormatInt(v, 10), 10, 64)` is `v` with no error, for every int64.
pub parse_int-format_int : (v : ℤ) → IsInt64 v → parse_int (format_int v) 64 ≡ (v, none)
unfolding format_int signed
parse_int-format_int (pos n) h =
    parse_int-unsigned (format_uint n) 64
      (unfold format_uint in emit-StartsDigit n (lt_wf.apply n) [])
    ∙ (rw (parse_uint-format_uint n 64 (omega arith)) (ground arith))
parse_int-format_int (negsuc n) h =
    unfold parse_int in rw (parse_uint-format_uint (suc n) 64 (omega arith)) (ground arith)

-- Two numbers of an int64 with one decimal form are equal: `Int64ToStr` makes distinct map keys.
pub format_int_inj : (v w : ℤ) → IsInt64 v → IsInt64 w → format_int v ≡ format_int w → v ≡ w
format_int_inj v w hv hw e =
    cc (parse_int-format_int v hv, parse_int-format_int w hw, ap (λ (s : String). parse_int s 64) e)
