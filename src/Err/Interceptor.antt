-- ===== src/Err/Interceptor.antt =====
-- `ErrorInterceptor` of err/biz/biz.go. `status_error` is gRPC's `status.Error`; `codes.Code` is a
-- uint32 and `Error.Code` an int32, so the two conversions are written out.
use foundation_framework.Base.{
  ℕ, ◌-◌, ◌%◌, ◌^◌, ◌<◌, String, ◌≡◌, Option, none, some, arith, ltb, if◌then◌else◌,
}
use foundation_framework.Base.Int.{ℤ, pos, negsuc}
use foundation_framework.Err.{Error, Fields}
use foundation_framework.Err.Biz.{is_biz_error_or_cause}

-- `uint32(x)` of an int32, and `int32(x)` of a uint32.
unfoldable pub to_u32 : ℤ → ℕ
to_u32 (pos n) = n % 2 ^ 32
to_u32 (negsuc n) = 2 ^ 32 - 1 - n % 2 ^ 32

unfoldable pub to_i32 : ℕ → ℤ
to_i32 n = if ltb n (2 ^ 31) then pos n else negsuc (2 ^ 32 - 1 - n)

abbrev pub IsInt32 : ℤ → Type 0
IsInt32 (pos n) = n < 2 ^ 31
IsInt32 (negsuc n) = n < 2 ^ 31

-- A code survives the two conversions.
pub to_i32-to_u32 : (c : ℤ) → IsInt32 c → to_i32 (to_u32 c) ≡ c
unfolding to_i32 to_u32
to_i32-to_u32 (pos n) h = ground arith
to_i32-to_u32 (negsuc n) h = ground arith

module _ (status_error : ℕ → String → Error) where
  -- `if b { err = status.Error(codes.Code(bizErr.Code), bizErr.Error()) }`
  unfoldable pub to_status : Option Fields → Error → Error
  to_status (some f) err = status_error (to_u32 f.code) f.message
  to_status none err = err

  -- The handler's response and error, as the interceptor returns them.
  unfoldable pub error_interceptor : {R : Type 0} → R × Error → R × Error
  unfolding to_status
  error_interceptor (resp, err) = (resp, to_status (is_biz_error_or_cause err) err)
