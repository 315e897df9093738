-- ===== src/Handler/GrpcBoundary.antt =====
-- A business error across gRPC: `ErrorInterceptor` on the server, `ExceptionFail` on the client.
use foundation_framework.Base.{
  ℕ, zero, suc, String, ◌≡◌, ◌≢◌, refl, ap, Bool, true, false, none, arith,
}
use foundation_framework.Base.Int.{ℤ, pos, negsuc}
use foundation_framework.Err.{Error, Fields}
use foundation_framework.Err.Biz.{is_biz_error_or_cause}
use foundation_framework.Err.Chain.{FirstBiz, is_biz_error_or_cause-FirstBiz}
use foundation_framework.Err.Interceptor.{to_u32, IsInt32, to_i32-to_u32, error_interceptor}
use foundation_framework.Handler.HttpResult.{
  StandardResult, Status, server_error, exception_fail, biz_fail,
}

-- What the framework relies on of google.golang.org/grpc/status: a status error made with a code
-- other than OK reads back as its code and message, and is not one of the framework's errors.
pub record StatusLaws (status_error : ℕ → String → Error) (from_error : Error → Status × Bool)
    : Type 0 where
  pub reads_back :
      (code : ℕ) (message : String)
      → code ≢ 0
      → from_error (status_error code message) ≡ (record { code = code; message = message }, true)
  pub no_biz :
      (code : ℕ) (message : String) → is_biz_error_or_cause (status_error code message) ≡ none

u32-zero : (c : ℤ) → IsInt32 c → c ≢ pos 0 → to_u32 c ≢ 0
unfolding to_u32
u32-zero (pos zero) h ne e = ne refl
u32-zero (pos (suc n)) h ne e = omega arith
u32-zero (negsuc n) h ne e = omega arith

u32-unknown : (c : ℤ) → IsInt32 c → c ≢ pos 2 → to_u32 c ≢ 2
unfolding to_u32
u32-unknown (pos n) h ne e = ne (ap pos (omega arith))
u32-unknown (negsuc n) h ne e = omega arith

-- The result that a client makes of an error that its server's interceptor has sent.
abbrev pub received :
    (ℕ → String → Error) → (Error → Status × Bool) → {R D : Type 0} → R → Error → StandardResult D
received status_error from_error r e =
    exception_fail from_error (error_interceptor status_error (r, e)).1

module _ (status_error : ℕ → String → Error) (from_error : Error → Status × Bool)
    (laws : StatusLaws status_error from_error) {R : Type 0} (D : Type 0) where
  -- The first business error on the chain of the server's error reaches the HTTP result of the
  -- client with its code and message, where the code is an int32 other than 0 and 2.
  pub exception_fail-error_interceptor :
      (r : R) (e : Error) (f : Fields)
      → FirstBiz e f
      → IsInt32 f.code
      → f.code ≢ pos 0
      → f.code ≢ pos 2
      → received status_error from_error {D = D} r e
        ≡ record { state = false; message = f.message; result = none; code = f.code }
  unfolding exception_fail error_interceptor biz_fail
  exception_fail-error_interceptor r e f first range ok known =
      rw ((is_biz_error_or_cause-FirstBiz e f).1 first) (
        rw (laws.reads_back (to_u32 f.code) f.message (u32-zero f.code range ok))
          (ground (arith, u32-unknown f.code range known, to_i32-to_u32 f.code range)))

  -- With code 2, gRPC's Unknown, the client answers with the general server error instead: the
  -- message of the business error is lost.
  exception_fail_unknown :
      (r : R) (e : Error) (f : Fields)
      → FirstBiz e f
      → f.code ≡ pos 2
      → received status_error from_error {D = D} r e
        ≡ record { state = false; message = server_error; result = none; code = pos 500 }
  unfolding exception_fail error_interceptor to_u32 biz_fail
  exception_fail_unknown r e f first two =
      rw ((is_biz_error_or_cause-FirstBiz e f).1 first)
        (rw two (rw (laws.reads_back 2 f.message (omega arith)) (rw (laws.no_biz 2 f.message))))
