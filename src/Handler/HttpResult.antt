-- ===== src/Handler/HttpResult.antt =====
-- handler/http_result.go, and `Response`, `ResponseOriginal` and `GlobalErrorMiddleware` of
-- handler/handler.go. gRPC's `status.FromError` is the parameter `from_error`: the code and message
-- of the status, and whether the error has one.
use foundation_framework.Base.{
  ℕ, String, Bool, true, false, Option, none, some, ◌==◌, if◌then◌else◌, List, [], ◌∷◌, ◌++◌,
}
use foundation_framework.Base.Int.{ℤ, pos}
use foundation_framework.Err.{Error, Fields, nil}
use foundation_framework.Err.Biz.{is_biz_error_or_cause}
use foundation_framework.Err.Interceptor.{to_i32}

abbrev pub server_error : String
server_error = "抱歉，系统繁忙，请稍后重试！"

-- `Data` is left at its zero value, nil, in a failure.
pub record StandardResult (D : Type 0) : Type 0 where
  pub state : Bool
  pub message : String
  pub result : Option D
  pub code : ℤ

-- A gRPC status: its code, a uint32, and its message.
pub record Status : Type 0 where
  pub code : ℕ
  pub message : String

-- `codes.Unknown`
abbrev pub unknown : ℕ
unknown = 2

-- The value that a handler returns: a `standardResult`, or any other.
pub data Value (D : Type 0) : Type 0 where
  standard : StandardResult D → Value D
  original : D → Value D

module _ {D : Type 0} where
  unfoldable pub ok : D → StandardResult D
  ok d = record { state = true; message = "操作成功"; result = some d; code = pos 200 }

  unfoldable pub fail : StandardResult D
  fail = record { state = false; message = "操作失败"; result = none; code = pos 500 }

  unfoldable pub custom_fail : ℤ → String → StandardResult D
  custom_fail code message = record { state = false; message = message; result = none; code = code }

-- The part of `ExceptionFail` below the test of the status.
unfoldable pub biz_fail : {D : Type 0} → Option Fields → StandardResult D
biz_fail (some f) = record { state = false; message = f.message; result = none; code = f.code }
biz_fail none = record { state = false; message = server_error; result = none; code = pos 500 }

module _ (from_error : Error → Status × Bool) {D : Type 0} where
  unfoldable pub exception_fail : Error → StandardResult D
  unfolding biz_fail
  exception_fail e =
      let (s, is_status) = from_error e in
      if is_status
      then (if s.code == unknown
          then biz_fail (is_biz_error_or_cause e)
          else record { state = false; message = s.message; result = none; code = to_i32 s.code })
      else biz_fail (is_biz_error_or_cause e)

  -- What `httpx.OkJsonCtx` is called with.
  unfoldable pub response : Value D → Error → StandardResult D
  unfolding exception_fail ok
  response v nil = elim v [ standard r ↦ r | original d ↦ ok d ]
  response v err = exception_fail err

  unfoldable pub response_original : D → Error → Value D
  unfolding exception_fail
  response_original d nil = original d
  response_original d err = standard (exception_fail err)

-- A handler returns, having written its response, or panics; what it had written is kept.
pub data Outcome : Type 0 where
  returned panicked : Outcome

module _ {D : Type 0} where
  -- `GlobalErrorMiddleware(next)`: the responses written, in order.
  unfoldable pub global_error_middleware :
      List (StandardResult D) × Outcome → List (StandardResult D) × Outcome
  global_error_middleware (written, returned) = (written, returned)
  global_error_middleware (written, panicked) = (
    written ++ record { state = false; message = server_error; result = none; code = pos 500 } ∷ [],
    returned,
  )
