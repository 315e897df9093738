-- ===== src/Tests/Errors.antt =====
-- The error chain and the HTTP results at concrete inputs.
use foundation_framework.Base.{
  ℕ, String, ◌≡◌, ◌↔◌, refl, Bool, true, false, none, some, [], ◌∷◌, arith,
}
use foundation_framework.Base.Int.{pos}
use foundation_framework.Base.Decimal.{format_uint}
use foundation_framework.Err.{Error, Fields, nil, biz, comm, status}
use foundation_framework.Err.Stack.{Frame, trace_lines, get_stack_trace}
use foundation_framework.Err.Biz.{is_biz_error_or_cause}
use foundation_framework.Err.Chain.{FirstBiz, here, below, is_biz_error_or_cause-FirstBiz}
use foundation_framework.Handler.HttpResult.{Status, exception_fail}
use foundation_framework.Handler.Disclosure.{Disclosed, IsFailure, exception_fail-Disclosed}
use foundation_framework.Handler.GrpcBoundary.{
  StatusLaws, received, exception_fail-error_interceptor,
}

abbrev fields : ℕ → String → Fields
fields code message = record { state = false; code = pos code; message = message; stack_trace = "" }

-- A business error wrapped twice by `comm.Error`s.
abbrev wrapped : Error
wrapped =
    comm (fields 500 "call failed") (comm (fields 500 "retry") (biz (fields 1001 "no stock") nil))

is_biz_error_or_cause-FirstBiz_example :
    (is_biz_error_or_cause wrapped ≡ some (fields 1001 "no stock"))
    ↔ FirstBiz wrapped (fields 1001 "no stock")
is_biz_error_or_cause-FirstBiz_example =
    is_biz_error_or_cause-FirstBiz wrapped (fields 1001 "no stock")

abbrev frame : Frame
frame = record { file = "/app/main.go"; line = 10 }

trace_text :
    get_stack_trace 0 (frame ∷ frame ∷ frame ∷ frame ∷ frame ∷ [])
    ≡ "\n    at /app/main.go ( main.go:10 )\n"
unfolding get_stack_trace trace_lines format_uint
trace_text = refl

-- gRPC's status package, as far as the theorems use it.
abbrev status_error : ℕ → String → Error
status_error code message = status code message message

abbrev from_error : Error → Status × Bool
from_error (status code message text) = (record { code = code; message = message }, true)
from_error _ = (record { code = 2; message = "" }, false)

status_laws : StatusLaws status_error from_error
unfolding is_biz_error_or_cause
status_laws = record { reads_back = λ code message ne. refl; no_biz = λ code message. refl }

exception_fail-Disclosed_example :
    Disclosed from_error wrapped (exception_fail from_error {D = ℕ} wrapped)
    × IsFailure (exception_fail from_error {D = ℕ} wrapped)
exception_fail-Disclosed_example = exception_fail-Disclosed from_error ℕ wrapped

exception_fail-error_interceptor_example :
    received status_error from_error {R = ℕ} {D = ℕ} 0 wrapped
    ≡ record { state = false; message = "no stock"; result = none; code = pos 1001 }
exception_fail-error_interceptor_example =
    exception_fail-error_interceptor status_error from_error status_laws ℕ 0 wrapped
      (fields 1001 "no stock") (below (below here)) (omega arith) (λ e. ground arith)
      (λ e. ground arith)
