-- ===== src/Err/Comm.antt =====
-- err/comm/error.go: the constructors of `comm.Error`. `stack` is the goroutine's stack, as
-- `runtime.Callers` sees it, and `sprintf` is `fmt.Sprintf`.
use foundation_framework.Base.{ℕ, String, false, Option, none, some, List}
use foundation_framework.Base.Int.{ℤ, pos}
use foundation_framework.Err.{
  Error, Fields, nil, biz, comm, Any, error, value, as_ierror, error_text,
}
use foundation_framework.Err.Stack.{Frame, get_stack_trace}

-- `Error{Code: code, Message: message, StackTrace: err.GetStackTrace(skip)}` with `Cause` set.
make : ℤ → String → ℕ → List Frame → Error → Error
make code message skip stack cause =
    comm
      (record {
        state = false;
        code = code;
        message = message;
        stack_trace = get_stack_trace skip stack;
      })
      cause

module _ (stack : List Frame) where
  unfoldable pub new : String → Error
  unfolding make
  new message = make (pos 500) message 0 stack nil

  unfoldable pub new_code : ℤ → String → Error
  unfolding make
  new_code code message = make code message 0 stack nil

  -- An `IError` and a plain `error` become the cause; another value only its text.
  unfoldable pub wrap : Any → Error
  unfolding make as_ierror error_text
  wrap (error nil) = make (pos 500) "<nil>" 0 stack nil
  wrap (error e) = elim (as_ierror e) [
    | some message ↦ make (pos 500) message 0 stack e
    | none ↦ make (pos 500) (error_text e) 0 stack e
  ]
  wrap (value text) = make (pos 500) text 0 stack nil

  unfoldable pub wrap_new : String → Error → Error
  unfolding make
  wrap_new message e = make (pos 500) message 0 stack e

  unfoldable pub wrap_new_code : String → ℤ → Error → Error
  unfolding make
  wrap_new_code message code e = make code message 0 stack e

  unfoldable pub new_with_skip : String → ℕ → Error
  unfolding make
  new_with_skip message skip = make (pos 500) message skip stack nil

  unfoldable pub new_code_with_skip : ℤ → String → ℕ → Error
  unfolding make
  new_code_with_skip code message skip = make code message skip stack nil

  -- Unlike `wrap` it takes the message by `Error()`, the same text for the two structs.
  unfoldable pub wrap_with_skip : Any → ℕ → Error
  unfolding make error_text
  wrap_with_skip (error nil) skip = make (pos 500) "<nil>" skip stack nil
  wrap_with_skip (error e) skip = make (pos 500) (error_text e) skip stack e
  wrap_with_skip (value text) skip = make (pos 500) text skip stack nil

  unfoldable pub wrap_new_with_skip : String → Error → ℕ → Error
  unfolding make
  wrap_new_with_skip message e skip = make (pos 500) message skip stack e

  unfoldable pub wrap_new_code_with_skip : String → ℤ → Error → ℕ → Error
  unfolding make
  wrap_new_code_with_skip message code e skip = make code message skip stack e

module _ (sprintf : String → List Any → String) (stack : List Frame) where
  unfoldable pub newf : String → List Any → Error
  unfolding make
  newf format args = make (pos 500) (sprintf format args) 0 stack nil

  unfoldable pub new_codef : ℤ → String → List Any → Error
  unfolding make
  new_codef code format args = make code (sprintf format args) 0 stack nil

  unfoldable pub wrap_newf : Error → String → List Any → Error
  unfolding make
  wrap_newf e format args = make (pos 500) (sprintf format args) 0 stack e

  unfoldable pub wrap_new_codef : Error → ℤ → String → List Any → Error
  unfolding make
  wrap_new_codef e code format args = make code (sprintf format args) 0 stack e

  unfoldable pub new_with_skipf : ℕ → String → List Any → Error
  unfolding make
  new_with_skipf skip format args = make (pos 500) (sprintf format args) skip stack nil

  unfoldable pub new_code_with_skipf : ℤ → ℕ → String → List Any → Error
  unfolding make
  new_code_with_skipf code skip format args = make code (sprintf format args) skip stack nil

  unfoldable pub wrap_new_with_skipf : Error → ℕ → String → List Any → Error
  unfolding make
  wrap_new_with_skipf e skip format args = make (pos 500) (sprintf format args) skip stack e

  unfoldable pub wrap_new_code_with_skipf : Error → ℤ → ℕ → String → List Any → Error
  unfolding make
  wrap_new_code_with_skipf e code skip format args = make code (sprintf format args) skip stack e

-- `IsCommonErrorOrCause`: the first `comm.Error` on the chain of causes.
unfoldable pub is_common_error_or_cause : Error → Option Fields
is_common_error_or_cause (comm f c) = some f
is_common_error_or_cause (biz f c) = is_common_error_or_cause c
is_common_error_or_cause _ = none
