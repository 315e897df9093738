-- ===== src/Err.antt =====
-- The errors of the framework: err/err.go, and the `Error` structs of err/biz/biz.go and
-- err/comm/error.go. A Go `error` is a value of `Error`, with a constructor for each dynamic type
-- that the framework tells apart; every other library's error is `plain`, known by its text only.
pub mod Stack
pub mod Biz
pub mod Comm
pub mod Chain
pub mod Interceptor
use foundation_framework.Base.{
  ◌≡◌, refl, ◌⊎◌, inl, inr, ℕ, String, Bool, true, false, Option, none, some, if◌then◌else◌, List,
  [], ◌∷◌, ◌++◌,
}
use foundation_framework.Base.Int.{ℤ}
use Prim.Native.String.{◌++◌ as text_append}

-- The fields of `biz.Error` and `comm.Error` but the cause.
pub record Fields : Type 0 where
  pub state : Bool
  pub code : ℤ
  pub message : String
  pub stack_trace : String

-- `nil` is the nil interface. `status` is a gRPC status error: its code, message and text.
-- `response` is jsonrpc's `ResponseError`: code, message, details.
pub data Error : Type 0 where
  nil : Error
  biz : Fields → Error → Error
  comm : Fields → Error → Error
  response : ℤ → String → String → Error
  status : ℕ → String → String → Error
  plain : String → Error

-- `err == nil`
abbrev pub is_nil : Error → Bool
is_nil nil = true
is_nil (biz f e) = false
is_nil (comm f e) = false
is_nil (response c s t) = false
is_nil (status c s t) = false
is_nil (plain s) = false

pub nil-cases : (e : Error) → (e ≡ nil) ⊎ (is_nil e ≡ false)
nil-cases nil = inl refl
nil-cases (biz f e) = inr refl
nil-cases (comm f e) = inr refl
nil-cases (response c s t) = inr refl
nil-cases (status c s t) = inr refl
nil-cases (plain s) = inr refl

infixr 65 ◌<>◌
-- `+` of two Go strings
abbrev pub ◌<>◌ : String → String → String
s <> t = text_append s t

-- `err != nil`
abbrev pub not_nil : Error → Bool
not_nil nil = false
not_nil _ = true

-- The method `Error()`. Calling it on the nil interface panics; no caller here does.
unfoldable pub error_text : Error → String
error_text nil = ""
error_text (biz f c) = f.message
error_text (comm f c) = f.message
error_text (response code message details) = message <> " -> " <> details
error_text (status code message text) = text
error_text (plain text) = text

-- `any`, as `Wrap` and `WrapWithSkip` tell its values apart: an `error`, or a value known by what
-- `fmt.Sprintf("%v", obj)` prints for it.
pub data Any : Type 0 where
  error : Error → Any
  value : String → Any

-- `obj.(err.IError)`: the message, where the assertion holds. Both structs have the methods.
unfoldable pub as_ierror : Error → Option String
as_ierror (biz f c) = some f.message
as_ierror (comm f c) = some f.message
as_ierror _ = none

-- `e.(err.ICause)`: what `GetCause()` returns, where the assertion holds.
unfoldable pub as_icause : Error → Option Error
as_icause (biz f c) = some c
as_icause (comm f c) = some c
as_icause _ = none

-- `GetFullStructPath` of the two error structs.
abbrev pub biz_path : String
biz_path = "github.com/easy-golang/foundation-framework/err/biz.Error"

abbrev pub comm_path : String
comm_path = "github.com/easy-golang/foundation-framework/err/comm.Error"

-- `String(err IError)`. Where the cause is no `IError`, `causeError` is the zero value of the
-- failed assertion, nil: nothing more is written. On another error than the two structs it is not
-- called.
unfoldable pub string : Error → String
string (biz f c) = biz_path <> ":" <> f.message <> f.stack_trace <> string c
string (comm f c) = comm_path <> ":" <> f.message <> f.stack_trace <> string c
string _ = ""
