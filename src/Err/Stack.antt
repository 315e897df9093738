-- ===== src/Err/Stack.antt =====
-- `GetStackTrace` and `callers` of err/err.go. The goroutine's frames are an argument: the list
-- that `runtime.Callers` numbers from 0 (itself) upwards.
pub mod Bounds
use foundation_framework.Base.{
  ℕ, suc, zero, ◌+◌, ◌≤◌, ◌<◌, String, ◌≡◌, refl, List, [], ◌∷◌, map, length, take, drop,
  length-take, length-drop, arith, code, ◌==◌, if◌then◌else◌, min,
}
use foundation_framework.Base.Decimal.{format_uint}
use Prim.Native.String.{◌++◌ as text_append}

pub record Frame : Type 0 where
  pub file : String
  pub line : ℕ

-- `pcs[0:n]` of `runtime.Callers(4+skip, pcs[:])`, with room for 32.
unfoldable pub callers : ℕ → List Frame → List Frame
callers skip stack = take 32 (drop (4 + skip) stack)

-- `filepath.Split(path)`'s second result: what follows the last slash.
base_from : String → String → String
base_from cur String.[] = cur
base_from cur (String.◌∷◌ c s) =
    base_from (if code c == b'/' then "" else text_append cur (String.◌∷◌ c String.[])) s

infixr 65 ◌<>◌
abbrev ◌<>◌ : String → String → String
s <> t = text_append s t

-- The text that one round of the loop writes.
frame_text : Frame → String
unfolding base_from
frame_text f =
    "    at " <> f.file <> " ( " <> base_from "" f.file <> ":" <> format_uint f.line <> " )\n"

-- The loop over `frames.Next()`. With no frame at all `Next` returns the zero frame, once.
frame_lines : List Frame → List String
unfolding frame_text
frame_lines [] = frame_text (record { file = ""; line = 0 }) ∷ []
frame_lines (f ∷ []) = frame_text f ∷ []
frame_lines (f ∷ g ∷ fs) = frame_text f ∷ frame_lines (g ∷ fs)

concat : List String → String
concat [] = ""
concat (s ∷ ss) = s <> concat ss

unfoldable pub trace_lines : ℕ → List Frame → List String
unfolding frame_lines callers
trace_lines skip stack = frame_lines (callers skip stack)

unfoldable pub get_stack_trace : ℕ → List Frame → String
unfolding trace_lines concat
get_stack_trace skip stack = "\n" <> concat (trace_lines skip stack)
