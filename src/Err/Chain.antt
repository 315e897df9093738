-- ===== src/Err/Chain.antt =====
-- The chain of causes: what `IsBizErrorOrCause`, `IsCommonErrorOrCause`, `Wrap` and `String` make
-- of it, and the length of a stack trace.
use foundation_framework.Base.{some_inj, String, ◌≡◌, ◌≢◌, ◌↔◌, refl, some, List}
use foundation_framework.Err.{
  Error, Fields, nil, biz, comm, response, status, plain, error, error_text, string,
}
use mathlib.Core.Path.{subst}
use foundation_framework.Err.Stack.{Frame}
use foundation_framework.Err.Biz.{is_biz_error_or_cause}
use foundation_framework.Err.Comm
use foundation_framework.Err.Comm.{is_common_error_or_cause}

-- `f` are the fields of the first `biz.Error` on the chain of causes of the error.
pub data FirstBiz : Error → Fields → Type 0 where
  here : {f : Fields} {c : Error} → FirstBiz (biz f c) f
  below : {g : Fields} {c : Error} {f : Fields} → FirstBiz c f → FirstBiz (comm g c) f

found : (e : Error) (f : Fields) → is_biz_error_or_cause e ≡ some f → FirstBiz e f
unfolding is_biz_error_or_cause
found (biz g c) f h = subst (FirstBiz (biz g c)) (some_inj h) here
found (comm g c) f h = below (found c f h)
found nil f h = absurd (cc)
found (response a b c) f h = absurd (cc)
found (status a b c) f h = absurd (cc)
found (plain t) f h = absurd (cc)

finds : {e : Error} {f : Fields} → FirstBiz e f → is_biz_error_or_cause e ≡ some f
unfolding is_biz_error_or_cause
finds here = refl
finds (below h) = finds h

-- `IsBizErrorOrCause` returns fields exactly when they are those of the first `biz.Error` on the
-- chain of causes, at any depth.
pub is_biz_error_or_cause-FirstBiz :
    (e : Error) (f : Fields) → (is_biz_error_or_cause e ≡ some f) ↔ FirstBiz e f
is_biz_error_or_cause-FirstBiz e f = (found e f, finds)

-- Wrapping a non-nil error by `comm.Wrap` keeps its text, the `biz.Error` that is found on its
-- chain, and the chain itself as the cause, which `comm.Error`s hide nothing of.
comm_wrap_transparent :
    (stack : List Frame) (e : Error)
    → e ≢ nil
    → (error_text (Comm.wrap stack (error e)) ≡ error_text e)
      × (is_biz_error_or_cause (Comm.wrap stack (error e)) ≡ is_biz_error_or_cause e)
unfolding Comm.wrap error_text is_biz_error_or_cause
comm_wrap_transparent stack nil h = absurd (h refl)
comm_wrap_transparent stack (biz f c) h = (refl, refl)
comm_wrap_transparent stack (comm f c) h = (refl, refl)
comm_wrap_transparent stack (response a b c) h = (refl, refl)
comm_wrap_transparent stack (status a b c) h = (refl, refl)
comm_wrap_transparent stack (plain t) h = (refl, refl)

-- The chain of `e` with the error below its last `biz.Error` or `comm.Error` replaced.
abbrev pub with_root : Error → Error → Error
with_root (biz f c) root = biz f (with_root c root)
with_root (comm f c) root = comm f (with_root c root)
with_root _ root = root

-- `String` writes nothing of a root cause that is another library's error: it prints the same text
-- as if the chain had no such cause.
string-drops_root :
    (e : Error) (text : String) → string (with_root e (plain text)) ≡ string (with_root e nil)
unfolding string
string-drops_root (biz f c) text = rw (string-drops_root c text)
string-drops_root (comm f c) text = rw (string-drops_root c text)
string-drops_root nil text = refl
string-drops_root (response a b c) text = refl
string-drops_root (status a b c) text = refl
string-drops_root (plain t) text = refl
