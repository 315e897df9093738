-- ===== src/Shenyu/Paths.antt =====
-- `nextSlash` of shenyu/shenyu.go: the first part of a route's path.
use Prim.Native.Char.{Char, code}
use text.Mathlib.TextLemmas.{nil-append, cons-append}
use Prim.Native.String.{[], ◌∷◌}
use foundation_framework.Base.{
  ℕ, zero, suc, ◌+◌, ap, ◌∙◌, arith, String, Bool, true, false, if◌then◌else◌, ◌==◌, Option, none,
  some, ◌≡◌, refl, Bool-cases, inl, inr,
}
use foundation_framework.Err.{◌<>◌}

-- The index of the first slash of `s`, plus `i`.
slash_from : ℕ → String → Option ℕ
slash_from i [] = none
slash_from i (c ∷ s) = let rest = slash_from (suc i) s in if code c == b'/' then some i else rest

-- `none` where `nextSlash` ends the process.
unfoldable pub next_slash : String → Option ℕ
unfolding slash_from
next_slash [] = none
next_slash (c ∷ s) = slash_from 1 s

-- `s[:n]`
unfoldable pub prefix : ℕ → String → String
prefix zero s = []
prefix (suc n) [] = []
prefix (suc n) (c ∷ s) = c ∷ prefix n s

cut : String → Option ℕ → Option String
cut s none = none
cut s (some i) = some (prefix i s)

-- `route.Path[:nextSlash(route.Path)]`
unfoldable pub context_path : String → Option String
unfolding next_slash cut prefix
context_path s = cut s (next_slash s)

unfoldable pub no_slash : String → Bool
no_slash [] = true
no_slash (c ∷ s) = let rest = no_slash s in if code c == b'/' then false else rest

abbrev pub slash : Char
slash = "/"

length : String → ℕ
length [] = 0
length (c ∷ s) = suc (length s)

slash_from-append :
    (i : ℕ) (app rest : String)
    → no_slash app ≡ true
    → slash_from i (app <> (slash ∷ rest)) ≡ some (i + length app)
unfolding slash_from no_slash length
slash_from-append i [] rest = λ h. rw nil-append (ap some (omega arith))
slash_from-append i (c ∷ app) rest =
    rw (cons-append c app (slash ∷ rest)) (elim (Bool-cases (code c == b'/')) [
      | inl t ↦ rw t (λ h. absurd (cc))
      | inr f ↦ rw f (λ h. slash_from-append (suc i) app rest h ∙ ap some (omega arith))
    ])

prefix-append : (app s : String) → prefix (length app) (app <> s) ≡ app
unfolding prefix length
prefix-append [] s = refl
prefix-append (c ∷ app) s =
    rw (cons-append c app s) (ap (λ (t : String). c ∷ t) (prefix-append app s))

-- The context path of a route below an application is the application's, whatever follows.
pub context_path-app :
    (app rest : String)
    → no_slash app ≡ true
    → context_path (slash ∷ (app <> (slash ∷ rest))) ≡ some (slash ∷ app)
unfolding context_path next_slash cut
context_path-app app rest h =
    ap (cut (slash ∷ (app <> (slash ∷ rest))))
      (slash_from-append 1 app rest h ∙ ap some (one_more (length app)))
    ∙ ap some (prefix_head app (slash ∷ rest))
  where
    one_more : (n : ℕ) → 1 + n ≡ suc n
    one_more n = omega arith

    prefix_head : (app s : String) → prefix (suc (length app)) (slash ∷ (app <> s)) ≡ slash ∷ app
    prefix_head app s = ap (λ (t : String). slash ∷ t) (prefix-append app s)
