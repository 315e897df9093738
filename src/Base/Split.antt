-- ===== src/Base/Split.antt =====
-- `strings.Split` and `strings.Join` with a separator of one character.
use Prim.Native.Char.{Char, code}
use text.Mathlib.TextLemmas.{nil-append, cons-append}
use text.Mathlib.TextEquality.{Char-path}
use Prim.Native.String.{String, [], ◌∷◌, ◌++◌ as append}
use mathlib.Core.Path.{◌≡◌, refl, ap, ◌∙◌}
use mathlib.Core.Logic.{inl, inr}
use mathlib.Core.Bool.{Bool, true, false}
use mathlib.Core.List.{List}
use native.Mathlib.Omega.{arith}
use foundation_framework.Base.Tests.{◌==◌, if◌then◌else◌, Bool-cases}
use foundation_framework.Base.Lists.{All}

infixr 65 ◌<>◌
abbrev ◌<>◌ : String → String → String
s <> t = append s t

module _ (sep : Char) where
  -- The first field of `strings.Split(s, sep)`, and the others.
  split_first : String → String × List String
  split_first [] = ([], List.[])
  split_first (c ∷ s) =
      let (f, fs) = split_first s in if code c == code sep then ([], List.◌∷◌ f fs) else (c ∷ f, fs)

  unfoldable pub split : String → List String
  unfolding split_first
  split s = let (f, fs) = split_first s in List.◌∷◌ f fs

  join_from : String → List String → String
  join_from f List.[] = f
  join_from f (List.◌∷◌ g gs) = f <> (sep ∷ join_from g gs)

  unfoldable pub join : List String → String
  unfolding join_from
  join List.[] = []
  join (List.◌∷◌ f fs) = join_from f fs

  unfoldable pub no_sep : String → Bool
  no_sep [] = true
  no_sep (c ∷ s) = let rest = no_sep s in if code c == code sep then false else rest

  join_from-cons :
      (c : Char) (f : String) (fs : List String) → join_from (c ∷ f) fs ≡ c ∷ join_from f fs
  unfolding join_from
  join_from-cons c f List.[] = refl
  join_from-cons c f (List.◌∷◌ g gs) = cons-append c f (sep ∷ join_from g gs)

  join-split_first : (s : String) → join_from (split_first s).0 (split_first s).1 ≡ s
  unfolding split_first join_from
  join-split_first [] = refl
  join-split_first (c ∷ s) = elim (Bool-cases (code c == code sep)) [
    | inl t ↦ rw t (
        let same : sep ≡ c = Char-path sep c (ground arith) in
        rw (nil-append (sep ∷ join_from (split_first s).0 (split_first s).1), join-split_first s)
          (ap (λ (d : Char). d ∷ s) same))
    | inr f ↦ rw f (
        join_from-cons c (split_first s).0 (split_first s).1
        ∙ ap (λ (r : String). c ∷ r) (join-split_first s))
  ]

  -- The fields of a text put together again are the text.
  pub join-split : (s : String) → join (split s) ≡ s
  unfolding join split
  join-split s = join-split_first s

  split_first-append :
      (host rest : String)
      → no_sep host ≡ true
      → split_first (host <> (sep ∷ rest))
        ≡ (host, List.◌∷◌ (split_first rest).0 (split_first rest).1)
  unfolding split_first no_sep
  split_first-append [] rest = λ h.
      let same : (code sep == code sep) ≡ true = ground arith in
      rw (nil-append (sep ∷ rest), same) refl
  split_first-append (c ∷ host) rest = elim (Bool-cases (code c == code sep)) [
    | inl t ↦ rw t (λ h. absurd (cc))
    | inr f ↦
        rw f (λ h. rw (cons-append c host (sep ∷ rest), f, split_first-append host rest h) refl)
  ]

  pub split-append :
      (host rest : String)
      → no_sep host ≡ true
      → split (host <> (sep ∷ rest)) ≡ List.◌∷◌ host (split rest)
  unfolding split
  split-append host rest h =
      ap (λ (p : String × List String). List.◌∷◌ p.0 p.1) (split_first-append host rest h)

  pub join-cons_split : (host s : String) → join (List.◌∷◌ host (split s)) ≡ host <> (sep ∷ s)
  unfolding join split join_from
  join-cons_split host s = ap (λ (t : String). host <> (sep ∷ t)) (join-split_first s)

  split_alone : (k : String) → no_sep k ≡ true → split_first k ≡ (k, List.[])
  unfolding split_first no_sep
  split_alone [] = λ h. refl
  split_alone (c ∷ k) = elim (Bool-cases (code c == code sep)) [
    | inl t ↦ rw t (λ h. absurd (cc))
    | inr f ↦ rw f (λ h. rw (split_alone k h) refl)
  ]

  -- Fields without the separator are found again in the text that they are put together to.
  pub split-join :
      (k : String) (ks : List String)
      → no_sep k ≡ true
      → All (λ k. no_sep k ≡ true) ks
      → split (join (List.◌∷◌ k ks)) ≡ List.◌∷◌ k ks
  unfolding join join_from
  split-join k List.[] h all =
      unfold split in ap (λ (p : String × List String). List.◌∷◌ p.0 p.1) (split_alone k h)
  split-join k (List.◌∷◌ g gs) h all =
      split-append k (join_from g gs) h
      ∙ ap (λ (l : List String). List.◌∷◌ k l) (split-join g gs all.0 all.1)
