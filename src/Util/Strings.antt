-- ===== src/Util/Strings.antt =====
-- util/ustring/string.go, and the tests of util/collection/collection.go. `trim_space` is
-- `strings.TrimSpace`, `decodes` whether `json.Unmarshal` reads a text into a map, and a text is given
-- by its bytes where the code goes over them.
use foundation_framework.Base.{
  ℕ, String, Bool, true, false, not, Option, none, some, List, [], ◌∷◌, ◌++◌, if◌then◌else◌, ◌=ˢ◌,
  ltb, ◌≤◌, ◌≡◌, refl, sym, ◌∙◌, ◌↔◌, inl, inr, All, Bool-cases, arith,
}
use mathlib.Core.List.{append-nil, append_assoc}

module _ (trim_space : String → String) where
  unfoldable pub is_empty_string : String → Bool
  is_empty_string s = trim_space s =ˢ ""

  unfoldable pub is_not_empty_string : String → Bool
  is_not_empty_string s = not (trim_space s =ˢ "")

  unfoldable pub has_empty_string : List String → Bool
  unfolding is_empty_string
  has_empty_string [] = false
  has_empty_string (s ∷ ss) =
      let rest = has_empty_string ss in if is_empty_string s then true else rest

module _ (decodes : String → Bool) where
  unfoldable pub is_json : String → Bool
  is_json s = decodes s

  unfoldable pub is_not_json : String → Bool
  unfolding is_json
  is_not_json s = not (is_json s)

abbrev pub max_ascii : ℕ
max_ascii = 127

-- `IsASCII` of the bytes of a text.
unfoldable pub is_ascii : List ℕ → Bool
is_ascii [] = true
is_ascii (b ∷ bs) = let rest = is_ascii bs in if ltb max_ascii b then false else rest

-- `ToBytes` of a pointer.
unfoldable pub to_bytes : Option (List ℕ) → Option (List ℕ)
to_bytes none = none
to_bytes (some bs) = some bs

module _ {A : Type 0} where
  -- A slice that is nil is `none`.
  unfoldable pub is_not_empty_slice : Option (List A) → Bool
  is_not_empty_slice none = false
  is_not_empty_slice (some []) = false
  is_not_empty_slice (some (a ∷ as_)) = true

  unfoldable pub is_empty_slice : Option (List A) → Bool
  unfolding is_not_empty_slice
  is_empty_slice value = not (is_not_empty_slice value)

  -- `ChanTransformToSlice` of what is received until the channel is closed.
  unfoldable pub received : List A → List A → List A
  received result [] = result
  received result (v ∷ vs) = received (result ++ v ∷ []) vs

  unfoldable pub chan_transform_to_slice : List A → List A
  unfolding received
  chan_transform_to_slice vs = received [] vs

-- A text is ASCII exactly if none of its bytes is above 127.
is_ascii-All : (bs : List ℕ) → (is_ascii bs ≡ true) ↔ All (λ b. b ≤ max_ascii) bs
unfolding is_ascii
is_ascii-All [] = (λ h. tt, λ h. refl)
is_ascii-All (b ∷ bs) =
    let (to, from) = is_ascii-All bs in
    elim (Bool-cases (ltb max_ascii b)) [
      | inl t ↦ rw t (λ h. absurd (cc), λ h. let k = h.0 in absurd (ground arith))
      | inr f ↦ rw f (λ h. (ground arith, to h), λ h. from h.1)
    ]

received-append : {A : Type 0} (vs result : List A) → received result vs ≡ result ++ vs
unfolding received
received-append [] result = sym (append-nil result)
received-append (v ∷ vs) result =
    received-append vs (result ++ v ∷ []) ∙ append_assoc result (v ∷ []) vs

-- The slice has what was received, in its order.
chan_transform_to_slice_lem : {A : Type 0} (vs : List A) → chan_transform_to_slice vs ≡ vs
unfolding chan_transform_to_slice
chan_transform_to_slice_lem vs = received-append vs []
