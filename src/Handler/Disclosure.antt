-- ===== src/Handler/Disclosure.antt =====
-- Where the message of a failed request comes from.
use foundation_framework.Base.{
  if_true, if_false, ◌≡◌, ◌≢◌, ◌⊎◌, inl, inr, refl, Bool, true, false, Option, none, some, arith,
  ◌==◌, Bool-cases,
}
use foundation_framework.Base.Int.{pos}
use foundation_framework.Err.{Error, Fields}
use foundation_framework.Err.Biz.{is_biz_error_or_cause}
use foundation_framework.Err.Chain.{FirstBiz, is_biz_error_or_cause-FirstBiz}
use foundation_framework.Err.Interceptor.{to_i32}
use foundation_framework.Handler.HttpResult.{
  StandardResult, Status, unknown, server_error, exception_fail, biz_fail,
}

-- A failed result is marked so and carries no payload.
abbrev pub IsFailure : {D : Type 0} → StandardResult D → Type 0
IsFailure r = (r.state ≡ false) × (r.result ≡ none)

module _ (from_error : Error → Status × Bool) where
  -- Where the message and the code of a failed result come from.
  abbrev pub Disclosed : {D : Type 0} → Error → StandardResult D → Type 0
  Disclosed e r =
      (((from_error e).1 ≡ true)
        × ((from_error e).0.code ≢ unknown)
        × (r.message ≡ (from_error e).0.message)
        × (r.code ≡ to_i32 (from_error e).0.code))
      ⊎ ((f : Fields) × FirstBiz e f × (r.message ≡ f.message) × (r.code ≡ f.code))
      ⊎ ((is_biz_error_or_cause e ≡ none) × (r.message ≡ server_error) × (r.code ≡ pos 500))

  Disclosed-biz_fail :
      (D : Type 0) (e : Error) (o : Option Fields)
      → is_biz_error_or_cause e ≡ o
      → Disclosed e (biz_fail {D = D} o) × IsFailure (biz_fail {D = D} o)
  unfolding biz_fail
  Disclosed-biz_fail D e none h = (inr (inr (h, refl, refl)), (refl, refl))
  Disclosed-biz_fail D e (some f) h =
      (inr (inl (f, (is_biz_error_or_cause-FirstBiz e f).0 h, refl, refl)), (refl, refl))

  -- A failed result is marked as failed, carries no payload, and its message and code are those of
  -- the gRPC status of the error, or of the first business error on its chain, or the fixed server
  -- error with 500: no other text of an error reaches the client.
  pub exception_fail-Disclosed :
      (D : Type 0) (e : Error)
      → Disclosed e (exception_fail from_error {D = D} e)
        × IsFailure (exception_fail from_error {D = D} e)
  unfolding exception_fail
  exception_fail-Disclosed D e = elim (Bool-cases (from_error e).1) [
    | inr no_status ↦
        rw (if_false _ _ no_status) (Disclosed-biz_fail D e (is_biz_error_or_cause e) refl)
    | inl status ↦ elim (Bool-cases ((from_error e).0.code == unknown)) [
      | inl unk ↦
          rw (if_true _ _ status)
            (rw (if_true _ _ unk) (Disclosed-biz_fail D e (is_biz_error_or_cause e) refl))
      | inr known ↦
          rw (if_true _ _ status)
            (rw (if_false _ _ known) (inl (status, ground arith, refl, refl), (refl, refl)))
    ]
  ]
