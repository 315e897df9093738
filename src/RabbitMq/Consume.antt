-- ===== src/RabbitMq/Consume.antt =====
-- The acknowledgement of one delivery: the function that `doStartListener` of rabbitmq/rabbitmq.go
-- submits to its pool.
use foundation_framework.Base.{
  ℕ, ◌⊎◌, Bool-cases, ◌≡◌, refl, Bool, true, false, not, ◌&&◌, List, [], ◌∷◌, if◌then◌else◌, inl,
  inr, ◌==◌,
}
use foundation_framework.Err.{Error, nil, is_nil, nil-cases}
use foundation_framework.RabbitMq.Listener.{
  Listener, Delivery, Outcome, finished, panicked, AckParam,
}

-- `Ack(multiple)` and `Nack(multiple, requeue)`.
pub data Reply : Type 0 where
  ack : Bool → Reply
  nack : Bool → Bool → Reply

-- A coroutine number of 0 is 1.
unfoldable pub pool_size : ℕ → ℕ
pool_size n = if n == 0 then 1 else n

-- The replies to a delivery, from whether the consumer acknowledges by itself, the parameters of
-- the listener, `Redelivered` after the call, and how the call ended.
unfoldable pub replies : Bool → AckParam → Bool → Outcome → List Reply
replies auto_ack p redelivered (finished e) =
    if auto_ack
    then []
    else (if is_nil e
        then ack p.multiple ∷ []
        else (nack p.multiple (p.requeue && not redelivered) ∷ []))
replies auto_ack p redelivered panicked = if auto_ack then [] else (nack p.multiple false ∷ [])

-- What a delivery is answered, from the listener's parameters, `Redelivered` and the end of the
-- call.
pub data IsReply (p : AckParam) : Bool → Outcome → Reply → Type 0 where
  acked : {b : Bool} → IsReply p b (finished nil) (ack p.multiple)
  requeued :
      {e : Error}
      → is_nil e ≡ false
      → p.requeue ≡ true
      → IsReply p false (finished e) (nack p.multiple true)
  dropped :
      {b : Bool} {e : Error}
      → is_nil e ≡ false
      → (p.requeue ≡ false) ⊎ (b ≡ true)
      → IsReply p b (finished e) (nack p.multiple false)
  dropped_by_panic : {b : Bool} → IsReply p b panicked (nack p.multiple false)

error-IsReply :
    (p : AckParam) (redelivered : Bool) (e : Error)
    → is_nil e ≡ false
    → IsReply p redelivered (finished e) (nack p.multiple (p.requeue && not redelivered))
error-IsReply p redelivered e h = elim (Bool-cases p.requeue) [
  | inr n ↦ rw n (dropped h (inl refl))
  | inl q ↦ elim (Bool-cases redelivered) [
    | inl t ↦ rw (q, t) (dropped h (inr refl))
    | inr f ↦ rw (q, f) (requeued h refl)
  ]
]

replies-IsReply :
    (p : AckParam) (redelivered : Bool) (o : Outcome)
    → (r : Reply) × (replies false p redelivered o ≡ r ∷ []) × IsReply p redelivered o r
unfolding replies
replies-IsReply p redelivered (finished e) = elim (nil-cases e) [
  | inl n ↦ rw n (ack p.multiple, refl, acked)
  | inr b ↦
      rw b (nack p.multiple (p.requeue && not redelivered), refl, error-IsReply p redelivered e b)
]
replies-IsReply p redelivered panicked = (nack p.multiple false, refl, dropped_by_panic)

module _ {W : Type 0} where
  replied : Listener W → W × Delivery × Outcome → W × List Reply
  replied l (w, d, o) = (w, replies l.consumer_param.auto_ack l.ack_param d.redelivered o)

  unfoldable pub consume : Listener W → Delivery → W → W × List Reply
  unfolding replied replies
  consume l d w = replied l (l.on_delivery d w)

  -- Without `AutoAck` a delivery gets exactly one reply: an `Ack` if the listener returns nil; a
  -- requeue if it returns an error, wants a requeue and the delivery is not marked redelivered after
  -- the call; and a `Nack` without requeue after any other error and after a panic.
  pub consume-IsReply :
      (l : Listener W) (d : Delivery) (w : W)
      → l.consumer_param.auto_ack ≡ false
      → (r : Reply) × ((consume l d w).1 ≡ r ∷ [])
        × IsReply l.ack_param (l.on_delivery d w).1.redelivered (l.on_delivery d w).2 r
  unfolding consume replied
  consume-IsReply l d w manual =
      rw manual
        (replies-IsReply l.ack_param (l.on_delivery d w).1.redelivered (l.on_delivery d w).2)
