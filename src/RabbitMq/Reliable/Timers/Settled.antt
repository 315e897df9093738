-- ===== src/RabbitMq/Reliable/Timers/Settled.antt =====
-- What a pass of `rabbitMqMessageRetrySend` of rabbitmq/rabbitmq.go does to messages that the broker
-- confirms.
use foundation_framework.Base.{
  ℕ, suc, zero, String, ◌≡◌, refl, sym, ap, ◌∙◌, Bool, true, false, Option, none, some, List, [],
  ◌∷◌, ◌=ˢ◌, All, ◌⊎◌, inl, inr, Bool-cases, arith, eq_iff,
}
use mathlib.Core.Path.{subst}
use foundation_framework.Base.Int.{ℤ, pos, negsuc}
use foundation_framework.Base.Dict
use foundation_framework.Base.Dict.{Dict, get-put}
use foundation_framework.Base.Order.{In, In-left, In-right}
use foundation_framework.Err.{Error, nil}
use foundation_framework.Err.Stack.{Frame}
use foundation_framework.RabbitMq.Publish.{
  Message, Arrivals, confirm_one, encode, notify_publish_delay,
}
use foundation_framework.RabbitMq.Publish.Delivered.{
  Confirms, confirm_one_iff, notify_publish-accepted, notify_publish_delay-accepted,
}
use foundation_framework.RabbitMq.Reliable.{
  TransactionalMsgPo, TransactionalMsgs, Waiting, started, ended, deleted_by_id, soft_deleted,
  callback, parsed, is_delayed, do_rabbit_mq_message_retry_send,
}
use foundation_framework.RabbitMq.Reliable.Kept.{deleted_by_id-other}
use foundation_framework.RabbitMq.Reliable.Timers.{Pass, retry_messages}

-- There is a row of the message; there is one, and it is deleted.
abbrev pub IsStored : String → TransactionalMsgs → Type 0
IsStored id t = (po : TransactionalMsgPo) × (Dict.get t id ≡ some po)

abbrev pub IsSettled : String → TransactionalMsgs → Type 0
IsSettled id t = (po : TransactionalMsgPo) × (Dict.get t id ≡ some po) × (po.deleted ≡ true)

put_same :
    (t : TransactionalMsgs) (id : String) (po : TransactionalMsgPo)
    → Dict.get (Dict.put t id po) id ≡ some po
put_same t id po = ground (arith, get-put t id id po, eq_iff id id)

deleted_by_id-IsSettled :
    (id : String) (t : TransactionalMsgs) → IsStored id t → IsSettled id (deleted_by_id id nil t)
unfolding deleted_by_id soft_deleted
deleted_by_id-IsSettled id t (po, h) =
    rw h (record po { deleted = true }, put_same t id (record po { deleted = true }), refl)

-- Deleting one message leaves another stored or settled.
deleted_by_id-keeps :
    (id j : String) (t : TransactionalMsgs) → IsSettled j t → IsSettled j (deleted_by_id id nil t)
deleted_by_id-keeps id j t (po, h, k) = elim (Bool-cases (id =ˢ j)) [
  | inl e ↦
      let same : id ≡ j = (eq_iff id j).0 e in
      subst (λ (i : String). IsSettled j (deleted_by_id i nil t)) (sym same)
        (deleted_by_id-IsSettled j t (po, h))
  | inr f ↦
      (po, deleted_by_id-other id j nil t (λ e. let g = (eq_iff id j).1 e in absurd (cc)) ∙ h, k)
]

deleted_by_id-stores :
    (id j : String) (t : TransactionalMsgs) → IsStored j t → IsStored j (deleted_by_id id nil t)
deleted_by_id-stores id j t (po, h) = elim (Bool-cases (id =ˢ j)) [
  | inl e ↦
      let same : id ≡ j = (eq_iff id j).0 e in
      subst (λ (i : String). IsStored j (deleted_by_id i nil t)) (sym same)
        (let (q, g, _) = deleted_by_id-IsSettled j t (po, h) in (q, g))
  | inr f ↦ (po, deleted_by_id-other id j nil t (λ e. let g = (eq_iff id j).1 e in absurd (cc)) ∙ h)
]

callback-stores :
    (id j : String) (called : Option Bool) (t : TransactionalMsgs)
    → IsStored j t
    → IsStored j (callback id nil called t)
unfolding callback
callback-stores id j none t h = h
callback-stores id j (some false) t h = h
callback-stores id j (some true) t h = deleted_by_id-stores id j t h

callback-keeps :
    (id j : String) (called : Option Bool) (t : TransactionalMsgs)
    → IsSettled j t
    → IsSettled j (callback id nil called t)
unfolding callback
callback-keeps id j none t h = h
callback-keeps id j (some false) t h = h
callback-keeps id j (some true) t h = deleted_by_id-keeps id j t h

callback-IsSettled :
    (id j : String) (called : Option Bool) (t : TransactionalMsgs)
    → id ≡ j
    → called ≡ some true
    → IsStored j t
    → IsSettled j (callback id nil called t)
unfolding callback
callback-IsSettled id j none t same e h = absurd (cc)
callback-IsSettled id j (some false) t same e h = absurd (cc)
callback-IsSettled id j (some true) t same e h =
    subst (λ (i : String). IsSettled j (deleted_by_id i nil t)) (sym same)
      (deleted_by_id-IsSettled j t h)

ended-keeps_IsSettled :
    (w : Waiting) (t : TransactionalMsgs) (j : String) → IsSettled j t → IsSettled j (ended nil w t)
unfolding ended
ended-keeps_IsSettled [] t j h = h
ended-keeps_IsSettled ((id, a) ∷ w) t j h =
    ended-keeps_IsSettled w _ j (callback-keeps id j (confirm_one a) t h)

-- The goroutine of a stored message that takes an acknowledgement settles it, among any others.
ended-IsSettled :
    (w : Waiting) (t : TransactionalMsgs) (j : String) (a : Arrivals)
    → In (j, a) w
    → confirm_one a ≡ some true
    → IsStored j t
    → IsSettled j (ended nil w t)
unfolding ended
ended-IsSettled [] t j a m e h = elim m [ ]
ended-IsSettled ((id, b) ∷ w) t j a (inr m) e h =
    ended-IsSettled w _ j a m e (callback-stores id j (confirm_one b) t h)
ended-IsSettled ((id, b) ∷ w) t j a (inl m) e h =
    let same : id ≡ j = ap (λ (c : String × Arrivals). c.0) m in
    let eq = ap (λ (c : String × Arrivals). confirm_one c.1) m in
    ended-keeps_IsSettled w _ j (callback-IsSettled id j (confirm_one b) t same (eq ∙ e) h)

module _ {V : Type 0} (stack : List Frame) (marshal : V → String × Error)
    (marshal_any : Message V → String × Error) (parse : String → Option V)
    (marshals : (v : V) → (body : String) × (marshal v ≡ (body, nil))) where
  encode-ok : (m : Message V) → (body : String) × (encode stack true marshal m ≡ (body, nil))
  unfolding encode
  encode-ok (Message.text s) = (s, refl)
  encode-ok (Message.value v) = marshals v

  delay-cases :
      (now : ℕ) (delay : ℤ)
      → (is_delayed stack true marshal marshal_any now parse delay ≡ false)
        ⊎ ((is_delayed stack true marshal marshal_any now parse delay ≡ true)
            × ((n : ℕ) × (delay ≡ pos (suc n))))
  unfolding is_delayed
  delay-cases now (pos zero) = inl refl
  delay-cases now (pos (suc n)) = inr (refl, (n, refl))
  delay-cases now (negsuc n) = inl refl

  retry-starts :
      (p : Pass) (id : String) (po : TransactionalMsgPo)
      → Confirms (p.delayed id)
      → Confirms (p.broker id)
      → In
          (id, (p.broker id).arrivals)
          (do_rabbit_mq_message_retry_send stack true marshal marshal_any p.now parse id po
            (p.delayed id)
            (p.broker id)).0
  unfolding do_rabbit_mq_message_retry_send started
  retry-starts p id po d b =
      let m = parsed stack true marshal marshal_any p.now parse po.message (parse po.message) in
      let (body, ok) = encode-ok m in
      let plain =
        notify_publish-accepted stack marshal po.exchange po.routing_key id body m (p.broker id) ok
          b in
      elim (delay-cases p.now po.delayed_time) [
        | inl f ↦ rw (f, plain) (inl refl)
        | inr (f, (n, z)) ↦
            let late =
              ap
                (λ (delay : ℤ).
                  notify_publish_delay stack true marshal po.exchange po.routing_key m id delay
                    (p.delayed id))
                z
              ∙ notify_publish_delay-accepted stack marshal po.exchange po.routing_key id body m
                  (p.delayed id) ok d n in
            rw (f, late, plain) (inr (inl refl))
      ]

  -- A pass over rows whose messages the broker confirms, where the table does not fail and every
  -- message can be marshalled: once the goroutines that the pass started have ended, among any others
  -- and in whatever order, each of the messages is deleted, so that no later query lists it.
  pub retry_messages-IsSettled :
      (p : Pass) (rows : List (String × TransactionalMsgPo)) (ran : Waiting) (t : TransactionalMsgs)
      → ((id : String) → Confirms (p.delayed id) × Confirms (p.broker id))
      → All (λ r. IsStored r.0 t) rows
      → ((c : String × Arrivals)
          → In c (retry_messages stack true marshal marshal_any parse p rows).0
          → In c ran)
      → All (λ r. IsSettled r.0 (ended nil ran t)) rows
  unfolding retry_messages
  retry_messages-IsSettled p [] ran t c h all = tt
  retry_messages-IsSettled p ((id, po) ∷ rows) ran t c h all =
      let first = retry-starts p id po (c id).0 (c id).1 in
      let acked = (confirm_one_iff (p.broker id).arrivals).1 (c id).1.3 in
      (
        ended-IsSettled ran t id _ (all _ (In-left _ _ _ first)) acked h.0,
        retry_messages-IsSettled p rows ran t c h.1 (λ x m. all x (In-right x _ _ m)),
      )
