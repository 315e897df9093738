-- ===== src/RabbitMq/Dead/Retry.antt =====
-- What becomes of a dead message: `OnDelivery` of rabbitmq/listener.go, then the retries of
-- rabbitmq/rabbitmq.go.
use foundation_framework.Base.{
  ℕ, zero, suc, ◌+◌, ◌<◌, ◌≤◌, String, ◌≡◌, ◌≢◌, refl, ◌∙◌, ap, true, false, some, List, [], ◌∷◌,
  ◌++◌, ◌==◌, leb, All, arith, inl, inr,
}
use foundation_framework.Base.Dict
use foundation_framework.Base.Dict.{Dict}
use foundation_framework.Err.{Error, nil, is_nil, nil-cases}
use foundation_framework.Err.Stack.{Frame}
use foundation_framework.RabbitMq.Listener.{
  Listener, Delivery, DeliveryMirror, string, finished, panicked, new_delivery_mirror,
  convertor_to_delivery,
}
use foundation_framework.RabbitMq.Dead.{
  DeadMsgPo, DeadMsgs, without, upsert, listed, save, deleted_by_id_unscoped, list_triger_msg,
  stored, saved, dead_msg, on_dead, failed, concluded, attempted, retried,
  do_rabbit_mq_dead_message_retry_send, next_row, retry_rows,
}

without-fresh :
    (rows : List DeadMsgPo) (po : DeadMsgPo)
    → All (λ q. q.id < po.id) rows
    → without po.id (rows ++ po ∷ []) ≡ rows
unfolding without
without-fresh [] po h = ground arith
without-fresh (q ∷ rows) po h = rw (without-fresh rows po h.1) (ground (arith, h.0))

not_zero : (n : ℕ) → n ≢ 0 → (n == 0) ≡ false
not_zero n h = ground arith

same_id : (n : ℕ) → (n == n) ≡ true
same_id n = ground arith

module _ {W : Type 0} (stack : List Frame) (marshal : DeliveryMirror → String × Error)
    (unmarshal : String → DeliveryMirror × Error) (listeners : Dict (Listener W)) (max : ℕ) where
  -- The delivery that a retry hands over: JSON has kept all but the headers, and `Redelivered` is
  -- false.
  abbrev pub again : Delivery → Delivery
  again d = record d { headers = []; redelivered = false }

  -- A dead message of a queue with a listener, which JSON reads back, is stored, and where the table
  -- does not fail, the retry of its row calls that listener with the same delivery but for its headers
  -- and `Redelivered`; if the listener returns nil the row is gone and the table is as before.
  pub dead_message_retried :
      (l : Listener W) (d : Delivery) (q s : String) (t : DeadMsgs) (w : W)
      → Dict.get d.headers "x-first-death-queue" ≡ some (string q)
      → Dict.get listeners q ≡ some l
      → marshal (new_delivery_mirror (record d { redelivered = false })) ≡ (s, nil)
      → unmarshal s ≡ (new_delivery_mirror (record d { redelivered = false }), nil)
      → All (λ p. p.id < t.next_id) t.rows
      → (l.on_delivery (again d) w).2 ≡ finished nil
      → (po : DeadMsgPo) × ((on_dead marshal nil d t).0.rows ≡ t.rows ++ po ∷ [])
        × ((on_dead marshal nil d t).2 ≡ finished nil)
        × (do_rabbit_mq_dead_message_retry_send stack unmarshal listeners max po nil w
              (on_dead marshal nil d t).0
            ≡ ((l.on_delivery (again d) w).0, record t { next_id = suc t.next_id }, finished nil))
  unfolding on_dead stored saved dead_msg save do_rabbit_mq_dead_message_retry_send retried
      concluded attempted new_delivery_mirror convertor_to_delivery deleted_by_id_unscoped
  dead_message_retried l d q s t w head found m u fresh done =
      rw (m, head)
        (
          _,
          refl,
          refl,
          rw (found, u, done)
              (rw
                (without-fresh t.rows
                  (record {
                    id = t.next_id;
                    message_id = d.message_id;
                    queue_name = q;
                    message = d.body;
                    delivery_message = s;
                    retry_count = 0;
                    deleted = false;
                  })
                  fresh)
                refl),
        )

  -- A listener that panics ends the round: the rows after its message are not tried, and its row
  -- keeps its count, so that the next round ends in the same way.
  panic_ends_round :
      (l : Listener W) (po : DeadMsgPo) (m : DeliveryMirror) (rows : List DeadMsgPo) (e : Error)
      (w : W) (t : DeadMsgs)
      → Dict.get listeners po.queue_name ≡ some l
      → unmarshal po.delivery_message ≡ (m, nil)
      → (l.on_delivery (convertor_to_delivery m) w).2 ≡ panicked
      → retry_rows stack unmarshal listeners max (po ∷ rows) e w t
        ≡ ((l.on_delivery (convertor_to_delivery m) w).0, t, false)
  unfolding retry_rows next_row do_rabbit_mq_dead_message_retry_send retried concluded attempted
  panic_ends_round l po m rows e w t found u p = rw (found, u, p) refl

  -- `n` passes of the retry over the rows.
  abbrev pub rounds : ℕ → W → DeadMsgs → DeadMsgs
  rounds zero w t = t
  rounds (suc n) w t =
      let (w', t', _) = retry_rows stack unmarshal listeners max (list_triger_msg t) nil w t in
      rounds n w' t'

  -- The row after `n` failed attempts.
  abbrev pub after : ℕ → DeadMsgPo → DeadMsgPo
  after n po = record po {
    retry_count = n + po.retry_count;
    deleted = leb max (n + po.retry_count);
  }

  module _ (l : Listener W) (bad : Error) (fails : is_nil bad ≡ false)
      (always : (d : Delivery) (w : W) → (l.on_delivery d w).2 ≡ finished bad) where
    attempted-fails :
        (m : DeliveryMirror × Error) (w : W)
        → (e : Error) × ((attempted stack unmarshal listeners max l m w).2 ≡ finished e)
          × (is_nil e ≡ false)
    unfolding attempted
    attempted-fails (m, r) w = elim (nil-cases r) [
      | inl n ↦ rw n (bad, always (convertor_to_delivery m) w, fails)
      | inr b ↦ rw b (r, refl, b)
    ]

    one_round :
        (po : DeadMsgPo) (next : ℕ) (w : W)
        → po.id ≢ 0
        → po.deleted ≡ false
        → Dict.get listeners po.queue_name ≡ some l
        → (retry_rows stack unmarshal listeners max
            (list_triger_msg (record { next_id = next; rows = po ∷ [] }))
            nil
            w
            (record { next_id = next; rows = po ∷ [] })).1
          ≡ record { next_id = next; rows = after 1 po ∷ [] }
    unfolding list_triger_msg listed retry_rows next_row do_rabbit_mq_dead_message_retry_send
        retried concluded save upsert failed
    one_round po next w used kept found =
        let (e, o, b) = attempted-fails (unmarshal po.delivery_message) w in
        rw (kept, found, o, b)
          (rw (not_zero po.id used, same_id po.id)
            (ap
              (λ (k : ℕ). record {
                next_id = next;
                rows = record po { retry_count = k; deleted = leb max k } ∷ [];
              })
              (omega arith)))

    after-suc : (n : ℕ) (po : DeadMsgPo) → after (suc n) (after 1 po) ≡ after (suc (suc n)) po
    after-suc n po =
        ap (λ (k : ℕ). record po { retry_count = k; deleted = leb max k }) (omega arith)

    -- A message whose listener always fails, alone in the table: after `n + 1` passes, where the
    -- table does not fail, it has been tried as often, if that is not more than `MaxRetryAttempts`, and it is soft-deleted exactly if
    -- it is that many.
    pub retries_exhaust :
        (n : ℕ) (po : DeadMsgPo) (next : ℕ) (w : W)
        → po.id ≢ 0
        → po.deleted ≡ false
        → Dict.get listeners po.queue_name ≡ some l
        → suc n + po.retry_count ≤ max
        → rounds (suc n) w (record { next_id = next; rows = po ∷ [] })
          ≡ record { next_id = next; rows = after (suc n) po ∷ [] }
    retries_exhaust zero po next w used kept found le = one_round po next w used kept found
    retries_exhaust (suc n) po next w used kept found le =
        rw (one_round po next w used kept found) (
          retries_exhaust n (after 1 po) next _ used (ground arith) found (omega arith)
          ∙ ap (λ (p : DeadMsgPo). record { next_id = next; rows = p ∷ [] }) (after-suc n po))
