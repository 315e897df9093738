-- ===== src/RabbitMq/Reliable/Timers.antt =====
-- The timers over the table `transactional_msg`: `deletedTransactionalMsg` and
-- `rabbitMqMessageRetrySend` of rabbitmq/rabbitmq.go, and the queries of
-- rabbitmq/transactional_msg.go that they use.
pub mod Unsettled
pub mod Settled
use foundation_framework.Base.{
  ℕ, suc, ◌+◌, ◌-◌, ◌*◌, ◌≤◌, ◌≡◌, ◌≢◌, refl, ap, String, Bool, true, false, not, ◌&&◌, Option,
  none, some, List, [], ◌∷◌, ◌++◌, if◌then◌else◌, leb, ltb, take, All, ◌↔◌, inl, inr, Bool-cases,
  arith,
}
use foundation_framework.Base.Int.{ℤ, pos}
use foundation_framework.Base.Order.{In}
use foundation_framework.Err.{Error, nil, is_nil}
use foundation_framework.Err.Stack.{Frame}
use foundation_framework.Redis.Server.{Redis}
use foundation_framework.Redis.Timed.{timed_round}
use foundation_framework.RabbitMq.Publish.{Message, Broker, Arrivals, Sent, confirm_one}
use foundation_framework.RabbitMq.Reliable.{
  TransactionalMsgPo, TransactionalMsgs, Waiting, ended, do_rabbit_mq_message_retry_send,
}

-- `ListTrigerMsg` at a time: the rows that are not deleted and are due, in some order, here that of
-- the table, up to 100.
due : ℕ → TransactionalMsgs → List (String × TransactionalMsgPo)
due now [] = []
due now ((id, po) ∷ t) =
    let rest = due now t in
    if not po.deleted && leb po.trigger_time now then (id, po) ∷ rest else rest

unfoldable pub list_triger_msg : ℕ → TransactionalMsgs → List (String × TransactionalMsgPo)
unfolding due
list_triger_msg now t = take 100 (due now t)

-- `BatchPhysicsDeletedWithEndTime`: `Unscoped`, so that deleted rows are meant too, as are those that
-- are not.
newer : ℕ → TransactionalMsgs → TransactionalMsgs
newer end [] = []
newer end ((id, po) ∷ t) =
    let rest = newer end t in if ltb po.created_at end then rest else (id, po) ∷ rest

unfoldable pub batch_physics_deleted_with_end_time :
    ℕ → Error → TransactionalMsgs → TransactionalMsgs × Error
unfolding newer
batch_physics_deleted_with_end_time end e t = if is_nil e then (newer end t, nil) else (t, e)

abbrev pub week : ℕ
week = 7 * 24 * 3600

-- A round of `deletedTransactionalMsg` at a time that is more than a week after the epoch.
unfoldable pub deleted_transactional_msg :
    (r : Redis)
    → List Frame
    → Bool
    → ℕ
    → Error
    → ℕ
    → r.Server
    → TransactionalMsgs
    → Option (TransactionalMsgs × r.Server × Error)
unfolding timed_round batch_physics_deleted_with_end_time
deleted_transactional_msg r stack closed now e id s t =
    timed_round r stack (batch_physics_deleted_with_end_time (now - week) e) closed id s t

-- One pass of the loop under the lock: the time, the error of the query with the rows that it
-- returned all the same, the brokers of the two publications of a row, which of the goroutines that
-- wait have ended before the next query, and the error of the table in their callbacks.
pub record Pass : Type 0 where
  pub now : ℕ
  pub query_error : Error
  pub returned : List (String × TransactionalMsgPo)
  pub delayed : String → Broker
  pub broker : String → Broker
  pub ready : String × Arrivals → Bool
  pub table_error : Error

unfoldable pub queried : Pass → TransactionalMsgs → List (String × TransactionalMsgPo)
unfolding list_triger_msg
queried p t = if is_nil p.query_error then list_triger_msg p.now t else p.returned

-- Of the goroutines that wait, those that a test picks.
unfoldable pub picked : (String × Arrivals → Bool) → Waiting → Waiting
picked ready [] = []
picked ready (c ∷ w) = let rest = picked ready w in if ready c then c ∷ rest else rest

module _ {V : Type 0} (stack : List Frame) (reliable : Bool) (marshal : V → String × Error)
    (marshal_any : Message V → String × Error) (parse : String → Option V) where
  -- The inner loop: an error is only logged.
  unfoldable pub retry_messages : Pass → List (String × TransactionalMsgPo) → Waiting × List Sent
  unfolding do_rabbit_mq_message_retry_send
  retry_messages p [] = ([], [])
  retry_messages p ((id, po) ∷ rows) =
      let (w, sent, _) =
        do_rabbit_mq_message_retry_send stack reliable marshal marshal_any p.now parse id po
          (p.delayed id) (p.broker id) in
      let (w', sent') = retry_messages p rows in (w ++ w', sent ++ sent')

  -- A pass that found rows, with the rest of the loop. Beside it goroutines of the publications end;
  -- since only the next query reads the table, they are taken to end just before it.
  pass :
      Pass
      → List (String × TransactionalMsgPo)
      → (Waiting → TransactionalMsgs → TransactionalMsgs × List Sent × Option Error)
      → Waiting
      → TransactionalMsgs
      → TransactionalMsgs × List Sent × Option Error
  unfolding retry_messages ended picked
  pass p [] rest w t = (t, [], some nil)
  pass p (row ∷ rows) rest w t =
      let (w', sent) = retry_messages p (row ∷ rows) in
      let now = picked p.ready (w ++ w') in
      let later = picked (λ c. not (p.ready c)) (w ++ w') in
      let (t', sent', e) = rest later (ended p.table_error now t) in
      if is_nil p.query_error then (t', sent ++ sent', e) else (t, [], some p.query_error)

  -- The loop of `rabbitMqMessageRetrySend`, with the goroutines that wait and the table: the
  -- function's error, or `none` where it still goes round after the passes.
  unfoldable pub retry_loop :
      List Pass → Waiting → TransactionalMsgs → TransactionalMsgs × List Sent × Option Error
  unfolding pass queried
  retry_loop [] w t = (t, [], none)
  retry_loop (p ∷ ps) w t = pass p (queried p t) (retry_loop ps) w t
