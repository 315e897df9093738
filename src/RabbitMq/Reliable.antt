-- ===== src/RabbitMq/Reliable.antt =====
-- Messages kept in the table `transactional_msg` until the broker confirms them:
-- rabbitmq/transactional_msg.go and the sends and retries of rabbitmq/rabbitmq.go.
pub mod Kept
pub mod Sending
pub mod Timers
use foundation_framework.Base.{
  ℕ, zero, suc, ◌+◌, String, ◌≡◌, Bool, true, false, not, ◌&&◌, ◌||◌, Option, none, some, List, [],
  ◌∷◌, ◌++◌, if◌then◌else◌, ◌==◌, leb, take,
}
use foundation_framework.Base.Int.{ℤ, pos, negsuc}
use foundation_framework.Base.Dict
use foundation_framework.Base.Dict.{Dict}
use foundation_framework.Err.{Error, nil, is_nil}
use foundation_framework.Err.Stack.{Frame}
use foundation_framework.Orm.{
  Told, committed, rolled_back, Ended, returned, panicked, Gorm, Left, do_with_listener,
}
use foundation_framework.RabbitMq.Publish.{
  Message, text, value, Broker, Arrivals, Sent, Published, encode, confirm_one, notify_publish,
  notify_publish_delay,
}

-- `TransactionalMsgPO`; a time is a number of seconds.
pub record TransactionalMsgPo : Type 0 where
  pub exchange : String
  pub routing_key : String
  pub message : String
  pub trigger_time : ℕ
  pub delayed_time : ℤ
  pub created_at : ℕ
  pub deleted : Bool

-- The table, by the id of a row.
abbrev pub TransactionalMsgs : Type 0
TransactionalMsgs = Dict TransactionalMsgPo

-- Each call of the table has an error as an argument, with which it changes nothing.
unfoldable pub save :
    String → TransactionalMsgPo → Error → TransactionalMsgs → TransactionalMsgs × Error
save id po e t = if is_nil e then (Dict.put t id po, nil) else (t, e)

soft_deleted : String → Option TransactionalMsgPo → TransactionalMsgs → TransactionalMsgs
soft_deleted id none t = t
soft_deleted id (some po) t = Dict.put t id (record po { deleted = true })

unfoldable pub deleted_by_id : String → Error → TransactionalMsgs → TransactionalMsgs
unfolding soft_deleted
deleted_by_id id e t = if is_nil e then soft_deleted id (Dict.get t id) t else t

-- The callback of every reliable send: a confirmed message is deleted.
callback : String → Error → Option Bool → TransactionalMsgs → TransactionalMsgs
callback id e (some true) t = deleted_by_id id e t
callback id e (some false) t = t
callback id e none t = t

-- The goroutines of `confirmOne` that wait, by the id of their message.
abbrev pub Waiting : Type 0
Waiting = List (String × Arrivals)

unfoldable pub started : String → Option Arrivals → Waiting
started id none = []
started id (some a) = (id, a) ∷ []

-- Goroutines that end, in this order, with the error of the table: each calls its callback.
unfoldable pub ended : Error → Waiting → TransactionalMsgs → TransactionalMsgs
unfolding callback confirm_one
ended e [] t = t
ended e ((id, a) ∷ w) t = ended e w (callback id e (confirm_one a) t)

module _ {V : Type 0} (stack : List Frame) (reliable : Bool) (marshal : V → String × Error)
    (marshal_any : Message V → String × Error) (now : ℕ) where
  -- The row of a message: `SendDelayMessageInTransaction` leaves `DelayedTime` at 0.
  unfoldable pub new_row : String → String → String → TransactionalMsgPo
  new_row exchange key body = record {
    exchange = exchange;
    routing_key = key;
    message = body;
    trigger_time = now + 60;
    delayed_time = pos 0;
    created_at = now;
    deleted = false;
  }

  -- The loop that saves the messages under their new ids, with the error of the table.
  unfoldable pub save_messages :
      String
      → String
      → Error
      → List (String × Message V)
      → TransactionalMsgs
      → TransactionalMsgs × Error
  unfolding save new_row
  save_messages exchange key e [] t = (t, nil)
  save_messages exchange key e ((id, m) ∷ ms) t =
      let (body, me) = marshal_any m in
      let (t', se) = save id (new_row exchange key body) e t in
      let rest = save_messages exchange key e ms t' in
      if is_nil me then (if is_nil se then rest else (t', se)) else (t, me)

  -- The goroutine after the commit: each message is published with the broker of its id, which
  -- starts a goroutine that waits for the broker. Go goes through the map in some order, here that of
  -- the messages.
  unfoldable pub publish_messages :
      String → String → ℤ → (String → Broker) → List (String × Message V) → Waiting × List Sent
  unfolding started
  publish_messages exchange key delay broker [] = ([], [])
  publish_messages exchange key delay broker ((id, m) ∷ ms) =
      let p = notify_publish_delay stack reliable marshal exchange key m id delay (broker id) in
      let (w, sent) = publish_messages exchange key delay broker ms in
      (started id p.waiting ++ w, p.sent ++ sent)

  -- What the function of the transaction does: the business, which may return an error or panic, and
  -- then the messages.
  business :
      (TransactionalMsgs → TransactionalMsgs × Ended)
      → (TransactionalMsgs → TransactionalMsgs × Error)
      → TransactionalMsgs
      → TransactionalMsgs × Ended
  business fn rest t = saved (fn t)
    where
      saved : TransactionalMsgs × Ended → TransactionalMsgs × Ended
      saved (t', panicked) = (t', panicked)
      saved (t', returned e) =
          let (t'', e') = rest t' in if is_nil e then (t'', returned e') else (t', returned e)

  after_commit :
      Waiting × List Sent
      → Left TransactionalMsgs × Ended × List Told
      → Left TransactionalMsgs × Waiting × List Sent × Ended
  after_commit (w, sent) (t, e, committed ∷ _) = (t, w, sent, e)
  after_commit publish (t, e, rolled_back _ ∷ _) = (t, [], [], e)
  after_commit publish (t, e, []) = (t, [], [], e)

  -- `SendDelayMessageInTransaction`, whose business function is `fn`, with new ids for the
  -- messages and the error of the table that saves them.
  unfoldable pub send_delay_message_in_transaction :
      Gorm TransactionalMsgs
      → String
      → String
      → ℤ
      → (TransactionalMsgs → TransactionalMsgs × Ended)
      → (String → Broker)
      → Error
      → List (String × Message V)
      → TransactionalMsgs
      → Left TransactionalMsgs × Waiting × List Sent × Ended
  unfolding after_commit business
  send_delay_message_in_transaction g exchange key delay fn broker e ms t =
      let saved = business fn (save_messages exchange key e ms) in
      after_commit (publish_messages exchange key delay broker ms) (do_with_listener g saved t)

  unfoldable pub send_message_in_transaction :
      Gorm TransactionalMsgs
      → String
      → String
      → (TransactionalMsgs → TransactionalMsgs × Ended)
      → (String → Broker)
      → Error
      → List (String × Message V)
      → TransactionalMsgs
      → Left TransactionalMsgs × Waiting × List Sent × Ended
  send_message_in_transaction g exchange key =
      send_delay_message_in_transaction g exchange key (pos 0)

  module _ (parse : String → Option V) where
    -- A stored message that is a JSON object is read, another is taken as a string.
    parsed : String → Option V → Message V
    parsed s (some v) = value v
    parsed s none = text s

    is_delayed : ℤ → Bool
    is_delayed (pos zero) = false
    is_delayed (pos (suc n)) = true
    is_delayed (negsuc n) = false

    -- `doRabbitMqMessageRetrySend`, with the brokers of its two publications: after the publication with a delay it goes on to the one without.
    unfoldable pub do_rabbit_mq_message_retry_send :
        String → TransactionalMsgPo → Broker → Broker → Waiting × List Sent × Error
    unfolding started parsed is_delayed
    do_rabbit_mq_message_retry_send id po b b' =
        let m = parsed po.message (parse po.message) in
        let d =
          notify_publish_delay stack reliable marshal po.exchange po.routing_key m id
            po.delayed_time b in
        let p = notify_publish stack reliable marshal po.exchange po.routing_key m id b' in
        let w = started id d.waiting in
        let w' = started id p.waiting in
        if is_delayed po.delayed_time
        then (if is_nil d.error then (w ++ w', d.sent ++ p.sent, p.error) else (w, d.sent, d.error))
        else (w', p.sent, p.error)
