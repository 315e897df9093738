-- ===== src/RabbitMq/Dead.antt =====
-- Dead messages: `deadMsgListener` of rabbitmq/listener.go, the table of rabbitmq/dead_msg.go, and
-- the retries of rabbitmq/rabbitmq.go.
pub mod Retry
use foundation_framework.Base.{
  ℕ, zero, suc, ◌+◌, String, ◌≡◌, Bool, true, false, not, ◌&&◌, ◌||◌, Option, none, some, List, [],
  ◌∷◌, ◌++◌, if◌then◌else◌, ◌==◌, leb, take,
}
use foundation_framework.Base.Dict
use foundation_framework.Base.Dict.{Dict}
use foundation_framework.Err.{Error, nil, is_nil, ◌<>◌}
use foundation_framework.Err.Biz
use foundation_framework.Err.Stack.{Frame}
use foundation_framework.RabbitMq.Listener.{
  Listener, Delivery, DeliveryMirror, Header, string, other, Outcome, finished, panicked,
  new_delivery_mirror, convertor_to_delivery, dead_routing_key, AckParam, ConsumerParam,
  QueueDeclareParam,
}

-- `DeadMsgPo`, without its times but for whether `DeletedAt` is set.
pub record DeadMsgPo : Type 0 where
  pub id : ℕ
  pub message_id : String
  pub queue_name : String
  pub message : String
  pub delivery_message : String
  pub retry_count : ℕ
  pub deleted : Bool

-- The table `dead_msg` and its next automatic id.
pub record DeadMsgs : Type 0 where
  pub next_id : ℕ
  pub rows : List DeadMsgPo

upsert : DeadMsgPo → List DeadMsgPo → List DeadMsgPo
upsert po [] = po ∷ []
upsert po (q ∷ rows) = let rest = upsert po rows in if q.id == po.id then po ∷ rows else q ∷ rest

without : ℕ → List DeadMsgPo → List DeadMsgPo
without id [] = []
without id (q ∷ rows) = let rest = without id rows in if q.id == id then rest else q ∷ rest

-- The rows that a query sees without `Unscoped`.
listed : List DeadMsgPo → List DeadMsgPo
listed [] = []
listed (q ∷ rows) = let rest = listed rows in if q.deleted then rest else q ∷ rest

-- Each call of the table has an error as an argument, with which it changes nothing.
unfoldable pub save : DeadMsgPo → Error → DeadMsgs → DeadMsgs × Error
unfolding upsert
save po e t =
    if is_nil e
    then (
      (if po.id == 0
          then record {
            next_id = suc t.next_id;
            rows = t.rows ++ record po { id = t.next_id } ∷ [];
          }
          else record t { rows = upsert po t.rows }),
      nil,
    )
    else (t, e)

unfoldable pub deleted_by_id_unscoped : ℕ → Error → DeadMsgs → DeadMsgs × Error
unfolding without
deleted_by_id_unscoped id e t =
    if is_nil e then (record t { rows = without id t.rows }, nil) else (t, e)

unfoldable pub list_triger_msg : DeadMsgs → List DeadMsgPo
unfolding listed
list_triger_msg t = take 100 (listed t.rows)

module _ (marshal : DeliveryMirror → String × Error) where
  -- The row of a delivery, or `none` where the assertion `.(string)` panics.
  dead_msg : Delivery → String → Option Header → Option DeadMsgPo
  dead_msg d s (some (string q)) = some (record {
    id = 0;
    message_id = d.message_id;
    queue_name = q;
    message = d.body;
    delivery_message = s;
    retry_count = 0;
    deleted = false;
  })
  dead_msg d s (some other) = none
  dead_msg d s none = none

  saved : Delivery → Option DeadMsgPo → Error → DeadMsgs → DeadMsgs × Delivery × Outcome
  saved d none e t = (t, d, panicked)
  saved d (some po) e t = let (t', e') = save po e t in (t', d, finished e')

  stored : Delivery → String × Error → Error → DeadMsgs → DeadMsgs × Delivery × Outcome
  stored d (s, m) e t =
      if is_nil m
      then saved d (dead_msg d s (Dict.get d.headers "x-first-death-queue")) e t
      else (t, d, finished m)

  -- `deadMsgListener.OnDelivery`, with the error of the table.
  unfoldable pub on_dead : Error → Delivery → DeadMsgs → DeadMsgs × Delivery × Outcome
  unfolding stored saved dead_msg save
  on_dead e delivery t =
      let d = record delivery { redelivered = false } in
      stored d (marshal (new_delivery_mirror d)) e t

  unfoldable pub dead_msg_listener : String → String → Error → Listener DeadMsgs
  unfolding on_dead
  dead_msg_listener queue exchange e = record {
    coroutine_num = 1;
    consumer_param = record {
      consumer = "dead_queue_consumer";
      auto_ack = false;
      exclusive = false;
      no_local = false;
      no_wait = false;
      args = [];
    };
    ack_param = record { multiple = false; requeue = true };
    queue_declare_param = record {
      queue_name = queue;
      durable = true;
      auto_delete = false;
      exclusive = false;
      no_wait = false;
      routing_key = dead_routing_key;
      exchange_name = exchange;
    };
    on_delivery = on_dead e;
  }

module _ {W : Type 0} (stack : List Frame) (unmarshal : String → DeliveryMirror × Error)
    (listeners : Dict (Listener W)) (max_retry_attempts : ℕ) where
  -- One more attempt; the last one deletes the row softly.
  unfoldable pub failed : DeadMsgPo → DeadMsgPo
  failed po = record po {
    retry_count = suc po.retry_count;
    deleted = po.deleted || leb max_retry_attempts (suc po.retry_count);
  }

  -- A retry ends with the listeners' state, the table, and an error or a panic.
  concluded : DeadMsgPo → Error → DeadMsgs → W → Outcome → W × DeadMsgs × Outcome
  concluded po e t w panicked = (w, t, panicked)
  concluded po e t w (finished r) =
      let (t', e') = if is_nil r then deleted_by_id_unscoped po.id e t else save (failed po) e t in
      (w, t', finished e')

  attempted : Listener W → DeliveryMirror × Error → W → W × Delivery × Outcome
  attempted l (m, r) w =
      let d = convertor_to_delivery m in
      let called = l.on_delivery d w in if is_nil r then called else (w, d, finished r)

  retried : DeadMsgPo → Error → Option (Listener W) → W → DeadMsgs → W × DeadMsgs × Outcome
  retried po e none w t = (w, t, finished (Biz.new stack ("队列[" <> po.queue_name <> "]不存在监听器")))
  retried po e (some l) w t =
      let (w', _, o) = attempted l (unmarshal po.delivery_message) w in concluded po e t w' o

  -- `doRabbitMqDeadMessageRetrySend`, with the error of the table.
  unfoldable pub do_rabbit_mq_dead_message_retry_send :
      DeadMsgPo → Error → W → DeadMsgs → W × DeadMsgs × Outcome
  unfolding retried concluded attempted failed save deleted_by_id_unscoped
  do_rabbit_mq_dead_message_retry_send po e w t =
      retried po e (Dict.get listeners po.queue_name) w t

  -- A round of `rabbitMqDeadMessageRetrySend` over the listed rows: a panic ends the round, as the
  -- deferred `Recover` stands outside of the loop.
  next_row : (W → DeadMsgs → W × DeadMsgs × Bool) → W → DeadMsgs → Outcome → W × DeadMsgs × Bool
  next_row rest w t panicked = (w, t, false)
  next_row rest w t (finished e) = rest w t

  unfoldable pub retry_rows : List DeadMsgPo → Error → W → DeadMsgs → W × DeadMsgs × Bool
  unfolding next_row
  retry_rows [] e w t = (w, t, true)
  retry_rows (po ∷ rows) e w t =
      let (w', t', o) = do_rabbit_mq_dead_message_retry_send po e w t in
      next_row (retry_rows rows e) w' t' o
