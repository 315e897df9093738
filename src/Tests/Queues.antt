-- ===== src/Tests/Queues.antt =====
-- The RabbitMQ client and transactions on small inputs.
use foundation_framework.Base.{
  ℕ, suc, String, ◌≡◌, refl, Bool, true, false, none, some, [], ◌∷◌, ◌↔◌, arith,
}
use foundation_framework.Base.Int.{pos}
use foundation_framework.Base.Dict
use foundation_framework.Base.Dict.{Dict}
use foundation_framework.Err.{Error, nil, plain}
use foundation_framework.Orm.{Ended, returned, Gorm}
use foundation_framework.RabbitMq.Reliable.Sending.{GormLaws}
use foundation_framework.RabbitMq.Listener.{
  Listener, Delivery, DeliveryMirror, string, Outcome, finished, panicked, new_delivery_mirror,
}
use foundation_framework.RabbitMq.Consume.{Reply, consume, IsReply, consume-IsReply}
use foundation_framework.RabbitMq.Dead.{
  DeadMsgPo, DeadMsgs, on_dead, do_rabbit_mq_dead_message_retry_send,
}
use foundation_framework.RabbitMq.Dead.Retry.{dead_message_retried, retries_exhaust, rounds}
use foundation_framework.RabbitMq.Publish.{
  Message, text, Arrivals, Broker, Sent, do_publish, confirm_one,
}
use foundation_framework.RabbitMq.Publish.Delivered.{do_publish-Confirms, Confirms}
use foundation_framework.RabbitMq.Reliable.{
  TransactionalMsgPo, TransactionalMsgs, publish_messages, ended,
}
use foundation_framework.RabbitMq.Reliable.Kept.{unconfirmed_kept}

abbrev one_delivery : Delivery
one_delivery = record {
  headers = ("x-first-death-queue", string "orders") ∷ [];
  content_type = "application/json";
  content_encoding = "";
  delivery_mode = 2;
  priority = 0;
  correlation_id = "";
  reply_to = "";
  expiration = "";
  message_id = "m";
  timestamp = 0;
  kind = "";
  user_id = "";
  app_id = "";
  consumer_tag = "c";
  message_count = 0;
  delivery_tag = 1;
  redelivered = true;
  exchange = "dead";
  routing_key = "dead";
  body = "{}";
}

-- A listener of the queue `orders` whose calls end so; it counts them.
abbrev orders : Outcome → Listener ℕ
orders o = record {
  coroutine_num = 0;
  consumer_param = record {
    consumer = "c";
    auto_ack = false;
    exclusive = false;
    no_local = false;
    no_wait = false;
    args = [];
  };
  ack_param = record { multiple = false; requeue = true };
  queue_declare_param = record {
    queue_name = "orders";
    durable = true;
    auto_delete = false;
    exclusive = false;
    no_wait = false;
    routing_key = "orders";
    exchange_name = "shop";
  };
  on_delivery = λ d w. (suc w, d, o);
}

abbrev kept_mirror : DeliveryMirror
kept_mirror = record {
  headers = [];
  content_type = "application/json";
  content_encoding = "";
  delivery_mode = 2;
  priority = 0;
  correlation_id = "";
  reply_to = "";
  expiration = "";
  message_id = "m";
  timestamp = 0;
  kind = "";
  user_id = "";
  app_id = "";
  consumer_tag = "c";
  message_count = 0;
  delivery_tag = 1;
  redelivered = false;
  exchange = "dead";
  routing_key = "dead";
  body = "{}";
}

abbrev to_json : DeliveryMirror → String × Error
to_json m = ("json", nil)

abbrev of_json : String → DeliveryMirror × Error
of_json s = (kept_mirror, nil)

abbrev no_rows : DeadMsgs
no_rows = record { next_id = 1; rows = [] }

dead_message_retried_example :
    (po : DeadMsgPo) × ((on_dead to_json nil one_delivery no_rows).0.rows ≡ po ∷ [])
    × ((on_dead to_json nil one_delivery no_rows).2 ≡ finished nil)
    × (do_rabbit_mq_dead_message_retry_send [] of_json
          (("orders", orders (finished nil)) ∷ [])
          3
          po
          nil
          0
          (on_dead to_json nil one_delivery no_rows).0
        ≡ (1, record { next_id = 2; rows = [] }, finished nil))
unfolding Dict.get new_delivery_mirror
dead_message_retried_example =
    dead_message_retried [] to_json of_json (("orders", orders (finished nil)) ∷ []) 3
      (orders (finished nil)) one_delivery "orders" "json" no_rows 0 refl refl refl refl tt refl

abbrev dead_row : ℕ → Bool → DeadMsgPo
dead_row n b = record {
  id = 1;
  message_id = "m";
  queue_name = "orders";
  message = "{}";
  delivery_message = "json";
  retry_count = n;
  deleted = b;
}

retries_exhaust_example :
    rounds [] to_json of_json
      (("orders", orders (finished (plain "down"))) ∷ [])
      3
      3
      0
      (record { next_id = 2; rows = dead_row 0 false ∷ [] })
    ≡ record { next_id = 2; rows = dead_row 3 true ∷ [] }
unfolding Dict.get
retries_exhaust_example =
    retries_exhaust [] to_json of_json (("orders", orders (finished (plain "down"))) ∷ []) 3
      (orders (finished (plain "down"))) (plain "down") refl (λ d w. refl) 2 (dead_row 0 false) 2 0
      (λ h. omega arith) refl refl (omega arith)

consume-IsReply_example :
    (r : Reply) × ((consume (orders panicked) one_delivery 0).1 ≡ r ∷ [])
    × IsReply (record { multiple = false; requeue = true }) true panicked r
consume-IsReply_example = consume-IsReply (orders panicked) one_delivery 0 refl

-- An acknowledgement, and the confirmation of a channel that is closed.
abbrev acked : Arrivals
acked = record { confirm = some true; returned = false; takes_return = false }

abbrev nacked : Arrivals
nacked = record { confirm = some false; returned = false; takes_return = false }

abbrev pub good : Broker
good = record { channel_error = nil; confirm_error = nil; publish_error = nil; arrivals = acked }

abbrev pub closing : Broker
closing = record {
  channel_error = nil;
  confirm_error = nil;
  publish_error = plain "closed";
  arrivals = nacked;
}

abbrev one_message : Sent
one_message = record {
  exchange = "shop";
  key = "orders";
  message = record { body = "{}"; message_id = "m"; delay = none };
}

do_publish-Confirms_example :
    (do_publish [] true good one_message).0 ≡ some nil
    ↔ ((true ≡ true) × Confirms good × ((do_publish [] true good one_message).1 ≡ one_message ∷ []))
do_publish-Confirms_example = do_publish-Confirms [] good one_message true

-- A value that is a number, printed as an object.
abbrev pub number_json : ℕ → String × Error
number_json n = ("{}", nil)

abbrev pub any_json : Message ℕ → String × Error
any_json m = ("\"hi\"", nil)

abbrev pub stored : TransactionalMsgPo
stored = record {
  exchange = "shop";
  routing_key = "orders";
  message = "{}";
  trigger_time = 60;
  delayed_time = pos 5;
  created_at = 0;
  deleted = false;
}

abbrev pub broker_of : String → Broker
broker_of id = closing

unconfirmed_kept_example :
    Dict.get
      (ended nil
        (publish_messages [] true number_json any_json 0 "shop" "orders"
          (pos 0)
          broker_of
          (("a", text "hi") ∷ [])).0
        (("a", stored) ∷ []))
      "a"
    ≡ Dict.get (("a", stored) ∷ []) "a"
unfolding confirm_one
unconfirmed_kept_example =
    unconfirmed_kept [] true number_json any_json 0 "shop" "orders" (pos 0) broker_of nil
      (("a", text "hi") ∷ [])
      (publish_messages [] true number_json any_json 0 "shop" "orders" (pos 0) broker_of
        (("a", text "hi") ∷ [])).0
      (("a", stored) ∷ []) "a" (λ c m. m) (λ e. absurd (cc))

-- A connection that always succeeds.
abbrev working : Gorm TransactionalMsgs
working = record {
  begin = λ t. record { before = t; now = t };
  commit = λ tx. tx.now;
  rollback = λ tx. tx.before;
}

abbrev working-Laws : GormLaws working
working-Laws = record {
  begins = λ t. refl;
  commits = λ before now. refl;
  rolls_back = λ before now. refl;
}

abbrev no_business : TransactionalMsgs → TransactionalMsgs × Ended
no_business t = (t, returned nil)

abbrev good_broker : String → Broker
good_broker id = good
