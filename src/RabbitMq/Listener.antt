-- ===== src/RabbitMq/Listener.antt =====
-- Listeners, deliveries and their mirror in JSON, from rabbitmq/listener.go.
use foundation_framework.Base.{ℕ, String, Bool, [], ◌≡◌, refl}
use foundation_framework.Base.Dict.{Dict}
use foundation_framework.Err.{Error}

-- A value of an `amqp.Table`: a string, or of another type.
pub data Header : Type 0 where
  string : String → Header
  other : Header

abbrev pub dead_routing_key : String
dead_routing_key = "dead"

pub record ConsumerParam : Type 0 where
  pub consumer : String
  pub auto_ack : Bool
  pub exclusive : Bool
  pub no_local : Bool
  pub no_wait : Bool
  pub args : Dict Header

pub record AckParam : Type 0 where
  pub multiple : Bool
  pub requeue : Bool

pub record QueueDeclareParam : Type 0 where
  pub queue_name : String
  pub durable : Bool
  pub auto_delete : Bool
  pub exclusive : Bool
  pub no_wait : Bool
  pub routing_key : String
  pub exchange_name : String

-- `amqp.Delivery`, without its `Acknowledger`. A time is a number of nanoseconds, and a body is
-- the text of its bytes.
pub record Delivery : Type 0 where
  pub headers : Dict Header
  pub content_type : String
  pub content_encoding : String
  pub delivery_mode : ℕ
  pub priority : ℕ
  pub correlation_id : String
  pub reply_to : String
  pub expiration : String
  pub message_id : String
  pub timestamp : ℕ
  pub kind : String
  pub user_id : String
  pub app_id : String
  pub consumer_tag : String
  pub message_count : ℕ
  pub delivery_tag : ℕ
  pub redelivered : Bool
  pub exchange : String
  pub routing_key : String
  pub body : String

pub record DeliveryMirror : Type 0 where
  pub headers : Dict Header
  pub content_type : String
  pub content_encoding : String
  pub delivery_mode : ℕ
  pub priority : ℕ
  pub correlation_id : String
  pub reply_to : String
  pub expiration : String
  pub message_id : String
  pub timestamp : ℕ
  pub kind : String
  pub user_id : String
  pub app_id : String
  pub consumer_tag : String
  pub message_count : ℕ
  pub delivery_tag : ℕ
  pub redelivered : Bool
  pub exchange : String
  pub routing_key : String
  pub body : String

-- The line that copies the headers is commented out in both directions.
unfoldable pub new_delivery_mirror : Delivery → DeliveryMirror
new_delivery_mirror d = record {
  headers = [];
  content_type = d.content_type;
  content_encoding = d.content_encoding;
  delivery_mode = d.delivery_mode;
  priority = d.priority;
  correlation_id = d.correlation_id;
  reply_to = d.reply_to;
  expiration = d.expiration;
  message_id = d.message_id;
  timestamp = d.timestamp;
  kind = d.kind;
  user_id = d.user_id;
  app_id = d.app_id;
  consumer_tag = d.consumer_tag;
  message_count = d.message_count;
  delivery_tag = d.delivery_tag;
  redelivered = d.redelivered;
  exchange = d.exchange;
  routing_key = d.routing_key;
  body = d.body;
}

unfoldable pub convertor_to_delivery : DeliveryMirror → Delivery
convertor_to_delivery m = record {
  headers = [];
  content_type = m.content_type;
  content_encoding = m.content_encoding;
  delivery_mode = m.delivery_mode;
  priority = m.priority;
  correlation_id = m.correlation_id;
  reply_to = m.reply_to;
  expiration = m.expiration;
  message_id = m.message_id;
  timestamp = m.timestamp;
  kind = m.kind;
  user_id = m.user_id;
  app_id = m.app_id;
  consumer_tag = m.consumer_tag;
  message_count = m.message_count;
  delivery_tag = m.delivery_tag;
  redelivered = m.redelivered;
  exchange = m.exchange;
  routing_key = m.routing_key;
  body = m.body;
}

-- How a call of `OnDelivery` ends.
pub data Outcome : Type 0 where
  finished : Error → Outcome
  panicked : Outcome

-- A listener; `W` is what it works on. `OnDelivery` has a pointer, so it may change the delivery.
pub record Listener (W : Type 0) : Type 0 where
  pub coroutine_num : ℕ
  pub consumer_param : ConsumerParam
  pub ack_param : AckParam
  pub queue_declare_param : QueueDeclareParam
  pub on_delivery : Delivery → W → W × Delivery × Outcome

pub convertor_to_delivery-new_delivery_mirror :
    (d : Delivery) → convertor_to_delivery (new_delivery_mirror d) ≡ record d { headers = [] }
unfolding convertor_to_delivery new_delivery_mirror
convertor_to_delivery-new_delivery_mirror d = refl
