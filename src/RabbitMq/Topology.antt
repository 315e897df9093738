-- ===== src/RabbitMq/Topology.antt =====
-- `RegisterListener` of rabbitmq/rabbitmq.go: what it declares at the broker, and the listeners that
-- it starts. `W` is what listeners work on.
pub mod DeadLetters
use foundation_framework.Base.{
  String, ◌≡◌, Bool, true, false, not, ◌&&◌, ◌||◌, Option, none, some, List, [], ◌∷◌, ◌++◌,
  if◌then◌else◌, ◌=ˢ◌,
}
use foundation_framework.Base.Dict
use foundation_framework.Base.Dict.{Dict}
use foundation_framework.Err.{Error, nil, is_nil}
use foundation_framework.RabbitMq.Listener.{
  Listener, Header, string, dead_routing_key, QueueDeclareParam,
}

-- The fields of `Conf` that the registration reads.
pub record Conf : Type 0 where
  pub dead_exchange_name : String
  pub dead_queue_name : String

pub record ExchangeDeclareParam : Type 0 where
  pub name : String
  pub kind : String
  pub durable : Bool
  pub auto_delete : Bool
  pub internal : Bool
  pub no_wait : Bool
  pub args : Dict Header

-- A call of the broker: `queue_bind` has the queue, the routing key and the exchange.
pub data Call : Type 0 where
  exchange_declare : ExchangeDeclareParam → Call
  queue_declare : QueueDeclareParam → Dict Header → Call
  queue_bind : String → String → String → Call

-- Calls in their order up to the first that fails, whose error ends the process; and whether all
-- succeeded. `reply` is the error with which the broker answers a call.
issued : (Call → Error) → List Call → List Call × Bool
issued reply [] = ([], true)
issued reply (k ∷ ks) =
    let (made, ok) = issued reply ks in if is_nil (reply k) then (k ∷ made, ok) else (k ∷ [], false)

exchange_declarations : List ExchangeDeclareParam → List Call
exchange_declarations [] = []
exchange_declarations (p ∷ ps) = exchange_declare p ∷ exchange_declarations ps

unfoldable pub declare_exchange : (Call → Error) → List ExchangeDeclareParam → List Call × Bool
unfolding issued exchange_declarations
declare_exchange reply ps = issued reply (exchange_declarations ps)

queue_declarations : Dict Header → List QueueDeclareParam → List Call
queue_declarations args [] = []
queue_declarations args (p ∷ ps) =
    queue_declare p args
    ∷ queue_bind p.queue_name p.routing_key p.exchange_name
    ∷ queue_declarations args ps

unfoldable pub declare_queue :
    (Call → Error) → Dict Header → List QueueDeclareParam → List Call × Bool
unfolding issued queue_declarations
declare_queue reply args ps = issued reply (queue_declarations args ps)

-- A goroutine of `doStartListener` before it consumes: the calls with which it declares its queue,
-- and whether all succeeded.
pub record Started (W : Type 0) : Type 0 where
  pub listener : Listener W
  pub args : Dict Header
  pub calls : List Call
  pub declared : Bool

-- What a registration leaves: the calls that it made itself, `QueueNameListenerMapping`, and the
-- goroutines started, in their order.
pub record Registered (W : Type 0) : Type 0 where
  pub calls : List Call
  pub mapping : Dict (Listener W)
  pub started : List (Started W)

unfoldable pub use_dead : Conf → Bool
use_dead c = not (c.dead_queue_name =ˢ "") && not (c.dead_exchange_name =ˢ "")

abbrev no_headers : Dict Header
no_headers = []

unfoldable pub dead_exchange : Conf → ExchangeDeclareParam
dead_exchange c = record {
  name = c.dead_exchange_name;
  kind = "direct";
  durable = true;
  auto_delete = false;
  internal = true;
  no_wait = false;
  args = no_headers;
}

unfoldable pub dead_letter_args : Conf → Dict Header
dead_letter_args c =
    Dict.put (Dict.put no_headers "x-dead-letter-exchange" (string c.dead_exchange_name))
      "x-dead-letter-routing-key" (string dead_routing_key)

module _ {W : Type 0} where
  unfoldable pub queue_of : Listener W → String
  queue_of l = l.queue_declare_param.queue_name

  unfoldable pub queue_args : Conf → Listener W → Dict Header
  queue_args c l =
      if use_dead c && not (queue_of l =ˢ c.dead_queue_name) then dead_letter_args c else no_headers

  unfoldable pub do_start_listener : (Call → Error) → Listener W → Dict Header → Started W
  unfolding declare_queue
  do_start_listener reply l args =
      let (calls, ok) = declare_queue reply args (l.queue_declare_param ∷ []) in
      record { listener = l; args = args; calls = calls; declared = ok }

  unfoldable pub started : (Call → Error) → Conf → List (Listener W) → List (Started W)
  unfolding do_start_listener queue_args
  started reply c [] = []
  started reply c (l ∷ ls) = do_start_listener reply l (queue_args c l) ∷ started reply c ls

  unfoldable pub mapped : List (Listener W) → Dict (Listener W) → Dict (Listener W)
  mapped [] m = m
  mapped (l ∷ ls) m = mapped ls (Dict.put m (queue_of l) l)

  abbrev no_listeners : Dict (Listener W)
  no_listeners = []

  -- The loop over the listeners, after the calls made before it; the end of the process if one of
  -- those failed.
  unfoldable pub registering :
      (Call → Error) → Conf → List Call × Bool → List (Listener W) → Option (Option (Registered W))
  registering reply c (calls, ok) ls =
      let r : Registered W = record {
        calls = calls;
        mapping = mapped ls no_listeners;
        started = started reply c ls;
      } in
      if ok then some (some r) else none

  -- `RegisterListener`; `dead` is the listener of the dead queue, and `connected` is whether the
  -- client has a database and redis. `some none` is no registration, `none` the end of the process.
  unfoldable pub register_listener :
      (Call → Error) → Conf → Bool → Listener W → List (Listener W) → Option (Option (Registered W))
  unfolding declare_exchange
  register_listener reply c connected dead [] = some none
  register_listener reply c connected dead (l ∷ ls) =
      let declared = declare_exchange reply (dead_exchange c ∷ []) in
      if use_dead c
      then (if connected then registering reply c declared (l ∷ ls ++ dead ∷ []) else none)
      else registering reply c ([], true) (l ∷ ls)
