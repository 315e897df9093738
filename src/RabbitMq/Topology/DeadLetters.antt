-- ===== src/RabbitMq/Topology/DeadLetters.antt =====
-- The way of a dead letter: from the queue of a listener through the exchange of dead letters to the
-- dead queue, and from the stored message back to that listener.
use foundation_framework.Base.{◌≡◌, true, some, List, [], ◌∷◌}
use foundation_framework.Base.Order.{In}
use foundation_framework.Base.Dict
use foundation_framework.Base.Dict.{Dict}
use foundation_framework.RabbitMq.Listener.{Header, Listener, dead_routing_key}
use foundation_framework.Err.{Error}
use foundation_framework.RabbitMq.Topology.{
  Conf, Call, exchange_declare, queue_declare, queue_bind, Started, Registered, dead_exchange,
  dead_letter_args, queue_of, started, mapped,
}

module _ {W : Type 0} where
  -- A goroutine of which the broker has accepted the calls: it has declared its queue with `args`,
  -- and bound it to the listener's exchange with the listener's routing key.
  abbrev pub listening : Listener W → Dict Header → Started W
  listening l args =
      let p = l.queue_declare_param in
      record {
        listener = l;
        args = args;
        calls = queue_declare p args ∷ queue_bind p.queue_name p.routing_key p.exchange_name ∷ [];
        declared = true;
      }

  -- A registration by which dead letters of listener `l` arrive at the listener `dead`: it declares
  -- their exchange, starts `l` with a queue that sends them there with the dead routing key, starts
  -- `dead` with the dead queue bound to that exchange with that key, and the name of `l`'s queue leads
  -- back to `l`.
  pub record Returns (c : Conf) (dead : Listener W) (r : Registered W) (l : Listener W)
      : Type 0 where
    pub declared : In (exchange_declare (dead_exchange c)) r.calls
    pub starts : In (listening l (dead_letter_args c)) r.started
    pub arrives :
        (s : Started W) × In s r.started
        × (s.listener ≡ dead)
        × In (queue_bind c.dead_queue_name dead_routing_key c.dead_exchange_name) s.calls
    pub back : Dict.get r.mapping (queue_of l) ≡ some l

  registered :
      (reply : Call → Error) (c : Conf) (calls : List Call) (all : List (Listener W)) → Registered W
  registered reply c calls all = record {
    calls = calls;
    mapping = mapped all [];
    started = started reply c all;
  }
