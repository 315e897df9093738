-- ===== src/RabbitMq/Reliable/Sending.antt =====
-- `SendDelayMessageInTransaction` of rabbitmq/rabbitmq.go as a whole: the table and what is published.
use foundation_framework.Base.{ℕ, String, ◌≡◌, Bool, false, some, List, [], All, map}
use foundation_framework.Base.Int.{ℤ}
use foundation_framework.Base.Dict
use foundation_framework.Base.Dict.{Dict}
use foundation_framework.Err.{Error, nil, is_nil}
use foundation_framework.Err.Stack.{Frame}
use foundation_framework.Orm.{Ended, returned, panicked, Tx, Gorm, Left, closed, open_with}
use foundation_framework.RabbitMq.Publish.{Message, Broker, Sent}
use foundation_framework.RabbitMq.Reliable.{
  TransactionalMsgPo, TransactionalMsgs, Waiting, publish_messages,
  send_delay_message_in_transaction,
}

-- There is a row of the message.
abbrev pub HasRow : TransactionalMsgs → String → Type 0
HasRow t id = (po : TransactionalMsgPo) × (Dict.get t id ≡ some po)

-- A connection whose commits and rollbacks succeed.
pub record GormLaws (g : Gorm TransactionalMsgs) : Type 0 where
  pub begins : (t : TransactionalMsgs) → g.begin t ≡ record { before = t; now = t }
  pub commits :
      (before now : TransactionalMsgs) → g.commit (record { before = before; now = now }) ≡ now
  pub rolls_back :
      (before now : TransactionalMsgs) → g.rollback (record { before = before; now = now }) ≡ before

module _ {V : Type 0} (stack : List Frame) (reliable : Bool) (marshal : V → String × Error)
    (marshal_any : Message V → String × Error) (now : ℕ) (exchange key : String) where
  module _ (g : Gorm TransactionalMsgs) (laws : GormLaws g) (delay : ℤ)
      (fn : TransactionalMsgs → TransactionalMsgs × Ended) (broker : String → Broker) (e : Error)
      (ms : List (String × Message V)) (t : TransactionalMsgs) where
    abbrev run : Left TransactionalMsgs × Waiting × List Sent × Ended
    run =
        send_delay_message_in_transaction stack reliable marshal marshal_any now g exchange key
          delay fn broker e ms t

    abbrev published : Waiting × List Sent
    published = publish_messages stack reliable marshal marshal_any now exchange key delay broker ms

    -- The transaction is committed: every message has a row and all are published.
    abbrev pub IsSent : Type 0
    IsSent =
        (t' : TransactionalMsgs) × (run ≡ (closed t', published.0, published.1, returned nil))
        × ((fn t).1 ≡ returned nil)
        × All (HasRow t') (map (λ (m : String × Message V). m.0) ms)

    -- An error: the table is as it was, and nothing is published.
    abbrev pub IsRolledBack : Type 0
    IsRolledBack = (err : Error) × (is_nil err ≡ false) × (run ≡ (closed t, [], [], returned err))

    -- The business has panicked: nothing is published, and the transaction stays open.
    abbrev pub IsPanicked : Type 0
    IsPanicked =
        (tx : Tx TransactionalMsgs) × (run ≡ (open_with tx, [], [], panicked))
        × ((fn t).1 ≡ panicked)
