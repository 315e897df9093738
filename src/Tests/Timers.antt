-- ===== src/Tests/Timers.antt =====
-- The timers on a server with one free key.
use foundation_framework.Base.{
  ℕ, ◌+◌, ◌-◌, ◌*◌, ◌≤◌, String, ◌≡◌, refl, ◌↔◌, Option, none, some, List, [], ◌∷◌, All, true,
  false, arith,
}
use foundation_framework.Base.Int.{pos}
use foundation_framework.Base.Dict
use foundation_framework.Base.Order.{In}
use foundation_framework.Err.{Error, nil}
use foundation_framework.Xxl.Log.{LogPo}
use foundation_framework.Xxl.Clear.{clear_log, new_mysql_log, clear_log-keeps, day}
use foundation_framework.RabbitMq.Publish.{Broker, confirm_one}
use foundation_framework.RabbitMq.Reliable.{TransactionalMsgPo, TransactionalMsgs, ended}
use foundation_framework.RabbitMq.Reliable.Timers.{
  deleted_transactional_msg, week, Pass, list_triger_msg, retry_messages, retry_loop,
}
use foundation_framework.RabbitMq.Reliable.Timers.Unsettled.{
  deleted_transactional_msg-keeps, retry_loop_endless,
}
use foundation_framework.RabbitMq.Reliable.Timers.Settled.{IsSettled, retry_messages-IsSettled}
use foundation_framework.Tests.Locks.{KeyState, one_key, one_key-Laws}
use foundation_framework.Tests.Queues.{good, stored, number_json, any_json, broker_of}

abbrev two_logs : List LogPo
two_logs =
    record { log_id = pos 1; level = 0; text = "old"; created_at = 5 }
    ∷ record { log_id = pos 2; level = 1; text = "new"; created_at = 3 * day }
    ∷ []

clear_log-keeps_example :
    (rows' : List LogPo) × (s' : KeyState) × (e : Error) × (clear_log one_key []
        (new_mysql_log (record { keep_days = pos 2 }))
        (4 * day)
        nil
        7
        (none, 0)
        two_logs
      ≡ some (rows', s', e))
    × ((p : LogPo) → In p rows' ↔ (In p two_logs × (4 * day ≤ p.created_at + 2 * day)))
clear_log-keeps_example =
    clear_log-keeps one_key one_key-Laws [] 2 (4 * day) 7 (none, 0) two_logs (omega arith) refl
      (λ e. absurd (cc))

abbrev one_row : TransactionalMsgs
one_row = ("a", stored) ∷ []

abbrev HasRow : String → TransactionalMsgPo → TransactionalMsgs → Type 0
HasRow key po t = In {A = String × TransactionalMsgPo} (key, po) t

deleted_transactional_msg-keeps_example :
    (t' : TransactionalMsgs) × (s' : KeyState) × (e : Error) × (deleted_transactional_msg one_key []
        false 700000 nil 7
        (none, 0)
        one_row
      ≡ some (t', s', e))
    × ((key : String) (po : TransactionalMsgPo)
        → HasRow key po t' ↔ (HasRow key po one_row × (700000 - week ≤ po.created_at)))
deleted_transactional_msg-keeps_example =
    deleted_transactional_msg-keeps one_key one_key-Laws [] 700000 7 (none, 0) one_row refl
      (λ e. absurd (cc))

abbrev unanswered : Pass
unanswered = record {
  now = 100;
  query_error = nil;
  returned = [];
  delayed = broker_of;
  broker = broker_of;
  ready = λ c. true;
  table_error = nil;
}

abbrev no_object : String → Option ℕ
no_object s = none

retry_loop_endless_example :
    ((retry_loop [] true number_json any_json no_object (unanswered ∷ unanswered ∷ []) [] one_row).0
      ≡ one_row)
    × ((retry_loop [] true number_json any_json no_object
          (unanswered ∷ unanswered ∷ [])
          []
          one_row).2
        ≡ none)
unfolding list_triger_msg confirm_one
retry_loop_endless_example =
    retry_loop_endless [] true number_json any_json no_object (unanswered ∷ unanswered ∷ []) []
      one_row
      (λ id. (λ e. absurd (cc), λ e. absurd (cc)), (λ id. (λ e. absurd (cc), λ e. absurd (cc)), tt))
      (refl, (refl, tt)) (λ e. absurd (cc), (λ e. absurd (cc), tt)) tt

abbrev good_of : String → Broker
good_of id = good

abbrev confirming : Pass
confirming = record unanswered { delayed = good_of; broker = good_of }

retry_messages-IsSettled_example :
    All
      (λ r. IsSettled r.0 (
        ended nil
          (retry_messages [] true number_json any_json no_object confirming one_row).0
          one_row))
      one_row
unfolding Dict.get
retry_messages-IsSettled_example =
    retry_messages-IsSettled [] number_json any_json no_object (λ n. ("{}", refl)) confirming
      one_row (retry_messages [] true number_json any_json no_object confirming one_row).0 one_row
      (λ id. ((refl, refl, refl, (refl, refl)), (refl, refl, refl, (refl, refl))))
      ((stored, refl), tt) (λ c m. m)
