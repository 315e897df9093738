-- ===== src/RabbitMq/Publish.antt =====
-- Publishing with confirmation in rabbitmq/rabbitmq.go, over a broker whose answers are arguments.
pub mod Delivered
use foundation_framework.Base.{
  ℕ, zero, suc, String, ◌≡◌, ◌≢◌, refl, Bool, true, false, Option, none, some, List, [], ◌∷◌,
  if◌then◌else◌, not, ◌&&◌, is_some,
}
use foundation_framework.Base.Int.{ℤ, pos, negsuc}
use foundation_framework.Err.{Error, nil, is_nil}
use foundation_framework.Err.Biz
use foundation_framework.Err.Comm
use foundation_framework.Err.Stack.{Frame}

-- A message of type `any`: a string, or a value of another type.
pub data Message (V : Type 0) : Type 0 where
  text : String → Message V
  value : V → Message V

-- The fields of `amqp.Publishing` that change; `delay` is the header `x-delay`. A message is
-- persistent and its content type is JSON.
pub record Publishing : Type 0 where
  pub body : String
  pub message_id : String
  pub delay : Option ℤ

-- What comes to `confirmOne` on its two channels after it has registered them: a confirmation, with
-- its `Ack`, and a return. A mandatory message without a queue has both, and `select` takes one of
-- them: `takes_return` is which. A channel that is closed yields a confirmation without `Ack`. A
-- confirmation that comes before `NotifyPublish` is registered is none.
pub record Arrivals : Type 0 where
  pub confirm : Option Bool
  pub returned : Bool
  pub takes_return : Bool

-- The broker during one publication: the errors of `GetChannel`, `Confirm` and `Publish`, and what
-- comes to `confirmOne`, if it is started.
pub record Broker : Type 0 where
  pub channel_error : Error
  pub confirm_error : Error
  pub publish_error : Error
  pub arrivals : Arrivals

-- What a call sends: exchange, routing key and message.
pub record Sent : Type 0 where
  pub exchange : String
  pub key : String
  pub message : Publishing

-- What `DoNotifyPublish` returns at once: its error, what it sent, and the goroutine of `confirmOne`
-- that it has started, which still waits for what comes to it.
pub record Published : Type 0 where
  pub error : Error
  pub sent : List Sent
  pub waiting : Option Arrivals

-- The `select` of `confirmOne` over a confirmation and a return.
select : Option Bool → Bool → Bool → Option Bool
select c false takes = c
select none true takes = some false
select (some ack) true takes = if takes then some false else some ack

-- The `success` with which `confirmOne` calls its listener; `none` where it waits forever.
unfoldable pub confirm_one : Arrivals → Option Bool
unfolding select
confirm_one a = select a.confirm a.returned a.takes_return

abbrev pub refused : Error → Published
refused e = record { error = e; sent = []; waiting = none }

-- `go confirmOne` and then `channel.Publish`, which does not wait for it.
publish_now : Error → Arrivals → Sent → Published
publish_now e a s = record { error = e; sent = if is_nil e then s ∷ [] else []; waiting = some a }

-- An early return on an error.
or_refused : Error → Published → Published
or_refused e rest = if is_nil e then rest else refused e

module _ (stack : List Frame) (reliable : Bool) where
  -- `reliable` is `conf.SendReliableMessage`.
  publish_reliably : Bool → Broker → Sent → Published
  publish_reliably false b s = refused (Comm.new stack "SendReliableMessage must be true")
  publish_reliably true b s =
      let published = publish_now b.publish_error b.arrivals s in
      let confirmed = or_refused b.confirm_error published in or_refused b.channel_error confirmed

  unfoldable pub do_notify_publish : Broker → Sent → Published
  unfolding publish_reliably or_refused publish_now
  do_notify_publish b s = publish_reliably reliable b s

  -- What the callback of `DoPublish` puts on the channel, if it is ever called.
  verdict : Option Bool → Option Error
  verdict (some true) = some nil
  verdict (some false) = some (Biz.new stack "message send failed")
  verdict none = none

  -- The callback's `success`, of the goroutine that was started.
  told : Option Arrivals → Option Bool
  unfolding confirm_one
  told none = none
  told (some a) = confirm_one a

  awaited : Error → Option Arrivals → Option Error
  unfolding verdict told
  awaited e w = if is_nil e then verdict (told w) else some e

  -- The error, or `none` where it waits on the channel forever, and what was sent.
  unfoldable pub do_publish : Broker → Sent → Option Error × List Sent
  unfolding awaited do_notify_publish
  do_publish b s = let p = do_notify_publish b s in (awaited p.error p.waiting, p.sent)

  -- The callback of `DoPublish` sends on a channel that `DoPublish` closes when it returns: it
  -- panics if it is called although `DoNotifyPublish` failed.
  is_closed : Error → Option Bool → Bool
  is_closed e called = not (is_nil e) && is_some called

  unfoldable pub callback_panics : Broker → Sent → Bool
  unfolding is_closed told
  callback_panics b s = let p = do_notify_publish b s in is_closed p.error (told p.waiting)

  module _ {V : Type 0} (marshal : V → String × Error) where
    -- `message.(string)` is sent as it is, another value as JSON.
    unfoldable pub encode : Message V → String × Error
    encode (text s) = (s, nil)
    encode (value v) = marshal v

    with_body :
        {R : Type 0}
        → (Error → R)
        → (Broker → Sent → R)
        → String
        → String
        → Option ℤ
        → String
        → String × Error
        → Broker
        → R
    with_body fail send exchange key delay id (body, e) b =
        let published = send b (record {
          exchange = exchange;
          key = key;
          message = record { body = body; message_id = id; delay = delay };
        }) in
        if is_nil e then published else fail e

    -- `DoPublish` is not called.
    unsent : Error → Option Error × List Sent
    unsent e = (some e, [])

    unfoldable pub notify_publish : String → String → Message V → String → Broker → Published
    unfolding with_body encode
    notify_publish exchange key message id =
        with_body refused do_notify_publish exchange key none id (encode message)

    -- A delay that is not positive is none.
    unfoldable pub notify_publish_delay :
        String → String → Message V → String → ℤ → Broker → Published
    unfolding with_body encode notify_publish
    notify_publish_delay exchange key message id (pos (suc n)) =
        with_body refused do_notify_publish exchange key (some (pos (suc n))) id (encode message)
    notify_publish_delay exchange key message id (pos zero) = notify_publish exchange key message id
    notify_publish_delay exchange key message id (negsuc n) = notify_publish exchange key message id

    unfoldable pub publish : String → String → Message V → Broker → Option Error × List Sent
    unfolding with_body encode unsent
    publish exchange key message = with_body unsent do_publish exchange key none "" (encode message)

    unfoldable pub publish_delay :
        String → String → Message V → ℤ → Broker → Option Error × List Sent
    unfolding with_body encode unsent publish
    publish_delay exchange key message (pos (suc n)) =
        with_body unsent do_publish exchange key (some (pos (suc n))) "" (encode message)
    publish_delay exchange key message (pos zero) = publish exchange key message
    publish_delay exchange key message (negsuc n) = publish exchange key message
