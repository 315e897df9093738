-- ===== src/RabbitMq/Conn.antt =====
-- The connection of rabbitmq/rabbitmq.go: newConn, the goroutine that watches it, reConnect, and the
-- calls that get a channel. A dial is what amqp's DialConfig answers, and whether the new connection
-- is still open at the second test.
pub mod Watched
use foundation_framework.Base.{
  ℕ, zero, suc, ◌+◌, ◌-◌, ◌≡◌, ◌≤◌, Bool, true, false, not, ◌&&◌, List, [], ◌∷◌, if◌then◌else◌,
}

pub data Dial : Type 0 where
  refused : Dial
  opened : Bool → Dial

-- A connection: whether it is open, the goroutines that wait for its end, the calls of reConnect
-- that goroutines have still to make, and the number of dials.
pub record Conn : Type 0 where
  pub is_open : Bool
  pub watchers : ℕ
  pub due : ℕ
  pub dials : ℕ

-- The goroutine of `startNotifyCloseListener`: the channel of a closed connection is closed at once.
unfoldable pub start_notify_close_listener : Conn → Conn
start_notify_close_listener c =
    if c.is_open then record c { watchers = suc c.watchers } else record c { due = suc c.due }

unfoldable pub new_conn : Conn
unfolding start_notify_close_listener
new_conn = start_notify_close_listener (record { is_open = true; watchers = 0; due = 0; dials = 1 })

-- The goroutine that retries after a second.
unfoldable pub retry_later : Conn → Conn
retry_later c = record c { due = suc c.due }

-- The new connection replaces the closed one.
unfoldable pub replaced : Bool → Conn → Conn
unfolding start_notify_close_listener
replaced stays c = start_notify_close_listener (record c { is_open = stays; watchers = 0 })

dialled : Dial → Conn → Conn
unfolding retry_later replaced
dialled refused c = retry_later c
dialled (opened true) c = replaced true c
dialled (opened false) c = retry_later (replaced false c)

unfoldable pub re_connect : Dial → Conn → Conn
unfolding dialled
re_connect d c = if c.is_open then c else dialled d (record c { dials = suc c.dials })

-- The connection ends, by itself or by `Close`: each goroutine that waits for that calls reConnect.
unfoldable pub ended : Conn → Conn
ended c = record c { is_open = false; watchers = 0; due = c.due + c.watchers }

unfoldable pub close : Conn → Conn
unfolding ended
close c = ended c

-- `GetChannel`, up to the channel that the connection gives.
unfoldable pub get_channel : Dial → Conn → Conn
get_channel d c = if c.is_open then c else re_connect d c

-- `GetChannelUntilSucess`: each attempt has a dial, and whether the connection gives a channel; false
-- where it still tries at the end of the attempts.
unfoldable pub get_channel_until_sucess : List (Dial × Bool) → Conn → Conn × Bool
unfolding get_channel
get_channel_until_sucess [] c = (c, false)
get_channel_until_sucess ((d, given) ∷ attempts) c =
    let c' = get_channel d c in
    let again = get_channel_until_sucess attempts c' in
    if c'.is_open && given then (c', true) else again

-- What happens to a connection.
pub data Event : Type 0 where
  lost : Event
  closed : Event
  due_re_connect : Dial → Event
  channels : List (Dial × Bool) → Event

-- A call of reConnect that a goroutine has to make.
made_due : Dial → ℕ → Conn → Conn
made_due d zero c = c
made_due d (suc n) c = re_connect d (record c { due = n })

unfoldable pub step : Event → Conn → Conn
unfolding made_due
step lost c = ended c
step closed c = close c
step (due_re_connect d) c = made_due d c.due c
step (channels attempts) c = (get_channel_until_sucess attempts c).0

unfoldable pub run : List Event → Conn → Conn
run [] c = c
run (v ∷ vs) c = run vs (step v c)
