-- ===== src/RabbitMq/Conn/Watched.antt =====
-- A connection is never given up.
use foundation_framework.Base.{
  ℕ, zero, suc, ◌+◌, ◌≡◌, ◌≤◌, ◌&&◌, refl, Bool, true, false, List, [], ◌∷◌, if◌then◌else◌,
  Bool-cases, inl, inr, arith,
}
use foundation_framework.RabbitMq.Conn.{
  Dial, refused, opened, Conn, start_notify_close_listener, new_conn, retry_later, replaced,
  dialled, re_connect, ended, close, get_channel, get_channel_until_sucess, Event, lost, closed,
  due_re_connect, channels, made_due, step, run,
}

-- One goroutine waits for the end of an open connection, and somebody is to reconnect a closed one.
pub record IsWatched (c : Conn) : Type 0 where
  pub watched : c.is_open ≡ true → c.watchers ≡ 1
  pub retried : c.is_open ≡ false → 1 ≤ c.due

new_conn-IsWatched : IsWatched new_conn
unfolding new_conn start_notify_close_listener
new_conn-IsWatched = record { watched = λ h. refl; retried = λ h. absurd (cc) }

replaced-IsWatched : (b : Bool) (c : Conn) → IsWatched (replaced b c)
unfolding replaced start_notify_close_listener
replaced-IsWatched true c = record { watched = λ h. refl; retried = λ h. absurd (cc) }
replaced-IsWatched false c = record { watched = λ h. absurd (cc); retried = λ h. omega arith }

dialled-IsWatched : (d : Dial) (c : Conn) → c.is_open ≡ false → IsWatched (dialled d c)
unfolding dialled retry_later replaced start_notify_close_listener
dialled-IsWatched refused c h = record { watched = λ t. absurd (cc); retried = λ f. omega arith }
dialled-IsWatched (opened true) c h = replaced-IsWatched true c
dialled-IsWatched (opened false) c h = record {
  watched = λ t. absurd (cc);
  retried = λ f. omega arith;
}

IsWatched-if :
    (b : Bool) (x y : Conn)
    → (b ≡ true → IsWatched x)
    → (b ≡ false → IsWatched y)
    → IsWatched (if b then x else y)
IsWatched-if true x y f g = f refl
IsWatched-if false x y f g = g refl

re_connect-IsWatched :
    (d : Dial) (c : Conn) → (c.is_open ≡ true → c.watchers ≡ 1) → IsWatched (re_connect d c)
unfolding re_connect
re_connect-IsWatched d c w =
    IsWatched-if c.is_open c (dialled d (record c { dials = suc c.dials }))
      (λ t. record { watched = w; retried = λ f. absurd (cc) })
      (λ f. dialled-IsWatched d (record c { dials = suc c.dials }) f)

ended-IsWatched : (c : Conn) → IsWatched c → IsWatched (ended c)
unfolding ended
ended-IsWatched c h = record {
  watched = λ t. absurd (cc);
  retried = λ f. elim (Bool-cases c.is_open) [
    | inl t ↦ let one = h.watched t in omega arith
    | inr n ↦ let some_due = h.retried n in omega arith
  ];
}

get_channel-IsWatched : (d : Dial) (c : Conn) → IsWatched c → IsWatched (get_channel d c)
unfolding get_channel
get_channel-IsWatched d c h =
    IsWatched-if c.is_open c (re_connect d c) (λ t. h) (λ f. re_connect-IsWatched d c h.watched)

get_channel_until_sucess-IsWatched :
    (attempts : List (Dial × Bool)) (c : Conn)
    → IsWatched c
    → IsWatched (get_channel_until_sucess attempts c).0
unfolding get_channel_until_sucess
get_channel_until_sucess-IsWatched [] c h = h
get_channel_until_sucess-IsWatched ((d, given) ∷ attempts) c h =
    let one = get_channel-IsWatched d c h in
    let later = get_channel_until_sucess-IsWatched attempts (get_channel d c) one in
    elim (Bool-cases ((get_channel d c).is_open && given)) [ inl t ↦ rw t one | inr f ↦ rw f later ]

made_due-IsWatched : (d : Dial) (n : ℕ) (c : Conn) → IsWatched c → IsWatched (made_due d n c)
unfolding made_due
made_due-IsWatched d zero c h = h
made_due-IsWatched d (suc n) c h = re_connect-IsWatched d (record c { due = n }) h.watched

step-IsWatched : (v : Event) (c : Conn) → IsWatched c → IsWatched (step v c)
unfolding step close
step-IsWatched lost c h = ended-IsWatched c h
step-IsWatched closed c h = ended-IsWatched c h
step-IsWatched (due_re_connect d) c h = made_due-IsWatched d c.due c h
step-IsWatched (channels attempts) c h = get_channel_until_sucess-IsWatched attempts c h

run-keeps : (vs : List Event) (c : Conn) → IsWatched c → IsWatched (run vs c)
unfolding run
run-keeps [] c h = h
run-keeps (v ∷ vs) c h = run-keeps vs (step v c) (step-IsWatched v c h)

-- Through whatever losses, dials and calls for channels, an open connection has exactly one
-- goroutine that waits for its end, and a closed one has a goroutine that is to reconnect it.
pub run-IsWatched : (vs : List Event) → IsWatched (run vs new_conn)
run-IsWatched vs = run-keeps vs new_conn new_conn-IsWatched

made_due-opens :
    (n w m k : ℕ)
    → 1 ≤ n
    → (made_due
        (opened true)
        n
        (record { is_open = false; watchers = w; due = m; dials = k })).is_open
      ≡ true
unfolding made_due re_connect dialled replaced start_notify_close_listener
made_due-opens zero w m k h = absurd (omega arith)
made_due-opens (suc n) w m k h = refl

-- Whatever has happened before, `Close` leaves a goroutine that reconnects: if its dial succeeds, the
-- closed client is connected again.
close_reconnects :
    (vs : List Event)
    → (step (due_re_connect (opened true)) (step closed (run vs new_conn))).is_open ≡ true
unfolding step close ended
close_reconnects vs =
    let c = run vs new_conn in
    let h = ended-IsWatched c (run-IsWatched vs) in
    made_due-opens (c.due + c.watchers) 0 (c.due + c.watchers) c.dials (h.retried refl)
