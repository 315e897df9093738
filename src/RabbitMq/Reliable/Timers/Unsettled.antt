-- ===== src/RabbitMq/Reliable/Timers/Unsettled.antt =====
-- What the timers over the table `transactional_msg` do to messages that were never confirmed.
use foundation_framework.Base.{
  ℕ, ◌-◌, ◌≤◌, ◌≡◌, ◌≢◌, refl, ap, if◌then◌else◌, ◌∙◌, String, Bool, true, false, Option, none,
  some, List, [], ◌∷◌, ltb, All, ◌↔◌, inl, inr, Bool-cases, arith, sym, ◌++◌,
}
use foundation_framework.Base.Int.{pos}
use foundation_framework.Base.Order.{In}
use foundation_framework.Err.{Error, nil, is_nil}
use foundation_framework.Err.Stack.{Frame}
use foundation_framework.Redis.Server.{Redis, RedisLaws, failed}
use foundation_framework.Redis.Timed.{timed_round_runs}
use foundation_framework.RabbitMq.Publish.{
  Message, Arrivals, Sent, confirm_one, notify_publish_delay,
}
use foundation_framework.RabbitMq.Publish.Delivered.{MayWait, notify_publish_delay-MayWait}
use foundation_framework.RabbitMq.Reliable.Kept.{ended-idle}
use foundation_framework.RabbitMq.Reliable.{
  TransactionalMsgPo, TransactionalMsgs, Waiting, started, do_rabbit_mq_message_retry_send, parsed,
  is_delayed,
}
use foundation_framework.RabbitMq.Reliable.Timers.{
  Pass, list_triger_msg, newer, batch_physics_deleted_with_end_time, deleted_transactional_msg,
  week, queried, picked, retry_messages, pass, retry_loop,
}

created_at-ap :
    {id j : String} {po q : TransactionalMsgPo}
    → ◌≡◌ {A = String × TransactionalMsgPo} (j, q) (id, po)
    → q.created_at ≡ po.created_at
created_at-ap e = ap (λ (r : String × TransactionalMsgPo). r.1.created_at) e

In-newer :
    (end : ℕ) (id : String) (po : TransactionalMsgPo) (t : TransactionalMsgs)
    → In (id, po) (newer end t) ↔ (In (id, po) t × (end ≤ po.created_at))
unfolding newer
In-newer end id po [] = (λ m. elim m [ ], λ m. elim m.0 [ ])
In-newer end id po ((j, q) ∷ t) = elim (Bool-cases (ltb q.created_at end)) [
  | inl b ↦ rw b (
    λ m. let (i, f) = (In-newer end id po t).0 m in (inr i, f),
    λ m. elim m.0 [
      | inl e ↦ let g = created_at-ap e in let k = m.1 in absurd (ground arith)
      | inr i ↦ (In-newer end id po t).1 (i, m.1)
    ],
  )
  | inr b ↦ rw b (
    λ m. elim m [
      | inl e ↦ let g = created_at-ap e in (inl e, ground arith)
      | inr i ↦ let (k, f) = (In-newer end id po t).0 i in (inr k, f)
    ],
    λ m. elim m.0 [ inl e ↦ inl e | inr i ↦ inr ((In-newer end id po t).1 (i, m.1)) ],
  )
]

-- A round of `deletedTransactionalMsg` of a client that is not closed that gets its lock, where the table does not fail: the rows
-- that stay are exactly those of the last week, so that an older message is lost although it was
-- never confirmed.
pub deleted_transactional_msg-keeps :
    (r : Redis) (laws : RedisLaws r) (stack : List Frame) (now id : ℕ) (s : r.Server)
    (t : TransactionalMsgs)
    → r.owner s ≡ none
    → (r.acquire id 0 s).1 ≢ failed
    → (t' : TransactionalMsgs) × (s' : r.Server) × (e : Error) × (deleted_transactional_msg r stack
          false now nil id s t
        ≡ some (t', s', e))
      × ((key : String) (po : TransactionalMsgPo)
          → In (key, po) t' ↔ (In (key, po) t × (now - week ≤ po.created_at)))
unfolding deleted_transactional_msg batch_physics_deleted_with_end_time
deleted_transactional_msg-keeps r laws stack now id s t o ok =
    let (s', e, run) =
      timed_round_runs r stack (batch_physics_deleted_with_end_time (now - week) nil) laws id s t o
        ok in
    (_, s', e, run, λ key po. In-newer (now - week) key po t)

picked-All :
    (P : String × Arrivals → Type 0) (ready : String × Arrivals → Bool) (w : Waiting)
    → All P w
    → All P (picked ready w)
unfolding picked
picked-All P ready [] h = tt
picked-All P ready (c ∷ w) h = elim (Bool-cases (ready c)) [
  | inl b ↦ rw b (h.0, picked-All P ready w h.1)
  | inr b ↦ rw b (picked-All P ready w h.1)
]

append-All :
    (P : String × Arrivals → Type 0) (w w' : Waiting) → All P w → All P w' → All P (w ++ w')
append-All P [] w' h k = k
append-All P (c ∷ w) w' h k = (h.0, append-All P w w' h.1 k)

-- What has come to a goroutine, or will come, is no acknowledgement that it takes.
abbrev pub IsUnanswered : String × Arrivals → Type 0
IsUnanswered c = confirm_one c.1 ≢ some true

started-IsUnanswered :
    (id : String) (a : Arrivals) (w : Option Arrivals)
    → MayWait a w
    → confirm_one a ≢ some true
    → All IsUnanswered (started id w)
unfolding started MayWait
started-IsUnanswered id a none h k = tt
started-IsUnanswered id a (some b) (inl e) k = absurd (cc)
started-IsUnanswered id a (some b) (inr e) k =
    let same : b ≡ a = cc in (λ h. k (ap (λ (x : Arrivals). confirm_one x) (sym same) ∙ h), tt)

module _ {V : Type 0} (stack : List Frame) (reliable : Bool) (marshal : V → String × Error)
    (marshal_any : Message V → String × Error) (parse : String → Option V) where
  -- No broker of a pass sends an acknowledgement that `confirmOne` takes.
  abbrev Unanswered : Pass → Type 0
  Unanswered p =
      (id : String)
      → (confirm_one (p.delayed id).arrivals ≢ some true)
        × (confirm_one (p.broker id).arrivals ≢ some true)

  if-All :
      (b : Bool) (x y : Waiting × List Sent × Error)
      → All IsUnanswered x.0
      → All IsUnanswered y.0
      → All IsUnanswered (if b then x else y).0
  if-All true x y h k = h
  if-All false x y h k = k

  retry-IsUnanswered :
      (p : Pass) (id : String) (po : TransactionalMsgPo)
      → Unanswered p
      → All IsUnanswered
          (do_rabbit_mq_message_retry_send stack reliable marshal marshal_any p.now parse id po
            (p.delayed id)
            (p.broker id)).0
  unfolding do_rabbit_mq_message_retry_send notify_publish_delay
  retry-IsUnanswered p id po h =
      let m = parsed stack reliable marshal marshal_any p.now parse po.message (parse po.message) in
      let waits =
        notify_publish_delay-MayWait stack reliable marshal po.exchange po.routing_key id m in
      let late = started-IsUnanswered id _ _ (waits po.delayed_time (p.delayed id)) (h id).0 in
      let plain = started-IsUnanswered id _ _ (waits (pos 0) (p.broker id)) (h id).1 in
      if-All (is_delayed stack reliable marshal marshal_any p.now parse po.delayed_time) _ _
        (if-All _ _ _ (append-All IsUnanswered _ _ late plain) late) plain

  retry_messages-IsUnanswered :
      (p : Pass) (rows : List (String × TransactionalMsgPo))
      → Unanswered p
      → All IsUnanswered (retry_messages stack reliable marshal marshal_any parse p rows).0
  unfolding retry_messages
  retry_messages-IsUnanswered p [] h = tt
  retry_messages-IsUnanswered p ((id, po) ∷ rows) h =
      append-All IsUnanswered _ _ (retry-IsUnanswered p id po h)
        (retry_messages-IsUnanswered p rows h)

  pass-idle :
      (p : Pass) (rows : List (String × TransactionalMsgPo))
      (rest : Waiting → TransactionalMsgs → TransactionalMsgs × List Sent × Option Error)
      (w : Waiting) (t : TransactionalMsgs)
      → Unanswered p
      → is_nil p.query_error ≡ true
      → rows ≢ []
      → All IsUnanswered w
      → ((w' : Waiting) → All IsUnanswered w' → ((rest w' t).0 ≡ t) × ((rest w' t).2 ≡ none))
      → ((pass stack reliable marshal marshal_any parse p rows rest w t).0 ≡ t)
        × ((pass stack reliable marshal marshal_any parse p rows rest w t).2 ≡ none)
  unfolding pass
  pass-idle p [] rest w t h q due u k = absurd (due refl)
  pass-idle p (row ∷ rows) rest w t h q due u k =
      let all = append-All IsUnanswered w _ u (retry_messages-IsUnanswered p (row ∷ rows) h) in
      rw (q, ended-idle p.table_error _ t (picked-All IsUnanswered p.ready _ all))
        (k _ (picked-All IsUnanswered _ _ all))

  -- While a message is due, the table answers and `confirmOne` takes no acknowledgement, the loop of
  -- a retry never ends, however often it goes round and whichever goroutines end meanwhile, and the
  -- table stays as it is: the loop keeps its lock, and does not look at the state that `Close` sets.
  pub retry_loop_endless :
      (ps : List Pass) (w : Waiting) (t : TransactionalMsgs)
      → All Unanswered ps
      → All (λ p. is_nil p.query_error ≡ true) ps
      → All (λ p. list_triger_msg p.now t ≢ []) ps
      → All IsUnanswered w
      → ((retry_loop stack reliable marshal marshal_any parse ps w t).0 ≡ t)
        × ((retry_loop stack reliable marshal marshal_any parse ps w t).2 ≡ none)
  unfolding retry_loop queried
  retry_loop_endless [] w t h q due u = (refl, refl)
  retry_loop_endless (p ∷ ps) w t h q due u = rw q.0 (
      pass-idle p (list_triger_msg p.now t) _ w t h.0 q.0 due.0 u
        (λ w'. retry_loop_endless ps w' t h.1 q.1 due.1))

  -- Where the query fails and returns no rows, the error is lost: the function returns nil.
  query_error_lost :
      (p : Pass) (ps : List Pass) (w : Waiting) (t : TransactionalMsgs)
      → is_nil p.query_error ≡ false
      → p.returned ≡ []
      → retry_loop stack reliable marshal marshal_any parse (p ∷ ps) w t ≡ (t, [], some nil)
  unfolding retry_loop queried pass
  query_error_lost p ps w t b e = rw (b, e) refl
