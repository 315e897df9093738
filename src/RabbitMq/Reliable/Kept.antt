-- ===== src/RabbitMq/Reliable/Kept.antt =====
-- Which messages stay in the table, and what a retry sends.
use foundation_framework.Base.{
  ℕ, suc, String, ◌≡◌, ◌≢◌, refl, ◌∙◌, ap, Bool, true, false, Option, none, some, List, [], ◌∷◌,
  ◌++◌, arith, Bool-cases, Option-cases, inl, inr, eq_iff, sym, ◌=ˢ◌, All,
}
use foundation_framework.Base.Int.{ℤ, pos}
use foundation_framework.Base.Dict
use foundation_framework.Base.Dict.{Dict, get-put}
use foundation_framework.Base.Order.{In, In-split}
use foundation_framework.Err.{Error, nil, is_nil}
use foundation_framework.Err.Stack.{Frame}
use foundation_framework.RabbitMq.Publish.{
  Message, text, value, Broker, Arrivals, Published, encode, notify_publish_delay, confirm_one,
}
use foundation_framework.RabbitMq.Publish.Delivered.{
  MayWait, notify_publish_delay-MayWait, notify_publish_delay-accepted, notify_publish-accepted,
  Confirms, accepted,
}
use foundation_framework.RabbitMq.Reliable.{
  TransactionalMsgPo, TransactionalMsgs, Waiting, started, ended, soft_deleted, deleted_by_id,
  callback, new_row, publish_messages, parsed, is_delayed, do_rabbit_mq_message_retry_send,
}

-- A row stays as it is when another message is deleted.
pub deleted_by_id-other :
    (id j : String) (e : Error) (t : TransactionalMsgs)
    → id ≢ j
    → Dict.get (deleted_by_id id e t) j ≡ Dict.get t j
unfolding deleted_by_id soft_deleted
deleted_by_id-other id j e t ne = elim (Bool-cases (is_nil e)) [
  | inr n ↦ rw n refl
  | inl n ↦ rw n (elim (Option-cases (Dict.get t id)) [
    | inr (po, h) ↦
        rw h (ground (arith, get-put t id j (record po { deleted = true }), eq_iff id j))
    | inl h ↦ rw h refl
  ])
]

callback-other :
    (id j : String) (e : Error) (called : Option Bool) (t : TransactionalMsgs)
    → id ≢ j
    → Dict.get (callback id e called t) j ≡ Dict.get t j
unfolding callback
callback-other id j e none t ne = refl
callback-other id j e (some false) t ne = refl
callback-other id j e (some true) t ne = deleted_by_id-other id j e t ne

callback-idle :
    (id : String) (e : Error) (called : Option Bool) (t : TransactionalMsgs)
    → called ≢ some true
    → callback id e called t ≡ t
unfolding callback
callback-idle id e none t h = refl
callback-idle id e (some false) t h = refl
callback-idle id e (some true) t h = absurd (h refl)

-- A goroutine of a publication waits for what the broker of its message sends.
pub In-started :
    (id j : String) (w : Option Arrivals) (a a' : Arrivals)
    → MayWait a w
    → In (j, a') (started id w)
    → (j ≡ id) × (a' ≡ a)
unfolding started MayWait
In-started id j none a a' h m = elim m [ ]
In-started id j (some b) a a' (inl e) m = absurd (cc)
In-started id j (some b) a a' (inr e) (inl m) = (cc, cc)
In-started id j (some b) a a' (inr e) (inr m) = elim m [ ]

-- Goroutines that are told of no acknowledgement leave the table.
pub ended-idle :
    (e : Error) (w : Waiting) (t : TransactionalMsgs)
    → All (λ c. confirm_one c.1 ≢ some true) w
    → ended e w t ≡ t
unfolding ended
ended-idle e [] t h = refl
ended-idle e ((j, a) ∷ w) t h = ended-idle e w _ h.1 ∙ callback-idle j e (confirm_one a) t h.0

-- Goroutines of which none for the message `id` is told of an acknowledgement leave its row.
pub ended-keeps :
    (e : Error) (w : Waiting) (t : TransactionalMsgs) (id : String)
    → ((a : Arrivals) → In (id, a) w → confirm_one a ≢ some true)
    → Dict.get (ended e w t) id ≡ Dict.get t id
unfolding ended
ended-keeps e [] t id h = refl
ended-keeps e ((j, a) ∷ w) t id h =
    ended-keeps e w _ id (λ b m. h b (inr m)) ∙ elim (Bool-cases (j =ˢ id)) [
      | inr f ↦
          callback-other j id e (confirm_one a) t
            (λ same. let g = (eq_iff j id).1 same in absurd (cc))
      | inl same ↦
          let eq : j ≡ id = (eq_iff j id).0 same in
          ap (λ (s : TransactionalMsgs). Dict.get s id)
            (callback-idle j e (confirm_one a) t (h a (inl (ap (λ (i : String). (i, a)) eq))))
    ]

module _ {V : Type 0} (stack : List Frame) (reliable : Bool) (marshal : V → String × Error)
    (marshal_any : Message V → String × Error) (now : ℕ) where
  In-publish_messages :
      (exchange key : String) (delay : ℤ) (broker : String → Broker)
      (ms : List (String × Message V)) (id : String) (a : Arrivals)
      → In
          (id, a)
          (publish_messages stack reliable marshal marshal_any now exchange key delay broker ms).0
      → a ≡ (broker id).arrivals
  unfolding publish_messages
  In-publish_messages exchange key delay broker [] id a m = elim m [ ]
  In-publish_messages exchange key delay broker ((j, x) ∷ ms) id a m =
      let p = notify_publish_delay stack reliable marshal exchange key x j delay (broker j) in
      elim (In-split (id, a) (started j p.waiting) _ m) [
        | inl n ↦
            let (same, eq) =
              In-started j id p.waiting (broker j).arrivals a
                (notify_publish_delay-MayWait stack reliable marshal exchange key j x delay
                  (broker j))
                n in
            eq ∙ ap (λ (i : String). (broker i).arrivals) (sym same)
        | inr n ↦ In-publish_messages exchange key delay broker ms id a n
      ]

  -- After the publications that follow the commit, in which `confirmOne` takes no acknowledgement of
  -- a message, its row stays as it is, whichever of the goroutines that these publications started
  -- have ended, in whatever order.
  pub unconfirmed_kept :
      (exchange key : String) (delay : ℤ) (broker : String → Broker) (e : Error)
      (ms : List (String × Message V)) (ran : Waiting) (t : TransactionalMsgs) (id : String)
      → ((c : String × Arrivals)
          → In c ran
          → In c
              (publish_messages stack reliable marshal marshal_any now exchange key delay broker
                ms).0)
      → confirm_one (broker id).arrivals ≢ some true
      → Dict.get (ended e ran t) id ≡ Dict.get t id
  unconfirmed_kept exchange key delay broker e ms ran t id started h =
      ended-keeps e ran t id (λ a m k. h (
        ap (λ (x : Arrivals). confirm_one x)
          (sym (In-publish_messages exchange key delay broker ms id a (started (id, a) m)))
        ∙ k))

  module _ (parse : String → Option V) (exchange key id : String) (b b' : Broker) (h : Confirms b)
      (h' : Confirms b') where
    -- A row with a delay is published twice by one retry, where the broker accepts both: with the
    -- delay, and at once.
    delayed_row_resent_twice :
        (po : TransactionalMsgPo) (v : V) (body : String) (n : ℕ)
        → po.delayed_time ≡ pos (suc n)
        → parse po.message ≡ some v
        → marshal v ≡ (body, nil)
        → (do_rabbit_mq_message_retry_send stack true marshal marshal_any now parse id po b b').1
          ≡ (accepted stack marshal po.exchange po.routing_key id body
              (some (pos (suc n)))
              b.arrivals).sent
            ++ (accepted stack marshal po.exchange po.routing_key id body none b'.arrivals).sent
    unfolding do_rabbit_mq_message_retry_send parsed is_delayed encode
    delayed_row_resent_twice po v body n d p m =
        rw
          (
            d,
            p,
            notify_publish_delay-accepted stack marshal po.exchange po.routing_key id body (value v)
                b m h n,
            notify_publish-accepted stack marshal po.exchange po.routing_key id body (value v) b' m
                h',
          )
          refl

    -- The first publication of a string with a delay sends the string and the delay. The retry of
    -- the row that was saved for it sends the JSON text of the string, and no delay.
    stored_text_resent :
        (s json : String) (n : ℕ)
        → parse json ≡ none
        → ((notify_publish_delay stack true marshal exchange key (text s) id (pos (suc n)) b).sent
            ≡ (accepted stack marshal exchange key id s (some (pos (suc n))) b.arrivals).sent)
          × ((do_rabbit_mq_message_retry_send stack true marshal marshal_any now parse id
                (new_row stack true marshal marshal_any now exchange key json)
                b
                b').1
              ≡ (accepted stack marshal exchange key id json none b'.arrivals).sent)
    unfolding do_rabbit_mq_message_retry_send parsed is_delayed new_row encode
    stored_text_resent s json n p = (
      ap (λ (q : Published). q.sent)
          (notify_publish_delay-accepted stack marshal exchange key id s (text s) b refl h n),
      rw (p, notify_publish-accepted stack marshal exchange key id json (text json) b' refl h')
          refl,
    )
