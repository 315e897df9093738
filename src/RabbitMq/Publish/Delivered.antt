-- ===== src/RabbitMq/Publish/Delivered.antt =====
-- When a publication of rabbitmq/rabbitmq.go succeeds.
use foundation_framework.Base.{
  ℕ, zero, suc, String, ◌≡◌, refl, Bool, true, false, Option, none, some, List, [], ◌∷◌, ◌↔◌, ◌⊎◌,
  inl, inr, Bool-cases, ◌&&◌, is_some,
}
use foundation_framework.Base.Int.{ℤ, pos, negsuc}
use foundation_framework.Err.{Error, nil, is_nil, nil-cases}
use foundation_framework.Err.Biz
use foundation_framework.Err.Comm
use foundation_framework.Err.Stack.{Frame}
use foundation_framework.RabbitMq.Publish.{
  Message, Arrivals, Broker, select, refused, told, Sent, Published, confirm_one, publish_now,
  or_refused, publish_reliably, do_notify_publish, verdict, do_publish, callback_panics, encode,
  with_body, notify_publish, notify_publish_delay,
}

-- An acknowledgement comes, and `select` does not take a return instead.
abbrev pub IsAcked : Arrivals → Type 0
IsAcked a = (a.confirm ≡ some true) × (a.returned && a.takes_return ≡ false)

-- A broker that accepts and acknowledges.
abbrev pub Confirms : Broker → Type 0
Confirms b =
    (b.channel_error ≡ nil) × (b.confirm_error ≡ nil) × (b.publish_error ≡ nil) × IsAcked b.arrivals

fails : {A : Type 0} (e : Error) → is_nil e ≡ false → e ≡ nil → A
fails e h h' = absurd (cc)

fails_some : {A : Type 0} (e : Error) → is_nil e ≡ false → some e ≡ some nil → A
fails_some e h h' = absurd (cc)

select_iff :
    (c : Option Bool) (r takes : Bool)
    → (select c r takes ≡ some true) ↔ ((c ≡ some true) × (r && takes ≡ false))
unfolding select
select_iff c false takes = (λ h. (h, refl), λ h. h.0)
select_iff none true takes = (λ h. absurd (cc), λ h. absurd (cc))
select_iff (some ack) true true = (λ h. absurd (cc), λ h. absurd (cc))
select_iff (some ack) true false = (λ h. (h, refl), λ h. h.0)

pub confirm_one_iff : (a : Arrivals) → (confirm_one a ≡ some true) ↔ IsAcked a
unfolding confirm_one
confirm_one_iff a = select_iff a.confirm a.returned a.takes_return

called-cases : (c : Option Bool) → (c ≡ some true) ⊎ ((c ≡ some false) ⊎ (c ≡ none))
called-cases none = inr (inr refl)
called-cases (some true) = inl refl
called-cases (some false) = inr (inl refl)

module _ (stack : List Frame) (b : Broker) (s : Sent) where
  -- `DoPublish` returns nil exactly if reliable messages are configured, the channel opens and goes
  -- to confirm mode, the message is sent, once, and `confirmOne` takes an acknowledgement: one comes
  -- after it has registered, and a return does not win the `select`.
  pub do_publish-Confirms :
      (reliable : Bool)
      → (do_publish stack reliable b s).0 ≡ some nil
        ↔ ((reliable ≡ true) × Confirms b × ((do_publish stack reliable b s).1 ≡ s ∷ []))
  unfolding do_publish do_notify_publish publish_reliably Comm.new Biz.new verdict
  do_publish-Confirms false = (λ h. absurd (cc), λ h. absurd (cc))
  do_publish-Confirms true = elim (nil-cases b.channel_error) [
    | inr c ↦ rw c (rw c (fails_some b.channel_error c, λ h. fails b.channel_error c h.1.0))
    | inl c ↦ elim (nil-cases b.confirm_error) [
      | inr m ↦ rw (c, m) (rw m (fails_some b.confirm_error m, λ h. fails b.confirm_error m h.1.1))
      | inl m ↦ elim (nil-cases b.publish_error) [
        | inr p ↦ rw (c, m, p) (fails_some b.publish_error p, λ h. fails b.publish_error p h.1.2)
        | inl p ↦ elim (called-cases (confirm_one b.arrivals)) [
          | inl a ↦
              let acked = (confirm_one_iff b.arrivals).0 a in
              rw (c, m, p, a) (λ _. (refl, (refl, refl, refl, acked), refl), λ _. refl)
          | inr (inl a) ↦
              rw (c, m, p, a)
                (
                  λ h. absurd (cc),
                  λ h. let acked = (confirm_one_iff b.arrivals).1 h.1.3 in absurd (cc),
                )
          | inr (inr a) ↦
              rw (c, m, p, a)
                (
                  λ h. absurd (cc),
                  λ h. let acked = (confirm_one_iff b.arrivals).1 h.1.3 in absurd (cc),
                )
        ]
      ]
    ]
  ]

  -- If `Publish` fails, `confirmOne` still runs: when something comes to it, as a closed channel
  -- does, it calls the callback of
  -- `DoPublish`, which sends on the channel that `DoPublish` has closed, and panics.
  publish_error_panics :
      b.channel_error ≡ nil
      → b.confirm_error ≡ nil
      → is_nil b.publish_error ≡ false
      → is_some (confirm_one b.arrivals) ≡ true
      → ((do_publish stack true b s).0 ≡ some b.publish_error)
        × (callback_panics stack true b s ≡ true)
  unfolding do_publish do_notify_publish publish_reliably or_refused callback_panics told
  publish_error_panics h h' ne a = rw (h, h', ne, a) (refl, refl)

-- The goroutine that a publication may have started waits for what its broker sends.
unfoldable pub MayWait : Arrivals → Option Arrivals → Type 0
MayWait a w = (w ≡ none) ⊎ (w ≡ some a)

or_refused-MayWait :
    (a : Arrivals) (e : Error) (p : Published)
    → MayWait a p.waiting
    → MayWait a (or_refused e p).waiting
unfolding MayWait or_refused
or_refused-MayWait a e p h = elim (Bool-cases (is_nil e)) [
  | inl n ↦ rw n h
  | inr n ↦ rw n (inl refl)
]

module _ (stack : List Frame) where
  do_notify_publish-MayWait :
      (reliable : Bool) (b : Broker) (s : Sent)
      → MayWait b.arrivals (do_notify_publish stack reliable b s).waiting
  unfolding do_notify_publish publish_reliably publish_now MayWait
  do_notify_publish-MayWait false b s = inl refl
  do_notify_publish-MayWait true b s =
      or_refused-MayWait b.arrivals b.channel_error _
        (or_refused-MayWait b.arrivals b.confirm_error _ (inr refl))

  module _ {V : Type 0} (reliable : Bool) (marshal : V → String × Error) where
    with_body-MayWait :
        (exchange key id : String) (d : Option ℤ) (m : String × Error) (b : Broker)
        → MayWait b.arrivals
            (with_body stack reliable marshal refused
              (do_notify_publish stack reliable)
              exchange
              key
              d
              id
              m
              b).waiting
    unfolding with_body MayWait
    with_body-MayWait exchange key id d (body, e) b = elim (Bool-cases (is_nil e)) [
      | inl n ↦ rw n (do_notify_publish-MayWait reliable b _)
      | inr n ↦ rw n (inl refl)
    ]

    pub notify_publish_delay-MayWait :
        (exchange key id : String) (m : Message V) (delay : ℤ) (b : Broker)
        → MayWait b.arrivals
            (notify_publish_delay stack reliable marshal exchange key m id delay b).waiting
    unfolding notify_publish_delay notify_publish
    notify_publish_delay-MayWait exchange key id m (pos zero) b =
        with_body-MayWait exchange key id none (encode stack reliable marshal m) b
    notify_publish_delay-MayWait exchange key id m (negsuc n) b =
        with_body-MayWait exchange key id none (encode stack reliable marshal m) b
    notify_publish_delay-MayWait exchange key id m (pos (suc n)) b =
        with_body-MayWait exchange key id (some (pos (suc n))) (encode stack reliable marshal m) b

module _ (stack : List Frame) {V : Type 0} (marshal : V → String × Error) where
  -- What an accepted publication of the body `body` is.
  abbrev pub accepted : String → String → String → String → Option ℤ → Arrivals → Published
  accepted exchange key id body delay a = record {
    error = nil;
    sent =
        record {
          exchange = exchange;
          key = key;
          message = record { body = body; message_id = id; delay = delay };
        }
        ∷ [];
    waiting = some a;
  }

  module _ (exchange key id body : String) (m : Message V) (b : Broker)
      (e : encode stack true marshal m ≡ (body, nil)) (h : Confirms b) where
    pub notify_publish-accepted :
        notify_publish stack true marshal exchange key m id b
        ≡ accepted exchange key id body none b.arrivals
    unfolding notify_publish with_body do_notify_publish publish_reliably or_refused publish_now
    notify_publish-accepted = rw (e, h.0, h.1, h.2) refl

    pub notify_publish_delay-accepted :
        (n : ℕ)
        → notify_publish_delay stack true marshal exchange key m id (pos (suc n)) b
          ≡ accepted exchange key id body (some (pos (suc n))) b.arrivals
    unfolding notify_publish_delay with_body do_notify_publish publish_reliably or_refused
        publish_now
    notify_publish_delay-accepted n = rw (e, h.0, h.1, h.2) refl
