-- ===== src/Redis/Expiry.antt =====
-- How long the key lives, against the period of `renewLock` of redis/redis.go.
use foundation_framework.Base.{
  ℕ, suc, ◌+◌, ◌*◌, ◌<◌, ◌≡◌, refl, inl, inr, Bool, true, false, some, List, [], ◌∷◌, arith,
}
use foundation_framework.Redis.Server.{Redis, RedisLaws, granted}
use foundation_framework.Redis.{
  Lock, new_redis_lock, set_expire, enter, done, attempted, try_lock, answered, lock, contended,
  lock_with_context, renewed, renew_lock, renew_period, released, unlock,
}
use foundation_framework.Redis.Exclusion.{Answer-cases}

module _ (r : Redis) (laws : RedisLaws r) where
  open r use {Server, acquire, release, owner, ttl}

  granted-ttl :
      (id n : ℕ) (s : Server)
      → (acquire id n s).1 ≡ granted
      → ttl (acquire id n s).0 ≡ n * 1000 + 500
  granted-ttl id n s g = (laws.acquire_granted id n s g).2

  lock_short :
      (id : ℕ) (world : List (Server → Server)) (s : Server)
      → (lock r world (new_redis_lock id) s).2 ≡ done true
      → ttl (lock r world (new_redis_lock id) s).1 < renew_period
  unfolding lock answered new_redis_lock
  lock_short id [] s = elim (Answer-cases (acquire id 0 s).1) [
    | inl g ↦ rw g (λ _. omega (arith, granted-ttl id 0 s g))
    | inr (inl d) ↦ rw d (λ h. absurd (cc))
    | inr (inr f) ↦ rw f (λ h. absurd (cc))
  ]
  lock_short id (w ∷ world) s = elim (Answer-cases (acquire id 0 s).1) [
    | inl g ↦ rw g (λ _. omega (arith, granted-ttl id 0 s g))
    | inr (inl d) ↦ rw d (lock_short id world (w (acquire id 0 s).0))
    | inr (inr f) ↦ rw f (λ h. absurd (cc))
  ]

  try_lock_short :
      (id : ℕ) (s : Server)
      → (try_lock r (new_redis_lock id) s).2 ≡ true
      → ttl (try_lock r (new_redis_lock id) s).1 < renew_period
  unfolding try_lock attempted new_redis_lock
  try_lock_short id s = elim (Answer-cases (acquire id 0 s).1) [
    | inl g ↦ rw g (λ _. omega (arith, granted-ttl id 0 s g))
    | inr (inl d) ↦ rw d (λ h. absurd (cc))
    | inr (inr f) ↦ rw f (λ h. absurd (cc))
  ]

  try_lock-enter :
      (l : Lock) (s : Server)
      → (try_lock r l s).2 ≡ true
      → (try_lock r l s).0 ≡ enter (set_expire 60 l)
  unfolding try_lock attempted
  try_lock-enter l s = elim (Answer-cases (acquire l.id l.seconds s).1) [
    | inl g ↦ rw g (λ _. refl)
    | inr (inl d) ↦ rw d (λ h. absurd (cc))
    | inr (inr f) ↦ rw f (λ h. absurd (cc))
  ]

  unlock-state :
      (l : Lock) (s : Server) → (unlock r l s).2 ≡ true → (unlock r l s).0 ≡ record l { state = 0 }
  unfolding unlock released
  unlock-state l s = elim (Answer-cases (release l.id s).1) [
    | inl g ↦ rw g (λ _. refl)
    | inr (inl d) ↦ rw d (λ h. absurd (cc))
    | inr (inr f) ↦ rw f (λ h. absurd (cc))
  ]

  relock_fields :
      (l : Lock)
      → l.state ≡ 0
      → (enter (set_expire 60 (record (enter (set_expire 60 l)) { state = 0 }))).renewals
        ≡ suc (suc l.renewals)
  unfolding enter set_expire
  relock_fields l free = rw free refl

  -- When `TryLock` or `Lock` has taken a new lock, `Lock` at once or after any waiting, the key lives
  -- for less than the time to its first renewal: `SetExpire` comes after `Acquire`.
  pub new_lock_expires :
      (id : ℕ) (world : List (Server → Server)) (s s' : Server)
      → (try_lock r (new_redis_lock id) s).2 ≡ true
      → (lock r world (new_redis_lock id) s').2 ≡ done true
      → (ttl (try_lock r (new_redis_lock id) s).1 < renew_period)
        × (ttl (lock r world (new_redis_lock id) s').1 < renew_period)
  new_lock_expires id world s s' h h' = (try_lock_short id s h, lock_short id world s' h')

  -- A lock that holds its key with the seconds that all three calls set is renewed by the next
  -- round of its goroutine, if the script does not fail, and then outlives the round after it.
  renew_lock_extends :
      (l : Lock) (s : Server)
      → l.state ≡ 1
      → l.seconds ≡ 60
      → owner s ≡ some l.id
      → (acquire l.id 60 s).1 ≡ granted
      → ((renew_lock r l s).2 ≡ true)
        × (owner (renew_lock r l s).1 ≡ some l.id)
        × (renew_period < ttl (renew_lock r l s).1)
  unfolding renew_lock renewed
  renew_lock_extends l s held n o g =
      rw (held, n, g)
        (refl, (laws.acquire_granted l.id 60 s g).1, omega (arith, granted-ttl l.id 60 s g))

  -- `LockWithContext` sets the seconds first: the key outlives the time to its renewal.
  pub lock_with_context_lives :
      (deadline : Bool) (meanwhile : Server → Server) (l : Lock) (s : Server)
      → (lock_with_context r deadline meanwhile l s).2 ≡ true
      → renew_period < ttl (lock_with_context r deadline meanwhile l s).1
  unfolding lock_with_context contended
  lock_with_context_lives false meanwhile l s = λ h. absurd (cc)
  lock_with_context_lives true meanwhile l s = elim (Answer-cases (acquire l.id 60 s).1) [
    | inl g ↦ rw g (λ _. omega (arith, granted-ttl l.id 60 s g))
    | inr (inl d) ↦ rw d (λ h. absurd (cc))
    | inr (inr f) ↦ rw f (λ h. absurd (cc))
  ]

  -- Once a lock is taken, released and taken again before the goroutine of its first hold wakes up,
  -- two goroutines renew it.
  relock_renewals :
      (l : Lock) (s s' s'' : Server)
      → l.state ≡ 0
      → (try_lock r l s).2 ≡ true
      → (unlock r (try_lock r l s).0 s').2 ≡ true
      → (try_lock r (unlock r (try_lock r l s).0 s').0 s'').2 ≡ true
      → (try_lock r (unlock r (try_lock r l s).0 s').0 s'').0.renewals ≡ suc (suc l.renewals)
  relock_renewals l s s' s'' free h h' h'' =
      rw (try_lock-enter _ s'' h'', unlock-state _ s' h', try_lock-enter l s h)
        (relock_fields l free)
