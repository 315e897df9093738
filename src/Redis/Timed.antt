-- ===== src/Redis/Timed.antt =====
-- The shape of the framework's timers: `clearLog` of xxl/log_handler.go, `deletedTransactionalMsg`,
-- `rabbitMqMessageRetrySend` and `rabbitMqDeadMessageRetrySend` of rabbitmq/rabbitmq.go. Each round
-- stops if the owner is closed, or sleeps, runs its job under `TryLockFunc` of a new lock of the
-- job's key, and starts the next round.
use foundation_framework.Base.{
  ℕ, ◌≡◌, ◌≢◌, refl, Bool, false, Option, none, some, List, if◌then◌else◌, inl, inr,
}
use foundation_framework.Err.{Error}
use foundation_framework.Err.Stack.{Frame}
use foundation_framework.Redis.Server.{Redis, RedisLaws, failed}
use foundation_framework.Redis.{Lock, new_redis_lock, try_lock, attempted, try_lock_func}
use foundation_framework.Redis.Exclusion.{Answer-cases, acquire_excluded}

module _ (r : Redis) (stack : List Frame) {W : Type 0} (job : W → W × Error) where
  open r use {Server, acquire, release, owner}

  -- `TryLockFunc` of the lock with a job on other data than the server's.
  unfoldable pub locked_job : Lock → Server → W → W × Server × Error
  locked_job l s w =
      let (_, _, held) = try_lock r l s in
      let (w', e) = job w in
      let (_, s', result) = try_lock_func r stack (λ x. (x, e)) l s in
      (if held then w' else w, s', result)

  -- One round with the id of its new lock: `none` where it has stopped.
  unfoldable pub timed_round : Bool → ℕ → Server → W → Option (W × Server × Error)
  unfolding locked_job
  timed_round closed id s w = if closed then none else some (locked_job (new_redis_lock id) s w)

  module _ (laws : RedisLaws r) where
    -- While another client's lock owns the key and no command fails, a round of a timer runs no
    -- job: its data stays as it is.
    timed_round_excluded :
        (id j : ℕ) (s : Server) (w : W)
        → owner s ≡ some j
        → j ≢ id
        → (acquire id 0 s).1 ≢ failed
        → (s' : Server) × (e : Error) × (timed_round false id s w ≡ some (w, s', e))
    unfolding timed_round locked_job try_lock attempted new_redis_lock
    timed_round_excluded id j s w o ne ok = elim (Answer-cases (acquire id 0 s).1) [
      | inl g ↦ absurd (acquire_excluded r laws id 0 j s o ne g)
      | inr (inl d) ↦ rw d (_, _, refl)
      | inr (inr f) ↦ absurd (ok f)
    ]

    -- Where the key is free and no command fails, the round runs its job.
    pub timed_round_runs :
        (id : ℕ) (s : Server) (w : W)
        → owner s ≡ none
        → (acquire id 0 s).1 ≢ failed
        → (s' : Server) × (e : Error) × (timed_round false id s w ≡ some ((job w).0, s', e))
    unfolding timed_round locked_job try_lock attempted new_redis_lock
    timed_round_runs id s w o ok = rw (laws.acquire_free id 0 s ok o) (_, _, refl)
