-- ===== src/Redis/Scoped.antt =====
-- `LockFunc`, `LockFuncWithContext` and `TryLockFunc` of redis/redis.go: when their function runs.
use foundation_framework.Base.{
  ℕ, ◌≡◌, ◌≢◌, refl, sym, ◌∙◌, inl, inr, true, false, none, some, some_inj, List,
}
use foundation_framework.Err.{Error}
use foundation_framework.Err.Comm
use foundation_framework.Err.Stack.{Frame}
use foundation_framework.Redis.Server.{Redis, RedisLaws, denied, failed}
use foundation_framework.Redis.{Lock, attempted, try_lock, released, unlock, guarded, try_lock_func}
use foundation_framework.Redis.Exclusion.{Answer-cases, acquire_excluded}

module _ (r : Redis) (laws : RedisLaws r) where
  open r use {Server, acquire, release, owner}

  owned-denied : (id : ℕ) (s : Server) → owner s ≡ some id → (release id s).1 ≢ denied
  owned-denied id s o d = let g = laws.release_owner id s o (λ f. absurd (cc)) in absurd (cc)

  -- An `Unlock` frees the key of the lock that owns it, where the script does not fail, and leaves
  -- the key of any other lock.
  pub unlock-owner :
      (l : Lock) (s : Server)
      → (owner s ≡ some l.id
          → (release l.id s).1 ≢ failed
          → ((unlock r l s).2 ≡ true)
            × (owner (unlock r l s).1 ≡ none)
            × ((unlock r l s).0.state ≡ 0))
        × (owner s ≢ some l.id → ((unlock r l s).2 ≡ false) × (owner (unlock r l s).1 ≡ owner s))
  unfolding unlock released
  unlock-owner l s = elim (Answer-cases (release l.id s).1) [
    | inl g ↦ rw g (
      λ o ok. (refl, (laws.release_granted l.id s g).1, refl),
      λ ne. absurd (ne (laws.release_granted l.id s g).0),
    )
    | inr (inl d) ↦
        rw d (λ o ok. absurd (owned-denied l.id s o d), λ ne. (refl, laws.release_other l.id s ne))
    | inr (inr f) ↦ rw f (λ o ok. absurd (ok refl), λ ne. (refl, laws.release_other l.id s ne))
  ]

module _ (r : Redis) (laws : RedisLaws r) (stack : List Frame) where
  open r use {Server, acquire, release, owner}

  -- `TryLockFunc` while another lock owns the key and no command fails: its function does not run,
  -- the error says so, and the deferred `Unlock` leaves the key to its owner.
  try_lock_func_excluded :
      (fn : Server → Server × Error) (l : Lock) (s : Server) (j : ℕ)
      → owner s ≡ some j
      → j ≢ l.id
      → (acquire l.id l.seconds s).1 ≢ failed
      → ((try_lock_func r stack fn l s).2 ≡ Comm.new stack "TryLockFunc failed")
        × (owner (try_lock_func r stack fn l s).1 ≡ some j)
  unfolding try_lock_func guarded try_lock attempted
  try_lock_func_excluded fn l s j o ne ok = elim (Answer-cases (acquire l.id l.seconds s).1) [
    | inl g ↦ absurd (acquire_excluded r laws l.id l.seconds j s o ne g)
    | inr (inl d) ↦
        let o' = laws.acquire_denied l.id l.seconds s d ∙ o in
        rw d (
          refl,
          ((unlock-owner r laws l (acquire l.id l.seconds s).0).1
                (λ own. ne (some_inj (sym o' ∙ own)))).1
              ∙ o',
        )
    | inr (inr f) ↦ absurd (ok f)
  ]
