-- ===== src/Redis/Server.antt =====
-- go-zero's `redis.RedisLock`, as the framework uses it.
use foundation_framework.Base.{ℕ, ◌+◌, ◌*◌, ◌≡◌, ◌≢◌, ◌⊎◌, Option, none, some}

-- `(ok, err)` of `Acquire` and `Release`: ok, not ok, an error.
pub data Answer : Type 0 where
  granted denied failed : Answer

-- `acquire id seconds` and `release id` on a server; who holds the key, and for how many
-- milliseconds from the last grant.
pub record Redis : Type 1 where
  pub Server : Type 0
  pub acquire : ℕ → ℕ → Server → Server × Answer
  pub release : ℕ → Server → Server × Answer
  pub owner : Server → Option ℕ
  pub ttl : Server → ℕ

-- The documented behaviour of the two scripts: a key is granted to a lock exactly if it is free or
-- its own, for `seconds` and half a second more; it is released exactly by its owner; an answer
-- other than a grant or a release changes no owner. After an error the command may have run or not.
pub record RedisLaws (r : Redis) : Type 0 where
  pub acquire_free :
      (id seconds : ℕ) (s : Redis.Server r)
      → (r.acquire id seconds s).1 ≢ failed
      → r.owner s ≡ none
      → (r.acquire id seconds s).1 ≡ granted
  pub acquire_granted :
      (id seconds : ℕ) (s : Redis.Server r)
      → (r.acquire id seconds s).1 ≡ granted
      → ((r.owner s ≡ none) ⊎ (r.owner s ≡ some id))
        × (r.owner (r.acquire id seconds s).0 ≡ some id)
        × (r.ttl (r.acquire id seconds s).0 ≡ seconds * 1000 + 500)
  pub acquire_denied :
      (id seconds : ℕ) (s : Redis.Server r)
      → (r.acquire id seconds s).1 ≡ denied
      → r.owner (r.acquire id seconds s).0 ≡ r.owner s
  pub release_granted :
      (id : ℕ) (s : Redis.Server r)
      → (r.release id s).1 ≡ granted
      → (r.owner s ≡ some id) × (r.owner (r.release id s).0 ≡ none)
  pub release_owner :
      (id : ℕ) (s : Redis.Server r)
      → r.owner s ≡ some id
      → (r.release id s).1 ≢ failed
      → (r.release id s).1 ≡ granted
  pub release_other :
      (id : ℕ) (s : Redis.Server r) → r.owner s ≢ some id → r.owner (r.release id s).0 ≡ r.owner s
