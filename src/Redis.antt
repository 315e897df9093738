-- ===== src/Redis.antt =====
-- The distributed lock of redis/redis.go. `redis.RedisLock` of go-zero is the parameter `r`: its
-- `Acquire` and `Release` run a script on the server under the lock's key with the lock's random
-- id. A lock uses one key, so the key is left to the server.
pub mod Server
pub mod Exclusion
pub mod Expiry
pub mod Scoped
pub mod Timed
use foundation_framework.Base.{
  ℕ, suc, ◌-◌, ◌*◌, String, ◌≡◌, Bool, true, false, Option, none, some, List, [], ◌∷◌, ◌==◌,
  if◌then◌else◌,
}
use foundation_framework.Err.{Error, nil, comm, Fields, ◌<>◌}
use foundation_framework.Err.Comm
use foundation_framework.Err.Stack.{Frame}
use foundation_framework.Redis.Server.{Redis, Answer, granted, denied, failed}

-- The texts of `keys` joined by colons.
join : List String → String
join [] = ""
join (k ∷ []) = k
join (k ∷ j ∷ ks) = k <> ":" <> join (j ∷ ks)

-- The key of `NewRedisLock`.
unfoldable pub lock_key : String → List String → String
unfolding join
lock_key lock_path keys = "lock:" <> lock_path <> ":" <> join keys

-- `seconds` is the field that `SetExpire` writes; `state` is 0 or 1; `renewals` counts the
-- goroutines in `renewLock`.
pub record Lock : Type 0 where
  pub id : ℕ
  pub seconds : ℕ
  pub state : ℕ
  pub renewals : ℕ

-- A new lock: go-zero's `NewRedisLock` leaves the seconds at 0.
unfoldable pub new_redis_lock : ℕ → Lock
new_redis_lock id = record { id = id; seconds = 0; state = 0; renewals = 0 }

-- `SetExpire(seconds)`
unfoldable pub set_expire : ℕ → Lock → Lock
set_expire n l = record l { seconds = n }

-- After a grant: a lock that is held already is not renewed by one more goroutine.
unfoldable pub enter : Lock → Lock
enter l = if l.state == 1 then l else record l { state = 1; renewals = suc l.renewals }

-- The sleep of `renewLock`, in milliseconds.
abbrev pub renew_period : ℕ
renew_period = 50 * 1000

-- How a blocking call ends: a result, or it still waits.
pub data Waited : Type 0 where
  done : Bool → Waited
  waiting : Waited

module _ (r : Redis) where
  open r use {Server, acquire, release}

  -- The answers of one attempt of `TryLock`.
  attempted : Lock → Server × Answer → Lock × Server × Bool
  attempted l (s, granted) = (enter (set_expire 60 l), s, true)
  attempted l (s, denied) = (l, s, false)
  attempted l (s, failed) = (l, s, false)

  unfoldable pub try_lock : Lock → Server → Lock × Server × Bool
  unfolding attempted enter set_expire
  try_lock l s = attempted l (acquire l.id l.seconds s)

  -- The body of `Lock`'s loop, with what the next round would return.
  answered : Lock → Server × Answer → Lock × Server × Waited → Lock × Server × Waited
  answered l (s, granted) retry = (enter (set_expire 60 l), s, done true)
  answered l (s, failed) retry = (l, s, done false)
  answered l (s, denied) retry = retry

  -- `Lock`: in each sleep the other clients change the server, by the next of `world`. Where
  -- `world` ends the call still waits.
  unfoldable pub lock : List (Server → Server) → Lock → Server → Lock × Server × Waited
  unfolding answered enter set_expire
  lock [] l s = let a = acquire l.id l.seconds s in answered l a (l, a.0, waiting)
  lock (w ∷ world) l s =
      let a = acquire l.id l.seconds s in let retry = lock world l (w a.0) in answered l a retry

  -- The body of `LockWithContext`'s loop: a denied attempt waits for the context to end, while
  -- the other clients change the server by `meanwhile`, and returns; the loop never goes round.
  contended : (Server → Server) → Lock → Server × Answer → Lock × Server × Bool
  contended meanwhile l (s, granted) = (enter l, s, true)
  contended meanwhile l (s, failed) = (l, s, false)
  contended meanwhile l (s, denied) = (l, meanwhile s, false)

  unfoldable pub lock_with_context : Bool → (Server → Server) → Lock → Server → Lock × Server × Bool
  unfolding contended enter set_expire
  lock_with_context false meanwhile l s = (l, s, false)
  lock_with_context true meanwhile l s = contended meanwhile (set_expire 60 l) (acquire l.id 60 s)

  released : Lock → Server × Answer → Lock × Server × Bool
  released l (s, granted) = (record l { state = 0 }, s, true)
  released l (s, denied) = (l, s, false)
  released l (s, failed) = (l, s, false)

  unfoldable pub unlock : Lock → Server → Lock × Server × Bool
  unfolding released
  unlock l s = released l (release l.id s)

  renewed : Lock → Server × Answer → Lock × Server × Bool
  renewed l (s, granted) = (l, s, true)
  renewed l (s, denied) = (record l { renewals = l.renewals - 1 }, s, false)
  renewed l (s, failed) = (record l { renewals = l.renewals - 1 }, s, false)

  -- One round of `renewLock`, after its sleep: whether the goroutine goes on.
  unfoldable pub renew_lock : Lock → Server → Lock × Server × Bool
  unfolding renewed
  renew_lock l s =
      if l.state == 0
      then (record l { renewals = l.renewals - 1 }, s, false)
      else renewed l (acquire l.id l.seconds s)

  module _ (stack : List Frame) (fn : Server → Server × Error) where
    -- What `LockFunc`, `LockFuncWithContext` and `TryLockFunc` do after their attempt: the function
    -- under the lock, or an error, and `Unlock` in either case.
    unfoldable pub guarded : String → Lock × Server × Bool → Lock × Server × Error
    guarded message (l, s, true) =
        let (s', e) = fn s in let (l', s'', _) = unlock l s' in (l', s'', e)
    guarded message (l, s, false) = let (l', s', _) = unlock l s in (l', s', Comm.new stack message)

    unfoldable pub try_lock_func : Lock → Server → Lock × Server × Error
    unfolding guarded
    try_lock_func l s = guarded "TryLockFunc failed" (try_lock l s)

    unfoldable pub lock_func_with_context :
        Bool → (Server → Server) → Lock → Server → Lock × Server × Error
    unfolding guarded
    lock_func_with_context deadline meanwhile l s =
        guarded "LockFunc failed" (lock_with_context deadline meanwhile l s)

    -- `none` while the lock is waited for.
    after_wait : Lock × Server × Waited → Option (Lock × Server × Error)
    after_wait (l, s, done b) = some (guarded "LockFunc failed" (l, s, b))
    after_wait (l, s, waiting) = none

    unfoldable pub lock_func :
        List (Server → Server) → Lock → Server → Option (Lock × Server × Error)
    unfolding guarded after_wait
    lock_func world l s = after_wait (lock world l s)
