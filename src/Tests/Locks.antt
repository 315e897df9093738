-- ===== src/Tests/Locks.antt =====
-- The lock of redis/redis.go on a server that holds one key.
use foundation_framework.Base.{
  ℕ, ◌+◌, ◌*◌, ◌<◌, ◌≡◌, ◌≢◌, refl, ◌⊎◌, inl, inr, Bool, true, false, Option, none, some, some_inj,
  ap, [], ◌∷◌, ◌==◌, arith, Bool-cases,
}
use foundation_framework.Err.{Error, nil}
use foundation_framework.Redis.Server.{Redis, RedisLaws, Answer, granted, denied}
use foundation_framework.Redis.{Lock, new_redis_lock, try_lock, lock}
use foundation_framework.Redis.Exclusion.{lock-Holds}
use foundation_framework.Redis.Expiry.{new_lock_expires}

-- The owner of the key, and its time to live.
abbrev pub KeyState : Type 0
KeyState = Option ℕ × ℕ

abbrev pub set_nx : Bool → ℕ → ℕ → KeyState → KeyState × Answer
set_nx true id n s = ((some id, n * 1000 + 500), granted)
set_nx false id n s = (s, denied)

abbrev pub delete : Bool → KeyState → KeyState × Answer
delete true s = ((none, 0), granted)
delete false s = (s, denied)

abbrev pub owned : ℕ → KeyState → Bool
owned id (none, n) = false
owned id (some j, n) = j == id

abbrev pub takes : ℕ → KeyState → Bool
takes id (none, n) = true
takes id (some j, n) = j == id

abbrev pub one_key : Redis
one_key = record {
  Server = KeyState;
  acquire = λ id n s. set_nx (takes id s) id n s;
  release = λ id s. delete (owned id s) s;
  owner = λ s. s.0;
  ttl = λ s. s.1;
}

one_key-acquire_granted :
    (id n : ℕ) (s : KeyState)
    → (set_nx (takes id s) id n s).1 ≡ granted
    → ((s.0 ≡ none) ⊎ (s.0 ≡ some id))
      × ((set_nx (takes id s) id n s).0.0 ≡ some id)
      × ((set_nx (takes id s) id n s).0.1 ≡ n * 1000 + 500)
one_key-acquire_granted id n (none, m) = λ _. (inl refl, refl, refl)
one_key-acquire_granted id n (some j, m) = elim (Bool-cases (j == id)) [
  | inl t ↦ rw t (λ _. (inr (ap some (ground arith)), refl, refl))
  | inr f ↦ rw f (λ h. absurd (cc))
]

one_key-acquire_free :
    (id n : ℕ) (s : KeyState) → s.0 ≡ none → (set_nx (takes id s) id n s).1 ≡ granted
one_key-acquire_free id n (none, m) h = refl
one_key-acquire_free id n (some j, m) h = absurd (cc)

one_key-acquire_denied :
    (id n : ℕ) (s : KeyState)
    → (set_nx (takes id s) id n s).1 ≡ denied
    → (set_nx (takes id s) id n s).0.0 ≡ s.0
one_key-acquire_denied id n s = elim (Bool-cases (takes id s)) [
  | inl t ↦ rw t (λ h. absurd (cc))
  | inr f ↦ rw f (λ _. refl)
]

one_key-release_granted :
    (id : ℕ) (s : KeyState)
    → (delete (owned id s) s).1 ≡ granted
    → (s.0 ≡ some id) × ((delete (owned id s) s).0.0 ≡ none)
one_key-release_granted id (none, m) = λ h. absurd (cc)
one_key-release_granted id (some j, m) = elim (Bool-cases (j == id)) [
  | inl t ↦ rw t (λ _. (ap some (ground arith), refl))
  | inr f ↦ rw f (λ h. absurd (cc))
]

one_key-release_owner :
    (id : ℕ) (s : KeyState) → s.0 ≡ some id → (delete (owned id s) s).1 ≡ granted
one_key-release_owner id (none, m) h = absurd (cc)
one_key-release_owner id (some j, m) h = rw (some_inj h) (ground arith)

one_key-release_other : (id : ℕ) (s : KeyState) → s.0 ≢ some id → (delete (owned id s) s).0.0 ≡ s.0
one_key-release_other id (none, m) ne = refl
one_key-release_other id (some j, m) ne = elim (Bool-cases (j == id)) [
  | inl t ↦ absurd (ne (ap some (ground arith)))
  | inr f ↦ rw f refl
]

pub one_key-Laws : RedisLaws one_key
one_key-Laws = record {
  acquire_free = λ id n s _. one_key-acquire_free id n s;
  acquire_granted = one_key-acquire_granted;
  acquire_denied = one_key-acquire_denied;
  release_granted = one_key-release_granted;
  release_owner = λ id s o _. one_key-release_owner id s o;
  release_other = one_key-release_other;
}

-- Lock 8 holds the key until the second sleep of lock 7.
abbrev by_eight : KeyState
by_eight = (some 8, 60500)

abbrev frees : KeyState → KeyState
frees s = (none, 0)

abbrev stays : KeyState → KeyState
stays s = s

abbrev seven : Lock
seven = new_redis_lock 7

lock-Holds_example :
    ((lock one_key (stays ∷ frees ∷ []) seven by_eight).0.state ≡ 1)
    × ((lock one_key (stays ∷ frees ∷ []) seven by_eight).0.id ≡ 7)
    × ((lock one_key (stays ∷ frees ∷ []) seven by_eight).1.0 ≡ some 7)
unfolding lock new_redis_lock
lock-Holds_example = lock-Holds one_key one_key-Laws (stays ∷ frees ∷ []) seven by_eight refl

new_lock_expires_example :
    ((try_lock one_key seven (none, 0)).1.1 < 50000)
    × ((lock one_key (stays ∷ frees ∷ []) seven by_eight).1.1 < 50000)
unfolding try_lock lock new_redis_lock
new_lock_expires_example =
    new_lock_expires one_key one_key-Laws 7 (stays ∷ frees ∷ []) (none, 0) by_eight refl refl

abbrev no_work : KeyState → KeyState × Error
no_work s = (s, nil)
