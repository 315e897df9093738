-- ===== src/Redis/Exclusion.antt =====
-- Who holds the key after `TryLock`, `Lock` and `LockWithContext` of redis/redis.go.
use foundation_framework.Base.{
  ℕ, ◌≡◌, ◌≢◌, refl, sym, ◌∙◌, ◌⊎◌, inl, inr, Bool, true, false, none, some, some_inj, List, [],
  ◌∷◌, arith, All, Any, ◌↔◌,
}
use foundation_framework.Redis.Server.{Redis, RedisLaws, Answer, granted, denied, failed}
use foundation_framework.Redis.{
  Lock, set_expire, enter, done, attempted, try_lock, answered, lock, contended, lock_with_context,
}

pub Answer-cases : (a : Answer) → (a ≡ granted) ⊎ (a ≡ denied) ⊎ (a ≡ failed)
Answer-cases granted = inl refl
Answer-cases denied = inr (inl refl)
Answer-cases failed = inr (inr refl)

pub enter-fields : (l : Lock) → ((enter l).state ≡ 1) × ((enter l).id ≡ l.id)
unfolding enter
enter-fields l = (ground arith, ground arith)

module _ (r : Redis) where
  open r use {Server, acquire, owner}

  -- The lock `l` has become `l'`, which owns the key.
  abbrev pub Holds : Lock → Lock → Server → Type 0
  Holds l l' s = (l'.state ≡ 1) × (l'.id ≡ l.id) × (owner s ≡ some l.id)

  -- The server before each attempt of `Lock`.
  abbrev pub attempts : List (Server → Server) → Lock → Server → List Server
  attempts [] l s = s ∷ []
  attempts (w ∷ world) l s = s ∷ attempts world l (w (acquire l.id l.seconds s).0)

  module _ (laws : RedisLaws r) where
    -- The lock `l'` is `l` with other seconds.
    granted-Holds :
        (l l' : Lock) (n : ℕ) (s : Server)
        → l'.id ≡ l.id
        → (acquire l.id n s).1 ≡ granted
        → Holds l (enter l') (acquire l.id n s).0
    granted-Holds l l' n s e g =
        ((enter-fields l').0, (enter-fields l').1 ∙ e, (laws.acquire_granted l.id n s g).1)

    -- A key that another lock owns is not granted.
    pub acquire_excluded :
        (id n j : ℕ) (s : Server) → owner s ≡ some j → j ≢ id → (acquire id n s).1 ≢ granted
    acquire_excluded id n j s o ne g = elim (laws.acquire_granted id n s g).0 [
      | inl free ↦ cc
      | inr own ↦ ne (some_inj (sym o ∙ own))
    ]

    -- `TryLock` returns true exactly if `Acquire` grants the key, and then the lock owns it; while
    -- another lock owns it, it returns false, and without an error it leaves the owner.
    pub try_lock-Holds :
        (l : Lock) (s : Server)
        → ((try_lock r l s).2 ≡ true → Holds l (try_lock r l s).0 (try_lock r l s).1)
          × ((j : ℕ)
              → owner s ≡ some j
              → j ≢ l.id
              → ((try_lock r l s).2 ≡ false)
                × ((acquire l.id l.seconds s).1 ≢ failed → owner (try_lock r l s).1 ≡ some j))
    unfolding try_lock attempted
    try_lock-Holds l s = elim (Answer-cases (acquire l.id l.seconds s).1) [
      | inl g ↦ rw g (
        (λ _. granted-Holds l (set_expire 60 l) l.seconds s refl g),
        λ j o ne. absurd (acquire_excluded l.id l.seconds j s o ne g),
      )
      | inr (inl d) ↦
          rw d (λ h. absurd (cc), λ j o ne. (refl, λ _. laws.acquire_denied l.id l.seconds s d ∙ o))
      | inr (inr f) ↦ rw f (λ h. absurd (cc), λ j o ne. (refl, λ h. absurd (h refl)))
    ]

    -- When `Lock` returns true the lock owns the key, whatever the other clients do meanwhile.
    pub lock-Holds :
        (world : List (Server → Server)) (l : Lock) (s : Server)
        → (lock r world l s).2 ≡ done true
        → Holds l (lock r world l s).0 (lock r world l s).1
    unfolding lock answered
    lock-Holds [] l s = elim (Answer-cases (acquire l.id l.seconds s).1) [
      | inl g ↦ rw g (λ h. granted-Holds l (set_expire 60 l) l.seconds s refl g)
      | inr (inl d) ↦ rw d (λ h. absurd (cc))
      | inr (inr f) ↦ rw f (λ h. absurd (cc))
    ]
    lock-Holds (w ∷ world) l s = elim (Answer-cases (acquire l.id l.seconds s).1) [
      | inl g ↦ rw g (λ h. granted-Holds l (set_expire 60 l) l.seconds s refl g)
      | inr (inl d) ↦ rw d (lock-Holds world l (w (acquire l.id l.seconds s).0))
      | inr (inr f) ↦ rw f (λ h. absurd (cc))
    ]

    -- While another lock owns the key before each of its attempts, `Lock` never returns true.
    pub lock_waits :
        (world : List (Server → Server)) (l : Lock) (s : Server) (j : ℕ)
        → j ≢ l.id
        → All (λ s'. owner s' ≡ some j) (attempts world l s)
        → (lock r world l s).2 ≢ done true
    unfolding lock answered
    lock_waits [] l s j ne (o, _) = elim (Answer-cases (acquire l.id l.seconds s).1) [
      | inl g ↦ absurd (acquire_excluded l.id l.seconds j s o ne g)
      | inr (inl d) ↦ rw d (λ h. absurd (cc))
      | inr (inr f) ↦ rw f (λ h. absurd (cc))
    ]
    lock_waits (w ∷ world) l s j ne (o, os) = elim (Answer-cases (acquire l.id l.seconds s).1) [
      | inl g ↦ absurd (acquire_excluded l.id l.seconds j s o ne g)
      | inr (inl d) ↦ rw d (lock_waits world l (w (acquire l.id l.seconds s).0) j ne os)
      | inr (inr f) ↦ rw f (λ h. absurd (cc))
    ]

    -- `Lock` returns true if at some attempt the key is free and no attempt up to it fails.
    lock_gets :
        (world : List (Server → Server)) (l : Lock) (s : Server)
        → All (λ s'. (acquire l.id l.seconds s').1 ≢ failed) (attempts world l s)
        → Any (λ s'. owner s' ≡ none) (attempts world l s)
        → (lock r world l s).2 ≡ done true
    unfolding lock answered
    lock_gets [] l s (ok, _) (inl free) = rw (laws.acquire_free l.id l.seconds s ok free) refl
    lock_gets [] l s (ok, _) (inr later) = elim later [ ]
    lock_gets (w ∷ world) l s (ok, oks) (inl free) =
        rw (laws.acquire_free l.id l.seconds s ok free) refl
    lock_gets (w ∷ world) l s (ok, oks) (inr later) =
        elim (Answer-cases (acquire l.id l.seconds s).1) [
          | inl g ↦ rw g refl
          | inr (inl d) ↦ rw d (lock_gets world l (w (acquire l.id l.seconds s).0) oks later)
          | inr (inr f) ↦ absurd (ok f)
        ]

    -- `LockWithContext` asks for the key once: it returns true exactly if its context has a deadline
    -- and that one attempt is granted, and then it owns the key. A lock that is released while it
    -- waits is not asked for again.
    lock_with_context_once :
        (deadline : Bool) (meanwhile : Server → Server) (l : Lock) (s : Server)
        → ((lock_with_context r deadline meanwhile l s).2 ≡ true ↔ (
            (deadline ≡ true)
            × ((acquire l.id 60 s).1 ≡ granted)
            × Holds l
                (lock_with_context r deadline meanwhile l s).0
                (lock_with_context r deadline meanwhile l s).1))
    unfolding lock_with_context contended
    lock_with_context_once false meanwhile l s = (λ h. absurd (cc), λ h. absurd (cc))
    lock_with_context_once true meanwhile l s = elim (Answer-cases (acquire l.id 60 s).1) [
      | inl g ↦ rw g (λ _. (refl, refl, granted-Holds l (set_expire 60 l) 60 s refl g), λ _. refl)
      | inr (inl d) ↦ rw d (λ h. absurd (cc), λ h. absurd (cc))
      | inr (inr f) ↦ rw f (λ h. absurd (cc), λ h. absurd (cc))
    ]
