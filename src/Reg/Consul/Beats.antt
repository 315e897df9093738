-- ===== src/Reg/Consul/Beats.antt =====
-- What keeps a service registered at consul.
use foundation_framework.Base.{
  ℕ, zero, suc, ◌+◌, ◌-◌, ◌*◌, ◌^◌, ◌<◌, ◌≤◌, ◌↔◌, String, Bool, true, false, List, [], ◌∷◌,
  if◌then◌else◌, ltb, ◌≡◌, refl, arith, ap, All, ◌++◌, Bool-cases, inl, inr,
}
use foundation_framework.Base.Int.{ℤ, pos, negsuc}
use foundation_framework.Err.{Error, nil, is_nil, nil-cases}
use foundation_framework.Reg.Consul.{
  Agent, Registration, to_int64, positive_ttl, second, at_least_second, ttl_ticker, re_register,
  beat, plugin_beat, plugin_beats,
}

to_int64-small : (n : ℕ) → n < 2 ^ 63 → to_int64 n ≡ pos n
unfolding to_int64
to_int64-small n h = ground arith

ticker_bound :
    (t : ℕ)
    → (if ltb (t * 1000000000 + 0) 1000000000 then 1000000000 else t * 1000000000)
        < suc t * 1000000000
      ↔ (1 ≤ t)
ticker_bound t = ground arith

ttl_ticker-suc : (t : ℕ) → t < 9223372036 → (ttl_ticker (suc t) < suc t * second) ↔ (1 ≤ t)
unfolding ttl_ticker at_least_second
ttl_ticker-suc t h =
    let one_less : suc t - 1 ≡ t = omega arith in
    rw (one_less, to_int64-small (t * second) (omega arith)) (ticker_bound t)

default : (ttl_ticker 20 < 20 * second) ↔ (2 ≤ 20)
default =
    let (one, two) = ttl_ticker-suc 19 (omega arith) in (λ l. omega arith, λ l. two (omega arith))

-- The check is renewed before its TTL is over exactly if the TTL is not one second.
ttl_ticker_iff :
    (ttl : ℤ)
    → positive_ttl ttl ≤ 9223372036
    → (ttl_ticker (positive_ttl ttl) < positive_ttl ttl * second) ↔ (2 ≤ positive_ttl ttl)
unfolding positive_ttl
ttl_ticker_iff (pos zero) h = default
ttl_ticker_iff (pos (suc n)) h =
    let (one, two) = ttl_ticker-suc n (omega arith) in
    (λ l. omega (arith, one l), λ l. two (omega arith))
ttl_ticker_iff (negsuc n) h = default

-- The documented behaviour of the agent: what it knows is what was registered without an error and
-- not lost since, and the check of a service that it does not know is not renewed.
pub record AgentLaws (a : Agent) (knows : String → Agent.State a → Bool) : Type 0 where
  pub register_known :
      (r : Registration) (s : Agent.State a)
      → (a.service_register r s).1 ≡ nil
      → knows r.id (a.service_register r s).0 ≡ true
  pub update_known :
      (id : String) (s : Agent.State a)
      → (a.update_ttl id s).1 ≡ nil
      → knows id (a.update_ttl id s).0 ≡ true
  pub update_unknown :
      (id : String) (s : Agent.State a)
      → knows id s ≡ false
      → knows id (a.update_ttl id s).0 ≡ false

is_nil-nil : (e : Error) → is_nil e ≡ true → e ≡ nil
is_nil-nil e h = elim (nil-cases e) [ inl t ↦ t | inr f ↦ absurd (cc) ]

module _ (a : Agent) (knows : String → Agent.State a → Bool) (laws : AgentLaws a knows) where
  open a use {State, service_register, update_ttl}

  re_register-known :
      (r : Registration) (world : List (State → State)) (s : State)
      → (re_register a r world s).1 ≡ true
      → knows r.id (re_register a r world s).0 ≡ true
  unfolding re_register
  re_register-known r [] s = λ h. laws.register_known r s (is_nil-nil (service_register r s).1 h)
  re_register-known r (w ∷ world) s = elim (Bool-cases (is_nil (service_register r s).1)) [
    | inl t ↦ rw t (λ h. laws.register_known r s (is_nil-nil (service_register r s).1 t))
    | inr f ↦ rw f (λ h. re_register-known r world (w (service_register r s).0) h)
  ]

  re_register-append :
      (r : Registration) (before : List (State → State)) (w : State → State) (s : State)
      → ((t : State) → (service_register r (w t)).1 ≡ nil)
      → (re_register a r (before ++ w ∷ []) s).1 ≡ true
  unfolding re_register
  re_register-append r [] w s back = elim (Bool-cases (is_nil (service_register r s).1)) [
    | inl t ↦ rw t refl
    | inr f ↦ rw f (ap is_nil (back (service_register r s).0))
  ]
  re_register-append r (v ∷ before) w s back = elim (Bool-cases (is_nil (service_register r s).1)) [
    | inl t ↦ rw t refl
    | inr f ↦ rw f (re_register-append r before w (v (service_register r s).0) back)
  ]

  -- A tick of RegisterService's goroutine ends, with the service known to consul, if after the last
  -- of the changes that others make consul accepts it; also where consul had lost the service.
  beat_restores :
      (r : Registration) (before : List (State → State)) (w : State → State) (s : State)
      → ((t : State) → (service_register r (w t)).1 ≡ nil)
      → ((beat a r (before ++ w ∷ []) s).1 ≡ true)
        × (knows r.id (beat a r (before ++ w ∷ []) s).0 ≡ true)
  unfolding beat
  beat_restores r before w s back = elim (Bool-cases (is_nil (update_ttl r.id s).1)) [
    | inl t ↦ rw t (refl, laws.update_known r.id s (is_nil-nil (update_ttl r.id s).1 t))
    | inr f ↦ rw f (
        let ends = re_register-append r before w (update_ttl r.id s).0 back in
        (ends, re_register-known r (before ++ w ∷ []) (update_ttl r.id s).0 ends))
  ]

  -- A service that consul has lost and that nobody else registers stays lost through any ticks of
  -- the plugin's goroutine.
  plugin_never_restores :
      (id : String) (world : List (State → State)) (s : State)
      → knows id s ≡ false
      → All (λ w. (t : State) → knows id t ≡ false → knows id (w t) ≡ false) world
      → knows id (plugin_beats a id world s) ≡ false
  unfolding plugin_beats plugin_beat
  plugin_never_restores id [] s lost h = lost
  plugin_never_restores id (w ∷ world) s lost h =
      plugin_never_restores id world (update_ttl id (w s)).0
        (laws.update_unknown id (w s) (h.0 s lost)) h.1
