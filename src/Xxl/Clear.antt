-- ===== src/Xxl/Clear.antt =====
-- The daily deletion of old logs: `clearLog` of xxl/log_handler.go. A time is a number of
-- nanoseconds.
use foundation_framework.Base.{
  ℕ, suc, ◌+◌, ◌-◌, ◌*◌, ◌%◌, ◌^◌, ◌≤◌, ◌<◌, ◌≡◌, refl, sym, ap, ◌∙◌, ◌==◌, Bool, true, false,
  Option, none, some, List, [], ◌∷◌, if◌then◌else◌, ltb, Bool-cases, arith, ◌↔◌, inl, inr, ◌≢◌,
}
use foundation_framework.Base.Int.{ℤ, pos, negsuc}
use foundation_framework.Base.Order.{In}
use foundation_framework.Err.{Error, nil, is_nil}
use foundation_framework.Err.Stack.{Frame}
use foundation_framework.Reg.Consul.{to_int64}
use foundation_framework.Redis.Server.{Redis, RedisLaws, failed}
use foundation_framework.Redis.Timed.{timed_round, timed_round_runs}
use foundation_framework.Xxl.Log.{LogPo}
use foundation_framework.Xxl.Options.{LogConf}

abbrev pub day : ℕ
day = 24 * (3600 * 1000000000)

-- `-24 * time.Duration(KeepDays) * time.Hour`, which wraps around.
unfoldable pub retention : ℤ → ℤ
unfolding to_int64
retention (pos n) = to_int64 (2 ^ 64 - (n * day) % 2 ^ 64)
retention (negsuc n) = to_int64 (suc n * day)

-- `created_at < time.Now().Add(d)`
unfoldable pub created_before : ℤ → ℕ → LogPo → Bool
created_before (pos k) now p = ltb p.created_at (now + k)
created_before (negsuc k) now p = ltb (p.created_at + suc k) now

-- `Where("created_at < ?", ...).Delete(new(LogPO))`, with the error of the table.
unfoldable pub kept : ℤ → ℕ → List LogPo → List LogPo
unfolding created_before
kept d now [] = []
kept d now (p ∷ rows) =
    let rest = kept d now rows in if created_before d now p then rest else p ∷ rest

unfoldable pub delete_old : LogConf → ℕ → Error → List LogPo → List LogPo × Error
unfolding kept retention
delete_old conf now e rows =
    if is_nil e then (kept (retention conf.keep_days) now rows, nil) else (rows, e)

-- `mysqlLog`, but for the database and the client of Redis.
pub record MysqlLog : Type 0 where
  pub close : Bool
  pub conf : LogConf

-- `NewMysqlLog`
unfoldable pub new_mysql_log : LogConf → MysqlLog
new_mysql_log conf = record { close = false; conf = conf }

-- What its shutdown listener does.
unfoldable pub shutdown : MysqlLog → MysqlLog
shutdown m = record m { close = true }

-- A round of `clearLog`: `none` where it stops.
unfoldable pub clear_log :
    (r : Redis)
    → List Frame
    → MysqlLog
    → ℕ
    → Error
    → ℕ
    → r.Server
    → List LogPo
    → Option (List LogPo × r.Server × Error)
unfolding delete_old timed_round
clear_log r stack m now e id s rows =
    timed_round r stack (delete_old m.conf now e) m.close id s rows

-- After the shutdown no round deletes anything.
clear_log-shutdown :
    (r : Redis) (stack : List Frame) (m : MysqlLog) (now id : ℕ) (e : Error) (s : r.Server)
    (rows : List LogPo)
    → clear_log r stack (shutdown m) now e id s rows ≡ none
unfolding clear_log shutdown timed_round
clear_log-shutdown r stack m now id e s rows = refl

old_not_kept :
    (d : ℤ) (now : ℕ) (q p : LogPo)
    → q ≡ p
    → created_before d now q ≡ true
    → created_before d now p ≡ false
    → ⊥
old_not_kept d now q p e t f = let g = ap (created_before d now) e in absurd (cc)

In-kept :
    (d : ℤ) (now : ℕ) (p : LogPo) (rows : List LogPo)
    → In p (kept d now rows) ↔ (In p rows × (created_before d now p ≡ false))
unfolding kept
In-kept d now p [] = (λ m. elim m [ ], λ m. elim m.0 [ ])
In-kept d now p (q ∷ rows) = elim (Bool-cases (created_before d now q)) [
  | inl t ↦ rw t (
    λ m. let (i, f) = (In-kept d now p rows).0 m in (inr i, f),
    λ m. elim m.0 [
      | inl e ↦ absurd (old_not_kept d now q p e t m.1)
      | inr i ↦ (In-kept d now p rows).1 (i, m.1)
    ],
  )
  | inr f ↦ rw f (
    λ m. elim m [
      | inl e ↦ (inl e, sym (ap (created_before d now) e) ∙ f)
      | inr i ↦ let (j, g) = (In-kept d now p rows).0 i in (inr j, g)
    ],
    λ m. elim m.0 [ inl e ↦ inl e | inr i ↦ inr ((In-kept d now p rows).1 (i, m.1)) ],
  )
]

wrapped_negative : (x : ℕ) → 0 < x → x < 2 ^ 63 → to_int64 (2 ^ 64 - x % 2 ^ 64) ≡ negsuc (x - 1)
unfolding to_int64
wrapped_negative x h k =
    let e : (2 ^ 64 - x % 2 ^ 64) % 2 ^ 64 ≡ 2 ^ 64 - x = omega arith in
    let f : ltb (2 ^ 64 - x) (2 ^ 63) ≡ false = ground arith in
    rw e (rw f (ap negsuc (omega arith)))

wrapped_zero : to_int64 (2 ^ 64 - 0 % 2 ^ 64) ≡ pos 0
unfolding to_int64
wrapped_zero = refl

before-wrapped :
    (x now : ℕ) (p : LogPo)
    → x < 2 ^ 63
    → (created_before (to_int64 (2 ^ 64 - x % 2 ^ 64)) now p ≡ false) ↔ (now ≤ p.created_at + x)
unfolding created_before
before-wrapped x now p h = elim (Bool-cases (x == 0)) [
  | inl z ↦
      let e : x ≡ 0 = ground arith in rw (e, wrapped_zero) (λ b. ground arith, λ b. ground arith)
  | inr z ↦ rw (wrapped_negative x (ground arith) h) (λ b. ground arith, λ b. ground arith)
]

-- A round of a log that is not shut down and gets its lock, where the table does not fail, for at most 106751 days: the log keeps
-- exactly the rows that are not older than the configured number of days.
pub clear_log-keeps :
    (r : Redis) (laws : RedisLaws r) (stack : List Frame) (n now id : ℕ) (s : r.Server)
    (rows : List LogPo)
    → n ≤ 106751
    → r.owner s ≡ none
    → (r.acquire id 0 s).1 ≢ failed
    → (rows' : List LogPo) × (s' : r.Server) × (e : Error) × (clear_log r stack
          (new_mysql_log (record { keep_days = pos n }))
          now
          nil
          id
          s
          rows
        ≡ some (rows', s', e))
      × ((p : LogPo) → In p rows' ↔ (In p rows × (now ≤ p.created_at + n * day)))
unfolding clear_log delete_old retention new_mysql_log
clear_log-keeps r laws stack n now id s rows h o ok =
    let conf : LogConf = record { keep_days = pos n } in
    let (s', e, run) = timed_round_runs r stack (delete_old conf now nil) laws id s rows o ok in
    (
      _,
      s',
      e,
      run,
      λ p.
          let (to, from) = In-kept (retention (pos n)) now p rows in
          let (t, f) = before-wrapped (n * day) now p (omega arith) in
          (λ m. let (i, b) = to m in (i, t b), λ m. from (m.0, f m.1)),
    )
