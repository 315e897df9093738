-- ===== src/Orm.antt =====
-- Transactions of orm/gorm.go. What the connection of gorm does at `Begin`, `Commit` and `Rollback` is
-- a parameter; none of the three tells the caller of an error.
use foundation_framework.Base.{if◌then◌else◌, List, [], ◌∷◌}
use foundation_framework.Err.{Error, nil, is_nil}

-- What a transaction tells its listeners.
pub data Told : Type 0 where
  committed : Told
  rolled_back : Error → Told

-- How the function of a transaction ends, and with it the transaction.
pub data Ended : Type 0 where
  returned : Error → Ended
  panicked : Ended

-- An open transaction: the database at `Begin`, and what the transaction sees of it.
pub record Tx (S : Type 0) : Type 0 where
  pub before : S
  pub now : S

-- The connection of gorm: what it gives at `Begin`, and what database a `Commit` and a `Rollback`
-- leave, whether they succeed or not.
pub record Gorm (S : Type 0) : Type 0 where
  pub begin : S → Tx S
  pub commit : Tx S → S
  pub rollback : Tx S → S

-- The database afterwards; a transaction may still be open on it.
pub data Left (S : Type 0) : Type 0 where
  closed : S → Left S
  open_with : Tx S → Left S

module _ {S : Type 0} (g : Gorm S) where
  -- The function works on what the transaction sees.
  run_in : (S → S × Ended) → Tx S → Tx S × Ended
  run_in fun tx = let (now, e) = fun tx.now in (record tx { now = now }, e)

  -- A panic of the function leaves the transaction open, and goes on to the caller.
  finish : Tx S × Ended → Left S × Ended × List Told
  finish (tx, panicked) = (open_with tx, panicked, [])
  finish (tx, returned e) =
      if is_nil e
      then (closed (g.commit tx), returned nil, committed ∷ [])
      else (closed (g.rollback tx), returned e, rolled_back e ∷ [])

  -- `Do`, which has no listeners.
  unfoldable pub do_transaction : (S → S × Ended) → S → Left S × Ended
  unfolding run_in finish
  do_transaction fun s = let (left, e, told) = finish (run_in fun (g.begin s)) in (left, e)

  unfoldable pub do_with_listener : (S → S × Ended) → S → Left S × Ended × List Told
  unfolding run_in finish
  do_with_listener fun s = finish (run_in fun (g.begin s))
