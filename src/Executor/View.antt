-- ===== src/Executor/View.antt =====
-- `MVHashMapView` of parallel-executor/src/executor.rs: how an execution reads the store, and what
-- it notes for validation.
use move_tutorial.Prelude.{ℕ, Option, none, some, Result, ok, err}
use move_tutorial.Prelude.Options.{◌>>=◌}
use move_tutorial.Prelude.Map.{Key, Map}
use move_tutorial.Aggregator.Delta.{DeltaOp}
use move_tutorial.MvHashMap
use move_tutorial.MvHashMap.{EntryMap, TransactionWrite, MvHashMapError, MvHashMapOutput}
use move_tutorial.Scheduler.{TxnIndex, DependencyCondvar, Scheduler}
use move_tutorial.Scheduler.Tasks.{wait_for_dependency}
use move_tutorial.Executor.LastInputOutput
use move_tutorial.Executor.LastInputOutput.{ReadKind, ReadDescriptor}

pub data ReadResult (V : Type 0) : Type 0 where
  value : V → ReadResult V
  u128 : ℕ → ReadResult V
  unresolved : DeltaOp → ReadResult V
  nothing : ReadResult V

-- What a round of the loop does: return a result and note the read, wait on a condition variable,
-- or read again.
pub data Round (K V : Type 0) : Type 0 where
  returns : ReadDescriptor K → ReadResult V → Round K V
  waits : DependencyCondvar → Round K V
  continues : Round K V

module _ {K V : Type 0} where
  abbrev pub noted : K → ReadKind → ReadResult V → Round K V
  noted key kind result = returns (record { access_path = key; kind = kind }) result

  abbrev pub wait_on : Option DependencyCondvar × Scheduler → Round K V × Scheduler
  wait_on (some condvar, s) = (waits condvar, s)
  wait_on (none, s) = (continues, s)

  -- The `match` of the loop.
  abbrev pub capture :
      Scheduler
      → TxnIndex
      → K
      → Result MvHashMapError (MvHashMapOutput V)
      → Option (Round K V × Scheduler)
  capture s txn_idx key (ok (MvHashMap.version (idx, incarnation) v)) =
      some (noted key (LastInputOutput.version idx incarnation) (value v), s)
  capture s txn_idx key (ok (MvHashMap.resolved n)) =
      some (noted key (LastInputOutput.resolved n) (u128 n), s)
  capture s txn_idx key (err MvHashMap.not_found) =
      some (noted key LastInputOutput.storage nothing, s)
  capture s txn_idx key (err (MvHashMap.unresolved d)) =
      some (noted key (LastInputOutput.unresolved d) (unresolved d), s)
  capture s txn_idx key (err (MvHashMap.dependency dep_idx)) = do
    r ← wait_for_dependency s txn_idx dep_idx
    some (wait_on r)
  capture s txn_idx key (err MvHashMap.delta_application_failure) =
      some (noted key LastInputOutput.delta_application_failure (u128 0), s)

-- One round of `MVHashMapView::read`.
unfoldable pub read_round :
    {K V : Type 0} ⦃k : Key K⦄
    → TransactionWrite V
    → Map K (EntryMap V)
    → Scheduler
    → TxnIndex
    → K
    → Option (Round K V × Scheduler)
read_round w m s txn_idx key = do
  found ← MvHashMap.read w m key txn_idx
  capture s txn_idx key found
