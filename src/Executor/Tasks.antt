-- ===== src/Executor/Tasks.antt =====
-- parallel-executor/src/executor.rs: the execution and the validation of one version, each as one
-- step. The result of the virtual machine and the reads that it made are arguments of `execute`.
pub mod Validation
pub mod Tracking
use move_tutorial.Prelude.{
  ℕ, Bool, true, false, not, ◌||◌, if◌then◌else◌, Option, none, some, Result, ok, err, List, [],
  ◌∷◌,
}
use move_tutorial.Prelude.Options.{◌>>=◌}
use move_tutorial.Prelude.Map.{Key, Map, lookup, insert, remove}
use move_tutorial.Prelude.{get_elem?}
use move_tutorial.Aggregator.Delta.{DeltaOp}
use move_tutorial.MvHashMap
use move_tutorial.MvHashMap.{
  EntryMap, TransactionWrite, MvHashMapError, MvHashMapOutput, add_write, add_delta, mark_estimate,
  delete,
}
use move_tutorial.Scheduler.{TxnIndex, Incarnation, Version, Scheduler, SchedulerTask, try_abort}
use move_tutorial.Scheduler.Tasks.{give_up, finish_execution, finish_abort}
use move_tutorial.Executor.{
  ExecutionStatus, success, abort, skip_rest, Error, user_error, ModulePath, TransactionOutput,
}
use move_tutorial.Executor.LastInputOutput.{
  ReadDescriptor, TxnLastInputOutput, Set, validate_version, validate_resolved, validate_unresolved,
  validate_storage, validate_delta_application_failure, modified_keys, record_execution,
}

module _ {K V : Type 0} where
  -- The `match` in the closure of `all`.
  abbrev pub accepts : ReadDescriptor K → Result MvHashMapError (MvHashMapOutput V) → Bool
  accepts r (ok (MvHashMap.version version _)) = validate_version r version
  accepts r (ok (MvHashMap.resolved value)) = validate_resolved r value
  accepts r (err (MvHashMap.dependency _)) = false
  accepts r (err (MvHashMap.unresolved delta)) = validate_unresolved r delta
  accepts r (err MvHashMap.not_found) = validate_storage r
  accepts r (err MvHashMap.delta_application_failure) = validate_delta_application_failure r

-- The state of `apply_updates`: the keys modified before and not yet again, whether a new key was
-- modified, and the store.
pub record Updates (K V : Type 0) : Type 0 where
  pub prev_modified_keys : Set K
  pub updates_outside : Bool
  pub versioned : Map K (EntryMap V)

abbrev pub is_none {ℓ} : {A : Type ℓ} → Option A → Bool
is_none none = true
is_none (some _) = false

module _ {K V : Type 0} ⦃k : Key K⦄ where
  -- `all` stops at the first read that is not accepted.
  unfoldable pub all_valid :
      TransactionWrite V → Map K (EntryMap V) → TxnIndex → List (ReadDescriptor K) → Option Bool
  all_valid w m txn_idx [] = some true
  all_valid w m txn_idx (r ∷ rest) =
      let others = all_valid w m txn_idx rest in
      MvHashMap.read w m r.access_path txn_idx >>= λ found.
      if accepts r found then others else some false

  unfoldable pub mark_all : Map K (EntryMap V) → TxnIndex → Set K → Option (Map K (EntryMap V))
  mark_all m txn_idx [] = some m
  mark_all m txn_idx ((key, _) ∷ keys) = do
    m' ← mark_estimate m key txn_idx
    mark_all m' txn_idx keys

  unfoldable pub delete_all : Map K (EntryMap V) → TxnIndex → Set K → Option (Map K (EntryMap V))
  delete_all m txn_idx [] = some m
  delete_all m txn_idx ((key, _) ∷ keys) = do m' ← delete m key txn_idx; delete_all m' txn_idx keys

  -- `if !prev_modified_keys.remove(&k) { updates_outside = true; }`
  abbrev pub touch : Updates K V → K → Updates K V
  touch u key = record u {
    prev_modified_keys = remove key u.prev_modified_keys;
    updates_outside = u.updates_outside || is_none (lookup key u.prev_modified_keys);
  }

  unfoldable pub apply_writes : Version → List (K × V) → Updates K V → Option (Updates K V)
  apply_writes version [] u = some u
  apply_writes version ((key, v) ∷ writes) u = do
    m ← add_write u.versioned key version v
    apply_writes version writes (record (touch u key) { versioned = m })

  unfoldable pub apply_deltas : TxnIndex → List (K × DeltaOp) → Updates K V → Updates K V
  apply_deltas txn_idx [] u = u
  apply_deltas txn_idx ((key, d) ∷ deltas) u =
      apply_deltas txn_idx deltas
        (record (touch u key) { versioned = add_delta u.versioned key txn_idx d })

  abbrev pub apply_output :
      {T : Type 0} → TransactionOutput K V T → Version → T → Updates K V → Option (Updates K V)
  apply_output out version output u = do
    u' ← apply_writes version (out.get_writes output) u
    some (apply_deltas version.0 (out.get_deltas output) u')

-- What the threads share.
pub record Shared (K V T E P : Type 0) : Type 0 where
  pub scheduler : Scheduler
  pub versioned : Map K (EntryMap V)
  pub last_input_output : TxnLastInputOutput K T E P

module _ {K V T E P : Type 0} ⦃k : Key K⦄ ⦃p : Key P⦄ (path : ModulePath K P)
    (out : TransactionOutput K V T) where
  -- The `match execute_result`: the updates, and the status to record.
  abbrev pub apply_updates :
      Version
      → ExecutionStatus T E
      → Updates K V
      → Option (Updates K V × ExecutionStatus T (Error E))
  apply_updates version (success output) u = do
    u' ← apply_output out version output u
    some (u', success output)
  apply_updates version (skip_rest output) u = do
    u' ← apply_output out version output u
    some (u', skip_rest output)
  apply_updates version (abort e) u = some (u, abort (user_error e))

  -- `execute`, from the point where the virtual machine has returned.
  unfoldable pub execute :
      Shared K V T E P
      → Version
      → ExecutionStatus T E
      → List (ReadDescriptor K)
      → Option (SchedulerTask × Shared K V T E P)
  unfolding apply_writes apply_deltas delete_all
  execute s (idx, incarnation) execute_result reads = do
    prev ← modified_keys out s.last_input_output idx
    applied ←
        apply_updates (idx, incarnation) execute_result
          (record { prev_modified_keys = prev; updates_outside = false; versioned = s.versioned })
    let u = applied.0
    versioned ← delete_all u.versioned idx u.prev_modified_keys
    last ← record_execution path out s.last_input_output idx reads applied.1
    finished ← finish_execution s.scheduler idx incarnation u.updates_outside
    some (
      finished.0,
      record { scheduler = finished.1; versioned = versioned; last_input_output = last },
    )

  -- The branches after `try_abort`: aborted, or not.
  abbrev pub after_abort :
      Shared K V T E P → Version → Bool × Scheduler → Option (SchedulerTask × Shared K V T E P)
  after_abort s (idx, incarnation) (true, scheduler) = do
    keys ← modified_keys out s.last_input_output idx
    versioned ← mark_all s.versioned idx keys
    finished ← finish_abort scheduler idx incarnation
    some (finished.0, record s { scheduler = finished.1; versioned = versioned })
  after_abort s (idx, incarnation) (false, scheduler) = do
    finished ← give_up scheduler
    some (finished.0, record s { scheduler = finished.1 })

  abbrev pub after_check :
      Shared K V T E P → Version → Bool → Option (SchedulerTask × Shared K V T E P)
  after_check s version true = after_abort s version (false, s.scheduler)
  after_check s (idx, incarnation) false = do
    tried ← try_abort s.scheduler idx incarnation
    after_abort s (idx, incarnation) tried

  unfoldable pub validate :
      TransactionWrite V → Shared K V T E P → Version → Option (SchedulerTask × Shared K V T E P)
  unfolding all_valid mark_all
  validate w s (idx, incarnation) = do
    stored ← get_elem? s.last_input_output.inputs idx
    read_set ← stored
    valid ← all_valid w s.versioned idx read_set
    after_check s (idx, incarnation) valid
