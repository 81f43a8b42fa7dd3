-- ===== src/Executor/Tasks/Tracking.antt =====
-- Which paths hold an entry of a transaction after an execution.
pub mod Entries
pub mod Contents
pub mod Deletions
pub mod Runs
use mathlib.Core.Path.{subst}
use move_tutorial.Prelude.{
  refl, ℕ, ◌<◌, ◌≡◌, ◌∙◌, ◌⊎◌, sym, ap, arith, true, false, Bool-cases, Option-cases, inl, inr,
  Option, none, some, List, [], ◌∷◌, length, get_elem?, set, get_elem?-set_self,
}
use move_tutorial.Prelude.Options.{◌>>=◌, >>=-eq-some}
use move_tutorial.Prelude.Map.{
  Key, Map, nat_key, lookup, insert, remove, lookup-insert, lookup-remove,
}
use move_tutorial.Aggregator.Delta.{DeltaOp}
use move_tutorial.MvHashMap.{
  Entry, EntryMap, write, delta, flag_done, tree_at, add_write, add_delta, delete,
}
use move_tutorial.MvHashMap.Visibility.{tree_at-insert_ne, tree_at-insert_eq}
use move_tutorial.Scheduler.{TxnIndex, Version, SchedulerTask}
use move_tutorial.Scheduler.Tasks.{finish_execution}
use move_tutorial.Executor.{
  ExecutionStatus, success, abort, skip_rest, Error, ModulePath, TransactionOutput,
}
use move_tutorial.Executor.LastInputOutput.{
  ReadDescriptor, TxnLastInputOutput, Set, store, collect, keys_of, modified_keys, record_execution,
  check_modules, read_modules, written_modules,
}
use move_tutorial.Executor.Tasks.{
  Updates, Shared, touch, apply_writes, apply_deltas, apply_output, apply_updates, delete_all,
  execute,
}
use Runs.{some_inj, Steps, execute-Steps, Executed, executed, started, record_execution-at}
use Contents.{Updated, Others, output_entry, result_entry, apply_output-Updated}
use Deletions.{Updated-delete_all}
use Entries.{entry_at, Covered, apply_output-Covered, delete_all-Covered}

-- Every path with an entry of the transaction is among its modified keys.
pub record IsTracked {K V T E P : Type 0} ⦃k : Key K⦄ (out : TransactionOutput K V T)
    (s : Shared K V T E P) (i : TxnIndex) : Type 0 where
  pub only :
      (keys : Set K)
      → modified_keys out s.last_input_output i ≡ some keys
      → (key : K) → lookup key keys ≡ none
      → entry_at s.versioned i key ≡ none

module _ {K V T E P : Type 0} ⦃k : Key K⦄ ⦃p : Key P⦄ (path : ModulePath K P)
    (out : TransactionOutput K V T) where
  modified_keys-record :
      (s t : TxnLastInputOutput K T E P) (i : TxnIndex) (input : List (ReadDescriptor K))
      (o : ExecutionStatus T (Error E))
      → record_execution path out s i input o ≡ some t
      → modified_keys out t i ≡ some (keys_of out (some o))
  unfolding modified_keys
  modified_keys-record s t i input o e =
      ap (λ q. q >>= λ output. some (keys_of out output))
        (record_execution-at path out s t i input o e)

  abbrev Fits : TxnIndex → Updates K V × ExecutionStatus T (Error E) → Type 0
  Fits i a = Covered a.0.versioned i a.0.prev_modified_keys (keys_of out (some a.1))

  apply_updates-Fits :
      (v : Version) (r : ExecutionStatus T E) (u : Updates K V)
      (a : Updates K V × ExecutionStatus T (Error E))
      → apply_updates path out v r u ≡ some a
      → Covered u.versioned v.0 u.prev_modified_keys []
      → Fits v.0 a
  apply_updates-Fits v (success t) u a e c =
      let (x, ex, e1) = >>=-eq-some (apply_output out v t u) (λ y. some (y, success t)) e in
      subst (Fits v.0) (some_inj _ a e1) (apply_output-Covered out v t u x ex c)
  apply_updates-Fits v (skip_rest t) u a e c =
      let (x, ex, e1) = >>=-eq-some (apply_output out v t u) (λ y. some (y, skip_rest t)) e in
      subst (Fits v.0) (some_inj _ a e1) (apply_output-Covered out v t u x ex c)
  apply_updates-Fits v (abort x) u a e c = subst (Fits v.0) (some_inj _ a e) c

  replaced :
      (s t : Shared K V T E P) (v : Version) (r : ExecutionStatus T E)
      (reads : List (ReadDescriptor K))
      → Steps path out s t v r reads
      → IsTracked out s v.0
      → (keys : Set K) → modified_keys out t.last_input_output v.0 ≡ some keys
      → (key : K) → lookup key keys ≡ none
      → entry_at t.versioned v.0 key ≡ none
  replaced s t v r reads x tracked keys ek key absent =
      let (u, status) = x.applied in
      let now : keys_of out (some status) ≡ keys = some_inj _ _ (
        sym (
          modified_keys-record s.last_input_output t.last_input_output v.0 reads status
            x.record_made)
        ∙ ek) in
      let fits =
        apply_updates-Fits v r (started x.prev s) x.applied x.updates
          (λ at p n. tracked.only x.prev x.keys_before at p) in
      delete_all-Covered v.0 u.versioned t.versioned u.prev_modified_keys
        (keys_of out (some status)) x.deletions fits key (ap (lookup key) now ∙ absent)

  -- Suppose the store holds entries of a transaction only at the paths that its last recorded output
  -- modifies, and an execution of the transaction ends without a panic. Then this holds again. The
  -- transaction's entry at each path is the last delta at that path of the output that the virtual
  -- machine returned, or if there is none the last write with the new incarnation, or there is no
  -- entry; after an abort there is no entry at any path. The entries of the other transactions are
  -- what they were, and the result is recorded.
  pub execute-IsTracked :
      (s t : Shared K V T E P) (v : Version) (r : ExecutionStatus T E)
      (reads : List (ReadDescriptor K)) (task : SchedulerTask)
      → execute path out s v r reads ≡ some (task, t)
      → IsTracked out s v.0
      → IsTracked out t v.0 × Executed path out s t v r
  execute-IsTracked s t v r reads task e tracked =
      let x = execute-Steps path out s t v r reads task e in
      (
        record { only = λ keys ek key absent. replaced s t v r reads x tracked keys ek key absent },
        executed path out s t v r reads x (λ key p. tracked.only x.prev x.keys_before key p),
      )
