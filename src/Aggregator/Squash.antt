-- ===== src/Aggregator/Squash.antt =====
-- `ChangeSetExt` of aptos-aggregator/src/transaction.rs: the writes and the deltas of a transaction,
-- and how those of a later part of it are squashed onto those of an earlier part.
pub mod Stored
pub mod Writes
pub mod Disjoint
use move_tutorial.Prelude.{
  ℕ, Bool, Option, none, some, List, [], ◌∷◌, ◌++◌, Result, ok, err, PartialVmError, map_err, ◌>>=◌,
  if◌then◌else◌,
}
use move_tutorial.Prelude.Map.{Key, Map, lookup, insert, remove}
use move_tutorial.Aggregator.Delta.{DeltaOp, apply_to, merge_onto}

-- `WriteOp` of aptos_types.
pub data WriteOp (B : Type 0) : Type 0 where
  creation modification : B → WriteOp B
  deletion : WriteOp B

-- `ChangeSet` of aptos_types.
pub record ChangeSet (K B E : Type 0) : Type 0 where
  pub write_set : Map K (WriteOp B)
  pub events : List E

pub record ChangeSetExt (K B E : Type 0) : Type 0 where
  pub delta_change_set : Map K DeltaOp
  pub change_set : ChangeSet K B E
  pub gas_feature_version : ℕ

-- The errors, without their text.
pub data SquashError : Type 0 where
  already_deleted cannot_be_squashed bcs_error rejected : SquashError
  vm_error : PartialVmError → SquashError

-- What is not in the repository: bcs on numbers, and the test of `freeze` and `ChangeSet::new`.
pub record Encoding (K B E : Type 0) : Type 0 where
  pub from_bytes : B → Option ℕ
  pub to_bytes : ℕ → Option B
  pub accepts : ChangeSet K B E → ℕ → Bool

abbrev or_err : {A : Type 0} → Option A → SquashError → Result SquashError A
or_err none e = err e
or_err (some a) e = ok a

abbrev pub merged : DeltaOp → Option DeltaOp → Result SquashError DeltaOp
merged op none = ok op
merged op (some entry) = map_err vm_error (merge_onto op entry)

module _ {K B E : Type 0} ⦃k : Key K⦄ (c : Encoding K B E) where
  abbrev pub new_change_set :
      Map K DeltaOp → ChangeSet K B E → ℕ → Result SquashError (ChangeSetExt K B E)
  new_change_set deltas change_set gas_feature_version =
      if c.accepts change_set gas_feature_version
      then ok (record {
        delta_change_set = deltas;
        change_set = change_set;
        gas_feature_version = gas_feature_version;
      })
      else err rejected

  -- A delta on the bytes of a write.
  abbrev pub apply_bytes : DeltaOp → B → Result SquashError B
  apply_bytes op data_ = do
    val ← or_err (c.from_bytes data_) bcs_error
    result ← map_err vm_error (apply_to op val)
    or_err (c.to_bytes result) bcs_error

  abbrev pub squash_delta_on : DeltaOp → WriteOp B → Result SquashError (WriteOp B)
  squash_delta_on op (creation bytes) = do r ← apply_bytes op bytes; ok (creation r)
  squash_delta_on op (modification bytes) = do r ← apply_bytes op bytes; ok (modification r)
  squash_delta_on op deletion = err already_deleted

  abbrev pub squash_delta_at :
      K
      → DeltaOp
      → Option (WriteOp B)
      → Map K DeltaOp × Map K (WriteOp B)
      → Result SquashError (Map K DeltaOp × Map K (WriteOp B))
  squash_delta_at key op (some r) (deltas, writes) = do
    w ← squash_delta_on op r
    ok (deltas, insert key w writes)
  squash_delta_at key op none (deltas, writes) = do
    d ← merged op (lookup key deltas)
    ok (insert key d deltas, writes)

  -- One round of the loop of `squash_delta_change_set`.
  unfoldable pub squash_delta :
      K
      → DeltaOp
      → Map K DeltaOp × Map K (WriteOp B)
      → Result SquashError (Map K DeltaOp × Map K (WriteOp B))
  squash_delta key op state = squash_delta_at key op (lookup key state.1) state

  unfoldable pub squash_deltas :
      Map K DeltaOp
      → Map K DeltaOp × Map K (WriteOp B)
      → Result SquashError (Map K DeltaOp × Map K (WriteOp B))
  unfolding squash_delta
  squash_deltas [] state = ok state
  squash_deltas ((key, op) ∷ other) state = do
    state' ← squash_delta key op state
    squash_deltas other state'

  unfoldable pub squash_delta_change_set :
      ChangeSetExt K B E → Map K DeltaOp → Result SquashError (ChangeSetExt K B E)
  unfolding squash_deltas
  squash_delta_change_set self other = do
    (deltas, writes) ← squash_deltas other (self.delta_change_set, self.change_set.write_set)
    new_change_set deltas (record { write_set = writes; events = self.change_set.events })
        self.gas_feature_version

-- The match on the two operations: none is the bail, and `some none` takes the entry away.
abbrev pub squash_op : {B : Type 0} → WriteOp B → WriteOp B → Option (Option (WriteOp B))
squash_op (creation b) (creation d) = none
squash_op (modification b) (creation d) = none
squash_op deletion deletion = none
squash_op deletion (modification d) = none
squash_op (modification b) (modification d) = some (some (modification d))
squash_op (creation b) (modification d) = some (some (creation d))
squash_op (modification b) deletion = some (some deletion)
squash_op deletion (creation d) = some (some (modification d))
squash_op (creation b) deletion = some none

module _ {K B : Type 0} ⦃k : Key K⦄ where
  abbrev pub put_back :
      K
      → Option (Option (WriteOp B))
      → Map K DeltaOp × Map K (WriteOp B)
      → Result SquashError (Map K DeltaOp × Map K (WriteOp B))
  put_back key none state = err cannot_be_squashed
  put_back key (some none) (deltas, writes) = ok (deltas, remove key writes)
  put_back key (some (some w)) (deltas, writes) = ok (deltas, insert key w writes)

  abbrev pub squash_at :
      K
      → WriteOp B
      → Option (WriteOp B)
      → Map K DeltaOp × Map K (WriteOp B)
      → Result SquashError (Map K DeltaOp × Map K (WriteOp B))
  squash_at key op none (deltas, writes) = ok (remove key deltas, insert key op writes)
  squash_at key op (some r) state = put_back key (squash_op r op) state

  -- One round of the loop of `squash_change_set`.
  unfoldable pub squash_write :
      K
      → WriteOp B
      → Map K DeltaOp × Map K (WriteOp B)
      → Result SquashError (Map K DeltaOp × Map K (WriteOp B))
  squash_write key op state = squash_at key op (lookup key state.1) state

  unfoldable pub squash_writes :
      Map K (WriteOp B)
      → Map K DeltaOp × Map K (WriteOp B)
      → Result SquashError (Map K DeltaOp × Map K (WriteOp B))
  unfolding squash_write
  squash_writes [] state = ok state
  squash_writes ((key, op) ∷ other) state = do
    state' ← squash_write key op state
    squash_writes other state'

module _ {K B E : Type 0} ⦃k : Key K⦄ (c : Encoding K B E) where
  unfoldable pub squash_change_set :
      ChangeSetExt K B E → ChangeSet K B E → Result SquashError (ChangeSetExt K B E)
  unfolding squash_writes
  squash_change_set self other = do
    (deltas, writes) ←
        squash_writes other.write_set (self.delta_change_set, self.change_set.write_set)
    new_change_set c deltas
        (record { write_set = writes; events = self.change_set.events ++ other.events })
        self.gas_feature_version

  -- The method `squash`.
  unfoldable pub squash_ext :
      ChangeSetExt K B E → ChangeSetExt K B E → Result SquashError (ChangeSetExt K B E)
  unfolding squash_change_set squash_delta_change_set
  squash_ext self other = do
    with_writes ← squash_change_set self other.change_set
    squash_delta_change_set c with_writes other.delta_change_set
