-- ===== src/Aggregator/Output.antt =====
-- `TransactionOutputExt` of aptos-aggregator/src/transaction.rs, and how the deltas of an output
-- become writes: `try_into_write_op` and `try_into_write_set_mut` of delta_change_set.rs.
pub mod Paths
use move_tutorial.Prelude.{
  ℕ, Bool, Option, none, some, List, [], ◌∷◌, Result, ok, err, PartialVmError, StatusCode,
  storage_error, map_err, ◌>>=◌, if◌then◌else◌, ◌||◌, ◌==◌, length,
}
use move_tutorial.Prelude.Map.{Map}
use move_tutorial.Aggregator.Delta.{DeltaOp, apply_to}
use move_tutorial.Aggregator.Deltas.{DeltaChangeSet, no_deltas, is_empty}
use move_tutorial.Aggregator.Squash.{WriteOp, modification}

-- What is not in the repository: the statuses, the write sets and bcs on numbers.
pub record Platform (K B : Type 0) : Type 1 where
  pub VmStatus : Type 0
  pub error : StatusCode → VmStatus
  pub finish : PartialVmError → VmStatus
  pub from_bytes : B → Option ℕ
  pub to_bytes : ℕ → Option B
  pub WriteSetMut : Type 0
  pub new_set : List (K × WriteOp B) → WriteSetMut
  pub len : WriteSetMut → ℕ
  pub squash : WriteSetMut → WriteSetMut → Option WriteSetMut
  pub WriteSet : Type 0
  pub into_mut : WriteSet → WriteSetMut
  pub freeze : WriteSetMut → Option WriteSet
  pub TransactionStatus : Type 0
  pub is_discarded : TransactionStatus → Bool

-- A status, or a panic.
pub data Stop (S : Type 0) : Type 0 where
  status : S → Stop S
  panicked : Stop S

abbrev pub or_panic : {A S : Type 0} → Option A → Result (Stop S) A
or_panic none = err panicked
or_panic (some a) = ok a

-- `expect` on a result.
abbrev pub expect_ok : {A S : Type 0} → Result (Stop S) A → Result (Stop S) A
expect_ok (ok a) = ok a
expect_ok (err e) = err panicked

-- `get_state_value` of a state view: none is its error.
abbrev pub StateView : Type 0 → Type 0 → Type 0
StateView K B = K → Option (Option B)

module _ {K B : Type 0} (p : Platform K B) where
  pub record TransactionOutput (E : Type 0) : Type 0 where
    pub write_set : p.WriteSet
    pub events : List E
    pub gas_used : ℕ
    pub status : p.TransactionStatus

  pub record TransactionOutputExt (E : Type 0) : Type 0 where
    pub delta_change_set : DeltaChangeSet K
    pub output : TransactionOutput E

  -- The match on the bytes that the state view has.
  abbrev pub write_op_on : DeltaOp → Option (Option B) → Result (Stop p.VmStatus) (WriteOp B)
  write_op_on self none = err (status (p.error storage_error))
  write_op_on self (some none) = err (status (p.error storage_error))
  write_op_on self (some (some bytes)) = do
    base ← or_panic (p.from_bytes bytes)
    result ← map_err (λ e. status (p.finish e)) (apply_to self base)
    written ← or_panic (p.to_bytes result)
    ok (modification written)

  unfoldable pub try_into_write_op :
      DeltaOp → StateView K B → K → Result (Stop p.VmStatus) (WriteOp B)
  try_into_write_op self state_view state_key = write_op_on self (state_view state_key)

  unfoldable pub materialize_deltas :
      DeltaChangeSet K → StateView K B → Result (Stop p.VmStatus) (List (K × WriteOp B))
  unfolding try_into_write_op
  materialize_deltas [] state_view = ok []
  materialize_deltas ((state_key, delta_op) ∷ deltas) state_view = do
    write_op ← try_into_write_op delta_op state_view state_key
    rest ← materialize_deltas deltas state_view
    ok ((state_key, write_op) ∷ rest)

  unfoldable pub try_into_write_set_mut :
      DeltaChangeSet K → StateView K B → Result (Stop p.VmStatus) p.WriteSetMut
  unfolding materialize_deltas
  try_into_write_set_mut self state_view = do
    materialized_write_set ← materialize_deltas self state_view
    ok (p.new_set materialized_write_set)

  module _ {E : Type 0} where
    unfoldable pub from_output : TransactionOutput E → TransactionOutputExt E
    from_output output = record { delta_change_set = no_deltas; output = output }

    unfoldable pub merge_delta_writes :
        TransactionOutput E → p.WriteSetMut → Result (Stop p.VmStatus) (TransactionOutput E)
    merge_delta_writes output delta_writes = do
      squashed ← or_panic (p.squash (p.into_mut output.write_set) delta_writes)
      frozen ← or_panic (p.freeze squashed)
      ok (record output { write_set = frozen })

    abbrev pub has_nothing_to_apply : TransactionOutputExt E → Bool
    has_nothing_to_apply self = p.is_discarded self.output.status || is_empty self.delta_change_set

    unfoldable pub into_transaction_output :
        TransactionOutputExt E → StateView K B → Result (Stop p.VmStatus) (TransactionOutput E)
    unfolding try_into_write_set_mut merge_delta_writes
    into_transaction_output self state_view =
        if has_nothing_to_apply self
        then ok self.output
        else expect_ok (try_into_write_set_mut self.delta_change_set state_view)
          >>= merge_delta_writes self.output

    unfoldable pub output_with_delta_writes :
        TransactionOutputExt E → p.WriteSetMut → Result (Stop p.VmStatus) (TransactionOutput E)
    unfolding merge_delta_writes
    output_with_delta_writes self delta_writes =
        if has_nothing_to_apply self
        then ok self.output
        else if length self.delta_change_set == p.len delta_writes
        then merge_delta_writes self.output delta_writes
        else err panicked
