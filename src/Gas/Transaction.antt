-- ===== src/Gas/Transaction.antt =====
-- The prices of aptos-gas/src/transaction.rs: intrinsic gas, and the gas of a write set. A result of
-- none is a panic.
pub mod WriteSet
pub mod Intrinsic
pub mod EarlyWriteSet
use move_tutorial.Prelude.{ℕ, List, [], ◌∷◌, length, Option, some, ltb, ◌==◌, if◌then◌else◌}
use move_tutorial.Prelude.Options.{◌>>=◌}
use move_tutorial.Gas.Algebra.{GasAlgebra, ◌⊕◌, ◌⊗◌, or_zero}
use move_tutorial.Gas.Params.Txn.{TransactionGasParameters}

-- `StateKey` of aptos_types, which is a parameter.
pub record StateKey (K : Type 0) : Type 0 where
  pub size : K → ℕ
  -- `encode`: none if the key cannot be serialized.
  pub encode : K → Option (List ℕ)

-- `WriteOp` of aptos_types.
pub data WriteOp : Type 0 where
  creation modification : List ℕ → WriteOp
  deletion : WriteOp

pub record StorageGasParameters : Type 0 where
  pub per_item_read : ℕ
  pub per_item_create : ℕ
  pub per_item_write : ℕ
  pub per_byte_read : ℕ
  pub per_byte_create : ℕ
  pub per_byte_write : ℕ

-- The counters of `StorageGasParameters::calculate_write_set_gas`.
pub record StorageCounts : Type 0 where
  pub num_items_create : ℕ
  pub num_items_write : ℕ
  pub num_bytes_create : ℕ
  pub num_bytes_write : ℕ

-- The counters of `TransactionGasParameters::calculate_write_set_gas`.
pub record TransactionCounts : Type 0 where
  pub num_ops : ℕ
  pub num_new_items : ℕ
  pub num_bytes_key : ℕ
  pub num_bytes_val : ℕ

abbrev no_storage_counts : StorageCounts
no_storage_counts = record {
  num_items_create = 0;
  num_items_write = 0;
  num_bytes_create = 0;
  num_bytes_write = 0;
}

abbrev no_transaction_counts : TransactionCounts
no_transaction_counts = record {
  num_ops = 0;
  num_new_items = 0;
  num_bytes_key = 0;
  num_bytes_val = 0;
}

module _ ⦃G : GasAlgebra⦄ where
  abbrev pub count_value : TransactionCounts → WriteOp → TransactionCounts
  count_value counts (creation bytes) = record counts {
    num_new_items = counts.num_new_items ⊕ 1;
    num_bytes_val = counts.num_bytes_val ⊕ length bytes;
  }
  count_value counts (modification bytes) = record counts {
    num_bytes_val = counts.num_bytes_val ⊕ length bytes;
  }
  count_value counts deletion = counts

module _ {K : Type 0} ⦃G : GasAlgebra⦄ ⦃E : StateKey K⦄ where
  unfoldable pub write_op_size : K → List ℕ → ℕ → Option ℕ
  write_op_size key value feature_version =
      let value_size = length value in
      if ltb 2 feature_version
      then some (or_zero (G.checked_sub (E.size key ⊕ value_size) 1024))
      else (do encoded ← E.encode key; some (length encoded ⊕ value_size))

  -- The body of the loop.
  unfoldable pub count_storage : ℕ → StorageCounts → K × WriteOp → Option StorageCounts
  unfolding write_op_size
  count_storage feature_version counts (key, creation bytes) = do
    size ← write_op_size key bytes feature_version
    some (record counts {
      num_items_create = counts.num_items_create ⊕ 1;
      num_bytes_create = counts.num_bytes_create ⊕ size;
    })
  count_storage feature_version counts (key, modification bytes) = do
    size ← write_op_size key bytes feature_version
    some (record counts {
      num_items_write = counts.num_items_write ⊕ 1;
      num_bytes_write = counts.num_bytes_write ⊕ size;
    })
  count_storage feature_version counts (key, deletion) = some counts

  unfoldable pub count_all_storage : ℕ → List (K × WriteOp) → StorageCounts → Option StorageCounts
  unfolding count_storage
  count_all_storage feature_version [] counts = some counts
  count_all_storage feature_version (op ∷ ops) counts = do
    counts' ← count_storage feature_version counts op
    count_all_storage feature_version ops counts'

  unfoldable pub calculate_storage_gas : StorageGasParameters → List (K × WriteOp) → ℕ → Option ℕ
  unfolding count_all_storage
  calculate_storage_gas self ops feature_version = do
    counts ← count_all_storage feature_version ops no_storage_counts
    some (
        counts.num_items_create ⊗ self.per_item_create
        ⊕ counts.num_items_write ⊗ self.per_item_write
        ⊕ counts.num_bytes_create ⊗ self.per_byte_create
        ⊕ counts.num_bytes_write ⊗ self.per_byte_write)

  abbrev pub key_bytes : TransactionGasParameters → ℕ → K → Option ℕ
  key_bytes self num_bytes_key key =
      if ltb 0 self.write_data_per_byte_in_key
      then (do encoded ← E.encode key; some (num_bytes_key ⊕ length encoded))
      else some num_bytes_key

  unfoldable pub count_transaction :
      TransactionGasParameters → TransactionCounts → K × WriteOp → Option TransactionCounts
  count_transaction self counts (key, op) = do
    num_bytes_key ← key_bytes self counts.num_bytes_key key
    some (
        count_value (record counts { num_ops = counts.num_ops ⊕ 1; num_bytes_key = num_bytes_key })
          op)

  unfoldable pub count_all_transaction :
      TransactionGasParameters → List (K × WriteOp) → TransactionCounts → Option TransactionCounts
  unfolding count_transaction
  count_all_transaction self [] counts = some counts
  count_all_transaction self (op ∷ ops) counts = do
    counts' ← count_transaction self counts op
    count_all_transaction self ops counts'

  unfoldable pub calculate_write_set_gas : TransactionGasParameters → List (K × WriteOp) → Option ℕ
  unfolding count_all_transaction
  calculate_write_set_gas self ops = do
    counts ← count_all_transaction self ops no_transaction_counts
    let cost_ops = self.write_data_per_op ⊗ counts.num_ops
    let cost_new_items = self.write_data_per_new_item ⊗ counts.num_new_items
    let cost_bytes =
        self.write_data_per_byte_in_key ⊗ counts.num_bytes_key
        ⊕ self.write_data_per_byte_in_val ⊗ counts.num_bytes_val
    some (cost_ops ⊕ cost_new_items ⊕ cost_bytes)

-- `scaling_factor`, so that no division is by zero.
abbrev pub scaling_factor : TransactionGasParameters → ℕ
scaling_factor self = if self.gas_unit_scaling_factor == 0 then 1 else self.gas_unit_scaling_factor

-- `ToUnitWithParams::multiplier`.
abbrev pub multiplier : TransactionGasParameters → ℕ
multiplier params = scaling_factor params

-- `ToUnitFractionalWithParams::ratio`.
abbrev pub ratio : TransactionGasParameters → ℕ × ℕ
ratio params = (1, scaling_factor params)

module _ ⦃G : GasAlgebra⦄ where
  unfoldable pub calculate_intrinsic_gas : TransactionGasParameters → ℕ → Option ℕ
  calculate_intrinsic_gas self transaction_size =
      let min_transaction_fee = self.min_transaction_gas_units in
      if ltb self.large_transaction_cutoff transaction_size
      then (do
        excess ← G.checked_sub transaction_size self.large_transaction_cutoff
        some (min_transaction_fee ⊕ excess ⊗ self.intrinsic_gas_per_byte))
      else some min_transaction_fee
