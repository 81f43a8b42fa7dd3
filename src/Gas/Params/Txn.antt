-- ===== src/Gas/Params/Txn.antt =====
-- The parameters of aptos-gas/src/transaction.rs. `GAS_UNIT_PRICE` of aptos_global_constants is a
-- parameter.
use move_tutorial.Prelude.{ℕ, ◌*◌, Bool, true, false, List, [], ◌∷◌}
use move_tutorial.Gas.Schedule.{Field, ParamsTable}
use Prim.Native.String.{String}

pub record TransactionGasParameters : Type 0 where
  pub min_transaction_gas_units : ℕ
  pub large_transaction_cutoff : ℕ
  pub intrinsic_gas_per_byte : ℕ
  pub maximum_number_of_gas_units : ℕ
  pub min_price_per_gas_unit : ℕ
  pub max_price_per_gas_unit : ℕ
  pub max_transaction_size_in_bytes : ℕ
  pub gas_unit_scaling_factor : ℕ
  pub load_data_base : ℕ
  pub load_data_per_byte : ℕ
  pub load_data_failure : ℕ
  pub write_data_per_op : ℕ
  pub write_data_per_new_item : ℕ
  pub write_data_per_byte_in_key : ℕ
  pub write_data_per_byte_in_val : ℕ
  pub memory_quota : ℕ

abbrev pub zeros : TransactionGasParameters
zeros = record {
  min_transaction_gas_units = 0;
  large_transaction_cutoff = 0;
  intrinsic_gas_per_byte = 0;
  maximum_number_of_gas_units = 0;
  min_price_per_gas_unit = 0;
  max_price_per_gas_unit = 0;
  max_transaction_size_in_bytes = 0;
  gas_unit_scaling_factor = 0;
  load_data_base = 0;
  load_data_per_byte = 0;
  load_data_failure = 0;
  write_data_per_op = 0;
  write_data_per_new_item = 0;
  write_data_per_byte_in_key = 0;
  write_data_per_byte_in_val = 0;
  memory_quota = 0;
}

abbrev row :
    String
    → Bool
    → ℕ
    → (TransactionGasParameters → ℕ)
    → (ℕ → TransactionGasParameters → TransactionGasParameters)
    → Field TransactionGasParameters
row key is_optional initial get set = record {
  key = key;
  is_optional = is_optional;
  initial = initial;
  get = get;
  set = set;
}

abbrev pub fields : ℕ → List (Field TransactionGasParameters)
fields gas_unit_price =
    row "min_transaction_gas_units" false (1500000) (λ p. p.min_transaction_gas_units)
      (λ v p. record p { min_transaction_gas_units = v })
    ∷ row "large_transaction_cutoff" false (600) (λ p. p.large_transaction_cutoff)
        (λ v p. record p { large_transaction_cutoff = v })
    ∷ row "intrinsic_gas_per_byte" false (2000) (λ p. p.intrinsic_gas_per_byte)
        (λ v p. record p { intrinsic_gas_per_byte = v })
    ∷ row "maximum_number_of_gas_units" false (2000000) (λ p. p.maximum_number_of_gas_units)
        (λ v p. record p { maximum_number_of_gas_units = v })
    ∷ row "min_price_per_gas_unit" false (gas_unit_price) (λ p. p.min_price_per_gas_unit)
        (λ v p. record p { min_price_per_gas_unit = v })
    ∷ row "max_price_per_gas_unit" false (10000000000) (λ p. p.max_price_per_gas_unit)
        (λ v p. record p { max_price_per_gas_unit = v })
    ∷ row "max_transaction_size_in_bytes" false (64 * 1024) (λ p. p.max_transaction_size_in_bytes)
        (λ v p. record p { max_transaction_size_in_bytes = v })
    ∷ row "gas_unit_scaling_factor" false (10000) (λ p. p.gas_unit_scaling_factor)
        (λ v p. record p { gas_unit_scaling_factor = v })
    ∷ row "load_data.base" false (16000) (λ p. p.load_data_base)
        (λ v p. record p { load_data_base = v })
    ∷ row "load_data.per_byte" false (1000) (λ p. p.load_data_per_byte)
        (λ v p. record p { load_data_per_byte = v })
    ∷ row "load_data.failure" false (0) (λ p. p.load_data_failure)
        (λ v p. record p { load_data_failure = v })
    ∷ row "write_data.per_op" false (160000) (λ p. p.write_data_per_op)
        (λ v p. record p { write_data_per_op = v })
    ∷ row "write_data.new_item" false (1280000) (λ p. p.write_data_per_new_item)
        (λ v p. record p { write_data_per_new_item = v })
    ∷ row "write_data.per_byte_in_key" false (10000) (λ p. p.write_data_per_byte_in_key)
        (λ v p. record p { write_data_per_byte_in_key = v })
    ∷ row "write_data.per_byte_in_val" false (10000) (λ p. p.write_data_per_byte_in_val)
        (λ v p. record p { write_data_per_byte_in_val = v })
    ∷ row "memory_quota" true (10000000) (λ p. p.memory_quota)
        (λ v p. record p { memory_quota = v })
    ∷ []

abbrev pub table : ℕ → ParamsTable TransactionGasParameters
table gas_unit_price = record { prefix = "txn"; zeros = zeros; fields = fields gas_unit_price }
