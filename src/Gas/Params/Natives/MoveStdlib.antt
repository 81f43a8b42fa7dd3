-- ===== src/Gas/Params/Natives/MoveStdlib.antt =====
-- The rows of aptos-gas/src/move_stdlib.rs: the gas parameters of the natives of move-stdlib.
use move_tutorial.Prelude.{Bool, List, [], ◌∷◌, ◌*◌}
use move_tutorial.Gas.Schedule.{ParamsTable}
use move_tutorial.Gas.Params.Natives.{
  NativeRow, NativeParams, natives_table, row, test_row, execution_gas_multiplier,
}

abbrev pub rows : List NativeRow
rows =
    row "bcs.to_bytes.per_byte_serialized" "bcs.to_bytes.per_byte_serialized"
      (10 * execution_gas_multiplier)
    ∷ row "bcs.to_bytes.failure" "bcs.to_bytes.failure" (1000 * execution_gas_multiplier)
    ∷ row "hash.sha2_256.base" "hash.sha2_256.base" (3000 * execution_gas_multiplier)
    ∷ row "hash.sha2_256.per_byte" "hash.sha2_256.per_byte" (50 * execution_gas_multiplier)
    ∷ row "hash.sha3_256.base" "hash.sha3_256.base" (4000 * execution_gas_multiplier)
    ∷ row "hash.sha3_256.per_byte" "hash.sha3_256.per_byte" (45 * execution_gas_multiplier)
    ∷ row "signer.borrow_address.base" "signer.borrow_address.base" (200 * execution_gas_multiplier)
    ∷ row "string.check_utf8.base" "string.check_utf8.base" (300 * execution_gas_multiplier)
    ∷ row "string.check_utf8.per_byte" "string.check_utf8.per_byte" (8 * execution_gas_multiplier)
    ∷ row "string.is_char_boundary.base" "string.is_char_boundary.base"
        (300 * execution_gas_multiplier)
    ∷ row "string.sub_string.base" "string.sub_string.base" (400 * execution_gas_multiplier)
    ∷ row "string.sub_string.per_byte" "string.sub_string.per_byte" (3 * execution_gas_multiplier)
    ∷ row "string.index_of.base" "string.index_of.base" (400 * execution_gas_multiplier)
    ∷ row "string.index_of.per_byte_pattern" "string.index_of.per_byte_pattern"
        (20 * execution_gas_multiplier)
    ∷ row "string.index_of.per_byte_searched" "string.index_of.per_byte_searched"
        (10 * execution_gas_multiplier)
    ∷ test_row "unit_test.create_signers_for_testing.base_cost"
        "unit_test.create_signers_for_testing.base" 1
    ∷ test_row "unit_test.create_signers_for_testing.unit_cost"
        "unit_test.create_signers_for_testing.unit" 1
    ∷ []

abbrev pub table : Bool → ParamsTable NativeParams
table testing = natives_table testing "move_stdlib" rows
