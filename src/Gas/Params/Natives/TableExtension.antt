-- ===== src/Gas/Params/Natives/TableExtension.antt =====
-- The rows of aptos-gas/src/table.rs: the gas parameters of the natives of move-table-extension.
use move_tutorial.Prelude.{Bool, List, [], ◌∷◌, ◌*◌}
use move_tutorial.Gas.Schedule.{ParamsTable}
use move_tutorial.Gas.Params.Natives.{
  NativeRow, NativeParams, natives_table, row, execution_gas_multiplier,
}

abbrev pub rows : List NativeRow
rows =
    row "common.load_base" "common.load.base" 8000
    ∷ row "common.load_per_byte" "common.load.per_byte" 1000
    ∷ row "common.load_failure" "common.load.failure" 0
    ∷ row "new_table_handle.base" "new_table_handle.base" (1000 * execution_gas_multiplier)
    ∷ row "add_box.base" "add_box.base" (1200 * execution_gas_multiplier)
    ∷ row "add_box.per_byte_serialized" "add_box.per_byte_serialized"
        (10 * execution_gas_multiplier)
    ∷ row "borrow_box.base" "borrow_box.base" (1200 * execution_gas_multiplier)
    ∷ row "borrow_box.per_byte_serialized" "borrow_box.per_byte_serialized"
        (10 * execution_gas_multiplier)
    ∷ row "contains_box.base" "contains_box.base" (1200 * execution_gas_multiplier)
    ∷ row "contains_box.per_byte_serialized" "contains_box.per_byte_serialized"
        (10 * execution_gas_multiplier)
    ∷ row "remove_box.base" "remove_box.base" (1200 * execution_gas_multiplier)
    ∷ row "remove_box.per_byte_serialized" "remove_box.per_byte_serialized"
        (10 * execution_gas_multiplier)
    ∷ row "destroy_empty_box.base" "destroy_empty_box.base" (1200 * execution_gas_multiplier)
    ∷ row "drop_unchecked_box.base" "drop_unchecked_box.base" (100 * execution_gas_multiplier)
    ∷ []

abbrev pub table : Bool → ParamsTable NativeParams
table testing = natives_table testing "table" rows
