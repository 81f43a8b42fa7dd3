-- ===== src/Gas/Meter/Values.antt =====
-- The methods of `GasMeter for AptosGasMeter` in aptos-gas/src/gas_meter.rs that look at the values
-- of an instruction. Arguments that the code does not use are left out.
use text.Mathlib.Text.{◌==◌ as str_eq}
use move_tutorial.Prelude.{
  ℕ, Bool, ◌&&◌, Option, none, some, List, length, leb, ◌==◌, if◌then◌else◌,
}
use move_tutorial.Gas.Algebra.{GasAlgebra, ◌⊕◌, ◌⊗◌}
use move_tutorial.Gas.Views.{ValueView}
use move_tutorial.Gas.Sizes.{abstract_value_size_stack_and_heap}
use move_tutorial.Gas.Meter.{
  Charge, pure, unwrap, get, put, charge, use_heap_memory, release_heap_memory, ◌>>=◌, ◌>>◌,
}
use move_tutorial.Gas.Meter.Charges.{
  ModuleId, heap_size, packed_size, dereferenced_size, sum_heap, sum_stack, sum_packed,
}

module _ {V : Type 0} ⦃G : GasAlgebra⦄ where
  -- The gas for the bytes of a resource, or for its absence.
  abbrev pub per_loaded : ℕ → ℕ → Option (ℕ × V) → ℕ
  per_loaded per_byte failure none = failure
  per_loaded per_byte failure (some (num_bytes, val)) = per_byte ⊗ num_bytes

module _ {N V : Type 0} ⦃G : GasAlgebra⦄ ⦃W : ValueView V⦄ where
  unfoldable pub charge_native_function_before_execution : List V → Charge N Unit
  unfolding release_heap_memory
  charge_native_function_before_execution args = do
    self ← get
    if self.is_call_table
        then pure tt
        else (do released ← sum_heap args; release_heap_memory released)

  abbrev pub use_returned : Option (List V) → Charge N Unit
  use_returned none = pure tt
  use_returned (some ret_vals) = do used ← sum_heap ret_vals; use_heap_memory used

  unfoldable pub charge_native_function : ℕ → Option (List V) → Charge N Unit
  unfolding charge use_heap_memory
  charge_native_function amount ret_vals = do use_returned ret_vals; charge amount

  abbrev pub use_loaded : Option (ℕ × V) → Charge N Unit
  use_loaded none = pure tt
  use_loaded (some (num_bytes, val)) = do used ← heap_size val; use_heap_memory used

  unfoldable pub charge_load_resource : Option (ℕ × V) → Charge N Unit
  unfolding charge use_heap_memory
  charge_load_resource loaded = do
    self ← get
    let txn = self.gas_params.txn
    cost ←
        (if self.feature_version == 0
          then pure
              (txn.load_data_base ⊕ per_loaded txn.load_data_per_byte txn.load_data_failure loaded)
          else (do
            use_loaded loaded
            storage ← unwrap self.storage_gas_params
            pure (storage.per_item_read ⊗ 1 ⊕ per_loaded storage.per_byte_read 0 loaded)))
    charge cost

  unfoldable pub charge_pop : V → Charge N Unit
  unfolding charge release_heap_memory
  charge_pop popped_val = do
    self ← get
    released ← heap_size popped_val
    release_heap_memory released
    charge self.gas_params.instr.pop

  unfoldable pub charge_call : List V → ℕ → Charge N Unit
  unfolding charge
  charge_call args num_locals = do
    self ← get
    let params = self.gas_params.instr
    let cost = params.call_base ⊕ params.call_per_arg ⊗ length args
    charge (if leb 3 self.feature_version then cost ⊕ params.call_per_local ⊗ num_locals else cost)

  -- The constant `CORE_CODE_ADDRESS` of aptos_types is the first argument.
  unfoldable pub charge_call_generic : ℕ → ModuleId → ℕ → List V → ℕ → Charge N Unit
  unfolding charge
  charge_call_generic core_code_address module_id num_ty_args args num_locals = do
    self ← get
    put (record self {
      is_call_table = module_id.address == core_code_address && str_eq module_id.name "table";
    })
    let params = self.gas_params.instr
    let cost =
        params.call_generic_base
        ⊕ params.call_generic_per_ty_arg ⊗ num_ty_args
        ⊕ params.call_generic_per_arg ⊗ length args
    charge (
        if leb 3 self.feature_version
        then cost ⊕ params.call_generic_per_local ⊗ num_locals
        else cost)

  unfoldable pub charge_ld_const_after_deserialization : V → Charge N Unit
  unfolding use_heap_memory
  charge_ld_const_after_deserialization val = do used ← heap_size val; use_heap_memory used

  -- What `charge_copy_loc` and `charge_read_ref` do with their two parameters.
  abbrev pub charge_copy : ℕ → ℕ → V → Charge N Unit
  charge_copy base per_abs_val_unit val = do
    self ← get
    (stack, heap) ←
        unwrap
          (abstract_value_size_stack_and_heap self.gas_params.misc.abs_val val self.feature_version)
    use_heap_memory heap
    charge (base ⊕ per_abs_val_unit ⊗ (stack ⊕ heap))

  unfoldable pub charge_copy_loc : V → Charge N Unit
  unfolding charge use_heap_memory
  charge_copy_loc val = do
    self ← get
    charge_copy self.gas_params.instr.copy_loc_base self.gas_params.instr.copy_loc_per_abs_val_unit
        val

  unfoldable pub charge_move_loc : V → Charge N Unit
  unfolding charge
  charge_move_loc val = do self ← get; charge self.gas_params.instr.move_loc_base

  unfoldable pub charge_store_loc : V → Charge N Unit
  unfolding charge
  charge_store_loc val = do self ← get; charge self.gas_params.instr.st_loc_base

  unfoldable pub charge_pack : Bool → List V → Charge N Unit
  unfolding charge use_heap_memory
  charge_pack is_generic args = do
    self ← get
    used ← sum_stack args
    use_heap_memory used
    let params = self.gas_params.instr
    charge (
        if is_generic
        then params.pack_generic_base ⊕ params.pack_generic_per_field ⊗ length args
        else params.pack_base ⊕ params.pack_per_field ⊗ length args)

  unfoldable pub charge_unpack : Bool → List V → Charge N Unit
  unfolding charge release_heap_memory
  charge_unpack is_generic args = do
    self ← get
    released ← sum_stack args
    release_heap_memory released
    let params = self.gas_params.instr
    charge (
        if is_generic
        then params.unpack_generic_base ⊕ params.unpack_generic_per_field ⊗ length args
        else params.unpack_base ⊕ params.unpack_per_field ⊗ length args)

  unfoldable pub charge_read_ref : V → Charge N Unit
  unfolding charge use_heap_memory
  charge_read_ref val = do
    self ← get
    charge_copy self.gas_params.instr.read_ref_base self.gas_params.instr.read_ref_per_abs_val_unit
        val

  unfoldable pub charge_write_ref : V → V → Charge N Unit
  unfolding charge release_heap_memory
  charge_write_ref new_val old_val = do
    self ← get
    released ← heap_size old_val
    release_heap_memory released
    charge self.gas_params.instr.write_ref_base

  -- What `charge_eq` and `charge_neq` do with their two parameters.
  abbrev pub charge_compare : ℕ → ℕ → V → V → Charge N Unit
  charge_compare base per_unit lhs rhs = do
    released ← heap_size lhs
    release_heap_memory released
    released' ← heap_size rhs
    release_heap_memory released'
    left ← dereferenced_size lhs
    right ← dereferenced_size rhs
    charge (base ⊕ per_unit ⊗ (left ⊕ right))

  unfoldable pub charge_eq : V → V → Charge N Unit
  unfolding charge release_heap_memory
  charge_eq lhs rhs = do
    self ← get
    charge_compare self.gas_params.instr.eq_base self.gas_params.instr.eq_per_abs_val_unit lhs rhs

  unfoldable pub charge_neq : V → V → Charge N Unit
  unfolding charge release_heap_memory
  charge_neq lhs rhs = do
    self ← get
    charge_compare self.gas_params.instr.neq_base self.gas_params.instr.neq_per_abs_val_unit lhs rhs

  unfoldable pub charge_vec_pack : List V → Charge N Unit
  unfolding charge use_heap_memory
  charge_vec_pack args = do
    self ← get
    used ← sum_packed args
    use_heap_memory used
    let params = self.gas_params.instr
    charge (params.vec_pack_base ⊕ params.vec_pack_per_elem ⊗ length args)

  unfoldable pub charge_vec_unpack : ℕ → List V → Charge N Unit
  unfolding charge release_heap_memory
  charge_vec_unpack expect_num_elements elems = do
    self ← get
    released ← sum_packed elems
    release_heap_memory released
    let params = self.gas_params.instr
    charge (params.vec_unpack_base ⊕ params.vec_unpack_per_expected_elem ⊗ expect_num_elements)

  unfoldable pub charge_vec_push_back : V → Charge N Unit
  unfolding charge use_heap_memory
  charge_vec_push_back val = do
    self ← get
    used ← packed_size val
    use_heap_memory used
    charge self.gas_params.instr.vec_push_back_base

  abbrev pub release_popped : Option V → Charge N Unit
  release_popped none = pure tt
  release_popped (some val) = do released ← packed_size val; release_heap_memory released

  unfoldable pub charge_vec_pop_back : Option V → Charge N Unit
  unfolding charge release_heap_memory
  charge_vec_pop_back val = do
    self ← get
    release_popped val
    charge self.gas_params.instr.vec_pop_back_base

  unfoldable pub charge_drop_frame : List V → Charge N Unit
  unfolding release_heap_memory
  charge_drop_frame locals = do released ← sum_heap locals; release_heap_memory released
