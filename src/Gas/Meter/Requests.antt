-- ===== src/Gas/Meter/Requests.antt =====
-- The calls that the virtual machine makes to the trait `GasMeter` of aptos-gas/src/gas_meter.rs, as
-- data, and a sequence of them.
use move_tutorial.Prelude.{ℕ, Bool, Option, List, [], ◌∷◌}
use move_tutorial.Gas.Algebra.{GasAlgebra}
use move_tutorial.Gas.Views.{ValueView}
use move_tutorial.Gas.Params.Instr.{SimpleInstruction}
use move_tutorial.Gas.Meter.{Charge, pure, ◌>>◌}
use move_tutorial.Gas.Meter.Charges
use move_tutorial.Gas.Meter.Charges.{ModuleId}
use move_tutorial.Gas.Meter.Values

pub data Request (V : Type 0) : Type 0 where
  simple_instr : SimpleInstruction → Request V
  native_before_execution : List V → Request V
  native_function : ℕ → Option (List V) → Request V
  load_resource : Option (ℕ × V) → Request V
  pop copy_loc move_loc store_loc read_ref ld_const_after_deserialization : V → Request V
  call : List V → ℕ → Request V
  call_generic : ModuleId → ℕ → List V → ℕ → Request V
  ld_const : ℕ → Request V
  pack unpack : Bool → List V → Request V
  write_ref eq neq : V → V → Request V
  borrow_global : Bool → Bool → Request V
  exists move_from move_to vec_borrow : Bool → Request V
  vec_pack : List V → Request V
  vec_unpack : ℕ → List V → Request V
  vec_len vec_swap : Request V
  vec_push_back : V → Request V
  vec_pop_back : Option V → Request V
  drop_frame : List V → Request V

module _ {N V : Type 0} ⦃G : GasAlgebra⦄ ⦃W : ValueView V⦄ (core_code_address : ℕ) where
  -- The method that answers a call.
  unfoldable pub perform : Request V → Charge N Unit
  perform (simple_instr instr) = Charges.charge_simple_instr instr
  perform (native_before_execution args) = Values.charge_native_function_before_execution args
  perform (native_function amount ret_vals) = Values.charge_native_function amount ret_vals
  perform (load_resource loaded) = Values.charge_load_resource loaded
  perform (pop val) = Values.charge_pop val
  perform (copy_loc val) = Values.charge_copy_loc val
  perform (move_loc val) = Values.charge_move_loc val
  perform (store_loc val) = Values.charge_store_loc val
  perform (read_ref val) = Values.charge_read_ref val
  perform (ld_const_after_deserialization val) = Values.charge_ld_const_after_deserialization val
  perform (call args num_locals) = Values.charge_call args num_locals
  perform (call_generic module_id num_ty_args args num_locals) =
      Values.charge_call_generic core_code_address module_id num_ty_args args num_locals
  perform (ld_const size) = Charges.charge_ld_const size
  perform (pack is_generic args) = Values.charge_pack is_generic args
  perform (unpack is_generic args) = Values.charge_unpack is_generic args
  perform (write_ref new_val old_val) = Values.charge_write_ref new_val old_val
  perform (eq lhs rhs) = Values.charge_eq lhs rhs
  perform (neq lhs rhs) = Values.charge_neq lhs rhs
  perform (borrow_global is_mut is_generic) = Charges.charge_borrow_global is_mut is_generic
  perform (exists is_generic) = Charges.charge_exists is_generic
  perform (move_from is_generic) = Charges.charge_move_from is_generic
  perform (move_to is_generic) = Charges.charge_move_to is_generic
  perform (vec_borrow is_mut) = Charges.charge_vec_borrow is_mut
  perform (vec_pack args) = Values.charge_vec_pack args
  perform (vec_unpack num elems) = Values.charge_vec_unpack num elems
  perform vec_len = Charges.charge_vec_len
  perform vec_swap = Charges.charge_vec_swap
  perform (vec_push_back val) = Values.charge_vec_push_back val
  perform (vec_pop_back val) = Values.charge_vec_pop_back val
  perform (drop_frame locals) = Values.charge_drop_frame locals

  -- A sequence of calls, which ends at the first error.
  unfoldable pub perform_all : List (Request V) → Charge N Unit
  unfolding perform
  perform_all [] = pure tt
  perform_all (request ∷ requests) = perform request >> perform_all requests
