-- ===== src/Gas/Meter/Charges.antt =====
-- The methods of `GasMeter for AptosGasMeter` in aptos-gas/src/gas_meter.rs that charge an
-- instruction on values, and those that charge a whole transaction.
use Prim.Native.String.{String}
use move_tutorial.Prelude.{ℕ, Bool, List, ◌==◌, if◌then◌else◌, ok, err, raised, PartialVmResult}
use move_tutorial.Gas.Algebra.{GasAlgebra, ◌⊕◌, ◌⊗◌}
use move_tutorial.Gas.Views.{ValueView}
use move_tutorial.Gas.Params.Instr.{SimpleInstruction, simple_instr_cost}
use move_tutorial.Gas.Sizes.{
  abstract_stack_size, abstract_packed_size, abstract_heap_size, abstract_value_size_dereferenced,
  fold_sizes,
}
use move_tutorial.Gas.Transaction
use move_tutorial.Gas.Transaction.{
  StateKey, WriteOp, calculate_storage_gas, calculate_intrinsic_gas,
}
use move_tutorial.Gas.Meter.{Charge, pure, fail, unwrap, get, charge, ◌>>=◌}

-- `ModuleId` of move_core_types: the address and the name.
pub record ModuleId : Type 0 where
  pub address : ℕ
  pub name : String

-- The `?` on a result of the virtual machine.
abbrev pub try_ok : {N A : Type 0} → PartialVmResult A → Charge N A
try_ok (ok a) = pure a
try_ok (err e) = fail (raised e)

module _ {N : Type 0} ⦃G : GasAlgebra⦄ where
  unfoldable pub charge_simple_instr : SimpleInstruction → Charge N Unit
  unfolding charge
  charge_simple_instr instr = do
    self ← get
    cost ← try_ok (simple_instr_cost self.gas_params.instr instr)
    charge cost

  unfoldable pub charge_ld_const : ℕ → Charge N Unit
  unfolding charge
  charge_ld_const size = do
    self ← get
    let instr = self.gas_params.instr
    charge (instr.ld_const_base ⊕ instr.ld_const_per_byte ⊗ size)

  unfoldable pub charge_borrow_global : Bool → Bool → Charge N Unit
  unfolding charge
  charge_borrow_global is_mut is_generic = do
    self ← get
    let params = self.gas_params.instr
    charge (
        if is_mut
        then if is_generic
          then params.mut_borrow_global_generic_base
          else params.mut_borrow_global_base
        else if is_generic
        then params.imm_borrow_global_generic_base
        else params.imm_borrow_global_base)

  unfoldable pub charge_exists : Bool → Charge N Unit
  unfolding charge
  charge_exists is_generic = do
    self ← get
    let params = self.gas_params.instr
    charge (if is_generic then params.exists_generic_base else params.exists_base)

  unfoldable pub charge_move_from : Bool → Charge N Unit
  unfolding charge
  charge_move_from is_generic = do
    self ← get
    let params = self.gas_params.instr
    charge (if is_generic then params.move_from_generic_base else params.move_from_base)

  unfoldable pub charge_move_to : Bool → Charge N Unit
  unfolding charge
  charge_move_to is_generic = do
    self ← get
    let params = self.gas_params.instr
    charge (if is_generic then params.move_to_generic_base else params.move_to_base)

  unfoldable pub charge_vec_len : Charge N Unit
  unfolding charge
  charge_vec_len = do self ← get; charge self.gas_params.instr.vec_len_base

  unfoldable pub charge_vec_borrow : Bool → Charge N Unit
  unfolding charge
  charge_vec_borrow is_mut = do
    self ← get
    let params = self.gas_params.instr
    charge (if is_mut then params.vec_mut_borrow_base else params.vec_imm_borrow_base)

  unfoldable pub charge_vec_swap : Charge N Unit
  unfolding charge
  charge_vec_swap = do self ← get; charge self.gas_params.instr.vec_swap_base

  unfoldable pub charge_intrinsic_gas_for_transaction : ℕ → Charge N Unit
  unfolding charge
  charge_intrinsic_gas_for_transaction txn_size = do
    self ← get
    cost ← unwrap (calculate_intrinsic_gas self.gas_params.txn txn_size)
    charge cost

module _ {N K : Type 0} ⦃G : GasAlgebra⦄ ⦃E : StateKey K⦄ where
  unfoldable pub charge_write_set_gas : List (K × WriteOp) → Charge N Unit
  unfolding charge
  charge_write_set_gas ops = do
    self ← get
    cost ←
        (if self.feature_version == 0
          then unwrap (Transaction.calculate_write_set_gas self.gas_params.txn ops)
          else (do
            storage ← unwrap self.storage_gas_params
            unwrap (calculate_storage_gas storage ops self.feature_version)))
    charge cost

module _ {N V : Type 0} ⦃G : GasAlgebra⦄ ⦃W : ValueView V⦄ where
  abbrev pub heap_size : V → Charge N ℕ
  heap_size val self =
      unwrap (abstract_heap_size self.gas_params.misc.abs_val val self.feature_version) self

  abbrev pub packed_size : V → Charge N ℕ
  packed_size val self = unwrap (abstract_packed_size self.gas_params.misc.abs_val val) self

  abbrev pub dereferenced_size : V → Charge N ℕ
  dereferenced_size val self =
      unwrap
        (abstract_value_size_dereferenced self.gas_params.misc.abs_val val self.feature_version)
        self

  abbrev pub sum_heap : List V → Charge N ℕ
  sum_heap vals self =
      let abs_val = self.gas_params.misc.abs_val in
      unwrap (fold_sizes (λ val. abstract_heap_size abs_val val self.feature_version) 0 vals) self

  abbrev pub sum_stack : List V → Charge N ℕ
  sum_stack vals self =
      let abs_val = self.gas_params.misc.abs_val in
      unwrap (fold_sizes (λ val. abstract_stack_size abs_val val self.feature_version) 0 vals) self

  abbrev pub sum_packed : List V → Charge N ℕ
  sum_packed vals self =
      unwrap (fold_sizes (λ val. abstract_packed_size self.gas_params.misc.abs_val val) 0 vals) self
