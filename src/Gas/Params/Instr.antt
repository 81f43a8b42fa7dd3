-- ===== src/Gas/Params/Instr.antt =====
-- The parameters of aptos-gas/src/instr.rs: costs of the bytecode instructions.
pub mod Table
use move_tutorial.Prelude.{ℕ, PartialVmResult, ok}

pub record InstructionGasParameters : Type 0 where
  pub nop : ℕ
  pub ret : ℕ
  pub abort : ℕ
  pub br_true : ℕ
  pub br_false : ℕ
  pub branch : ℕ
  pub pop : ℕ
  pub ld_u8 : ℕ
  pub ld_u64 : ℕ
  pub ld_u128 : ℕ
  pub ld_true : ℕ
  pub ld_false : ℕ
  pub ld_const_base : ℕ
  pub ld_const_per_byte : ℕ
  pub imm_borrow_loc : ℕ
  pub mut_borrow_loc : ℕ
  pub imm_borrow_field : ℕ
  pub mut_borrow_field : ℕ
  pub imm_borrow_field_generic : ℕ
  pub mut_borrow_field_generic : ℕ
  pub copy_loc_base : ℕ
  pub copy_loc_per_abs_val_unit : ℕ
  pub move_loc_base : ℕ
  pub st_loc_base : ℕ
  pub call_base : ℕ
  pub call_per_arg : ℕ
  pub call_per_local : ℕ
  pub call_generic_base : ℕ
  pub call_generic_per_ty_arg : ℕ
  pub call_generic_per_arg : ℕ
  pub call_generic_per_local : ℕ
  pub pack_base : ℕ
  pub pack_per_field : ℕ
  pub pack_generic_base : ℕ
  pub pack_generic_per_field : ℕ
  pub unpack_base : ℕ
  pub unpack_per_field : ℕ
  pub unpack_generic_base : ℕ
  pub unpack_generic_per_field : ℕ
  pub read_ref_base : ℕ
  pub read_ref_per_abs_val_unit : ℕ
  pub write_ref_base : ℕ
  pub freeze_ref : ℕ
  pub cast_u8 : ℕ
  pub cast_u64 : ℕ
  pub cast_u128 : ℕ
  pub add : ℕ
  pub sub : ℕ
  pub mul : ℕ
  pub mod_ : ℕ
  pub div : ℕ
  pub bit_or : ℕ
  pub bit_and : ℕ
  pub xor : ℕ
  pub shl : ℕ
  pub shr : ℕ
  pub or : ℕ
  pub and : ℕ
  pub not : ℕ
  pub lt : ℕ
  pub gt : ℕ
  pub le : ℕ
  pub ge : ℕ
  pub eq_base : ℕ
  pub eq_per_abs_val_unit : ℕ
  pub neq_base : ℕ
  pub neq_per_abs_val_unit : ℕ
  pub imm_borrow_global_base : ℕ
  pub imm_borrow_global_generic_base : ℕ
  pub mut_borrow_global_base : ℕ
  pub mut_borrow_global_generic_base : ℕ
  pub exists_base : ℕ
  pub exists_generic_base : ℕ
  pub move_from_base : ℕ
  pub move_from_generic_base : ℕ
  pub move_to_base : ℕ
  pub move_to_generic_base : ℕ
  pub vec_len_base : ℕ
  pub vec_imm_borrow_base : ℕ
  pub vec_mut_borrow_base : ℕ
  pub vec_push_back_base : ℕ
  pub vec_pop_back_base : ℕ
  pub vec_swap_base : ℕ
  pub vec_pack_base : ℕ
  pub vec_pack_per_elem : ℕ
  pub vec_unpack_base : ℕ
  pub vec_unpack_per_expected_elem : ℕ

-- `SimpleInstruction` of move_vm_types: the instructions of the match below.
pub data SimpleInstruction : Type 0 where
  instr_nop instr_abort instr_ret instr_br_true instr_br_false instr_branch : SimpleInstruction
  instr_ld_u8 instr_ld_u64 instr_ld_u128 instr_ld_true instr_ld_false : SimpleInstruction
  instr_imm_borrow_loc instr_mut_borrow_loc instr_imm_borrow_field : SimpleInstruction
  instr_mut_borrow_field instr_imm_borrow_field_generic : SimpleInstruction
  instr_mut_borrow_field_generic instr_freeze_ref instr_cast_u8 : SimpleInstruction
  instr_cast_u64 instr_cast_u128 instr_add instr_sub instr_mul instr_mod : SimpleInstruction
  instr_div instr_bit_or instr_bit_and instr_xor instr_shl instr_shr : SimpleInstruction
  instr_or instr_and instr_not instr_lt instr_gt instr_le instr_ge : SimpleInstruction

abbrev pub cost_of : InstructionGasParameters → SimpleInstruction → ℕ
cost_of self instr_nop = self.nop
cost_of self instr_abort = self.abort
cost_of self instr_ret = self.ret
cost_of self instr_br_true = self.br_true
cost_of self instr_br_false = self.br_false
cost_of self instr_branch = self.branch
cost_of self instr_ld_u8 = self.ld_u8
cost_of self instr_ld_u64 = self.ld_u64
cost_of self instr_ld_u128 = self.ld_u128
cost_of self instr_ld_true = self.ld_true
cost_of self instr_ld_false = self.ld_false
cost_of self instr_imm_borrow_loc = self.imm_borrow_loc
cost_of self instr_mut_borrow_loc = self.mut_borrow_loc
cost_of self instr_imm_borrow_field = self.imm_borrow_field
cost_of self instr_mut_borrow_field = self.mut_borrow_field
cost_of self instr_imm_borrow_field_generic = self.imm_borrow_field_generic
cost_of self instr_mut_borrow_field_generic = self.mut_borrow_field_generic
cost_of self instr_freeze_ref = self.freeze_ref
cost_of self instr_cast_u8 = self.cast_u8
cost_of self instr_cast_u64 = self.cast_u64
cost_of self instr_cast_u128 = self.cast_u128
cost_of self instr_add = self.add
cost_of self instr_sub = self.sub
cost_of self instr_mul = self.mul
cost_of self instr_mod = self.mod_
cost_of self instr_div = self.div
cost_of self instr_bit_or = self.bit_or
cost_of self instr_bit_and = self.bit_and
cost_of self instr_xor = self.xor
cost_of self instr_shl = self.shl
cost_of self instr_shr = self.shr
cost_of self instr_or = self.or
cost_of self instr_and = self.and
cost_of self instr_not = self.not
cost_of self instr_lt = self.lt
cost_of self instr_gt = self.gt
cost_of self instr_le = self.le
cost_of self instr_ge = self.ge

-- `simple_instr_cost`.
abbrev pub simple_instr_cost : InstructionGasParameters → SimpleInstruction → PartialVmResult ℕ
simple_instr_cost self instr = ok (cost_of self instr)
