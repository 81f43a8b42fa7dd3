-- ===== src/Gas/Params/Instr/Table.antt =====
-- The rows of `define_gas_parameters` in aptos-gas/src/instr.rs.
use move_tutorial.Prelude.{ℕ, ◌*◌, Bool, true, false, List, [], ◌∷◌}
use move_tutorial.Gas.Schedule.{Field, ParamsTable}
use Prim.Native.String.{String}
use move_tutorial.Gas.Params.Instr.{InstructionGasParameters}

-- `EXECUTION_GAS_MULTIPLIER` of gas_meter.rs.
abbrev mul : ℕ
mul = 20

abbrev pub zeros : InstructionGasParameters
zeros = record {
  nop = 0;
  ret = 0;
  abort = 0;
  br_true = 0;
  br_false = 0;
  branch = 0;
  pop = 0;
  ld_u8 = 0;
  ld_u64 = 0;
  ld_u128 = 0;
  ld_true = 0;
  ld_false = 0;
  ld_const_base = 0;
  ld_const_per_byte = 0;
  imm_borrow_loc = 0;
  mut_borrow_loc = 0;
  imm_borrow_field = 0;
  mut_borrow_field = 0;
  imm_borrow_field_generic = 0;
  mut_borrow_field_generic = 0;
  copy_loc_base = 0;
  copy_loc_per_abs_val_unit = 0;
  move_loc_base = 0;
  st_loc_base = 0;
  call_base = 0;
  call_per_arg = 0;
  call_per_local = 0;
  call_generic_base = 0;
  call_generic_per_ty_arg = 0;
  call_generic_per_arg = 0;
  call_generic_per_local = 0;
  pack_base = 0;
  pack_per_field = 0;
  pack_generic_base = 0;
  pack_generic_per_field = 0;
  unpack_base = 0;
  unpack_per_field = 0;
  unpack_generic_base = 0;
  unpack_generic_per_field = 0;
  read_ref_base = 0;
  read_ref_per_abs_val_unit = 0;
  write_ref_base = 0;
  freeze_ref = 0;
  cast_u8 = 0;
  cast_u64 = 0;
  cast_u128 = 0;
  add = 0;
  sub = 0;
  mul = 0;
  mod_ = 0;
  div = 0;
  bit_or = 0;
  bit_and = 0;
  xor = 0;
  shl = 0;
  shr = 0;
  or = 0;
  and = 0;
  not = 0;
  lt = 0;
  gt = 0;
  le = 0;
  ge = 0;
  eq_base = 0;
  eq_per_abs_val_unit = 0;
  neq_base = 0;
  neq_per_abs_val_unit = 0;
  imm_borrow_global_base = 0;
  imm_borrow_global_generic_base = 0;
  mut_borrow_global_base = 0;
  mut_borrow_global_generic_base = 0;
  exists_base = 0;
  exists_generic_base = 0;
  move_from_base = 0;
  move_from_generic_base = 0;
  move_to_base = 0;
  move_to_generic_base = 0;
  vec_len_base = 0;
  vec_imm_borrow_base = 0;
  vec_mut_borrow_base = 0;
  vec_push_back_base = 0;
  vec_pop_back_base = 0;
  vec_swap_base = 0;
  vec_pack_base = 0;
  vec_pack_per_elem = 0;
  vec_unpack_base = 0;
  vec_unpack_per_expected_elem = 0;
}

abbrev row :
    String
    → Bool
    → ℕ
    → (InstructionGasParameters → ℕ)
    → (ℕ → InstructionGasParameters → InstructionGasParameters)
    → Field InstructionGasParameters
row key is_optional initial get set = record {
  key = key;
  is_optional = is_optional;
  initial = initial;
  get = get;
  set = set;
}

abbrev pub fields : List (Field InstructionGasParameters)
fields =
    row "nop" false (10 * mul) (λ p. p.nop) (λ v p. record p { nop = v })
    ∷ row "ret" false (60 * mul) (λ p. p.ret) (λ v p. record p { ret = v })
    ∷ row "abort" false (60 * mul) (λ p. p.abort) (λ v p. record p { abort = v })
    ∷ row "br_true" false (120 * mul) (λ p. p.br_true) (λ v p. record p { br_true = v })
    ∷ row "br_false" false (120 * mul) (λ p. p.br_false) (λ v p. record p { br_false = v })
    ∷ row "branch" false (80 * mul) (λ p. p.branch) (λ v p. record p { branch = v })
    ∷ row "pop" false (40 * mul) (λ p. p.pop) (λ v p. record p { pop = v })
    ∷ row "ld_u8" false (60 * mul) (λ p. p.ld_u8) (λ v p. record p { ld_u8 = v })
    ∷ row "ld_u64" false (60 * mul) (λ p. p.ld_u64) (λ v p. record p { ld_u64 = v })
    ∷ row "ld_u128" false (80 * mul) (λ p. p.ld_u128) (λ v p. record p { ld_u128 = v })
    ∷ row "ld_true" false (60 * mul) (λ p. p.ld_true) (λ v p. record p { ld_true = v })
    ∷ row "ld_false" false (60 * mul) (λ p. p.ld_false) (λ v p. record p { ld_false = v })
    ∷ row "ld_const.base" false (650 * mul) (λ p. p.ld_const_base)
        (λ v p. record p { ld_const_base = v })
    ∷ row "ld_const.per_byte" false (35 * mul) (λ p. p.ld_const_per_byte)
        (λ v p. record p { ld_const_per_byte = v })
    ∷ row "imm_borrow_loc" false (60 * mul) (λ p. p.imm_borrow_loc)
        (λ v p. record p { imm_borrow_loc = v })
    ∷ row "mut_borrow_loc" false (60 * mul) (λ p. p.mut_borrow_loc)
        (λ v p. record p { mut_borrow_loc = v })
    ∷ row "imm_borrow_field" false (200 * mul) (λ p. p.imm_borrow_field)
        (λ v p. record p { imm_borrow_field = v })
    ∷ row "mut_borrow_field" false (200 * mul) (λ p. p.mut_borrow_field)
        (λ v p. record p { mut_borrow_field = v })
    ∷ row "imm_borrow_field_generic" false (200 * mul) (λ p. p.imm_borrow_field_generic)
        (λ v p. record p { imm_borrow_field_generic = v })
    ∷ row "mut_borrow_field_generic" false (200 * mul) (λ p. p.mut_borrow_field_generic)
        (λ v p. record p { mut_borrow_field_generic = v })
    ∷ row "copy_loc.base" false (80 * mul) (λ p. p.copy_loc_base)
        (λ v p. record p { copy_loc_base = v })
    ∷ row "copy_loc.per_abs_val_unit" false (4 * mul) (λ p. p.copy_loc_per_abs_val_unit)
        (λ v p. record p { copy_loc_per_abs_val_unit = v })
    ∷ row "move_loc.base" false (120 * mul) (λ p. p.move_loc_base)
        (λ v p. record p { move_loc_base = v })
    ∷ row "st_loc.base" false (120 * mul) (λ p. p.st_loc_base) (λ v p. record p { st_loc_base = v })
    ∷ row "call.base" false (1000 * mul) (λ p. p.call_base) (λ v p. record p { call_base = v })
    ∷ row "call.per_arg" false (100 * mul) (λ p. p.call_per_arg)
        (λ v p. record p { call_per_arg = v })
    ∷ row "call.per_local" true (100 * mul) (λ p. p.call_per_local)
        (λ v p. record p { call_per_local = v })
    ∷ row "call_generic.base" false (1000 * mul) (λ p. p.call_generic_base)
        (λ v p. record p { call_generic_base = v })
    ∷ row "call_generic.per_ty_arg" false (100 * mul) (λ p. p.call_generic_per_ty_arg)
        (λ v p. record p { call_generic_per_ty_arg = v })
    ∷ row "call_generic.per_arg" false (100 * mul) (λ p. p.call_generic_per_arg)
        (λ v p. record p { call_generic_per_arg = v })
    ∷ row "call_generic.per_local" true (100 * mul) (λ p. p.call_generic_per_local)
        (λ v p. record p { call_generic_per_local = v })
    ∷ row "pack.base" false (220 * mul) (λ p. p.pack_base) (λ v p. record p { pack_base = v })
    ∷ row "pack.per_field" false (40 * mul) (λ p. p.pack_per_field)
        (λ v p. record p { pack_per_field = v })
    ∷ row "pack_generic.base" false (220 * mul) (λ p. p.pack_generic_base)
        (λ v p. record p { pack_generic_base = v })
    ∷ row "pack_generic.per_field" false (40 * mul) (λ p. p.pack_generic_per_field)
        (λ v p. record p { pack_generic_per_field = v })
    ∷ row "unpack.base" false (220 * mul) (λ p. p.unpack_base) (λ v p. record p { unpack_base = v })
    ∷ row "unpack.per_field" false (40 * mul) (λ p. p.unpack_per_field)
        (λ v p. record p { unpack_per_field = v })
    ∷ row "unpack_generic.base" false (220 * mul) (λ p. p.unpack_generic_base)
        (λ v p. record p { unpack_generic_base = v })
    ∷ row "unpack_generic.per_field" false (40 * mul) (λ p. p.unpack_generic_per_field)
        (λ v p. record p { unpack_generic_per_field = v })
    ∷ row "read_ref.base" false (200 * mul) (λ p. p.read_ref_base)
        (λ v p. record p { read_ref_base = v })
    ∷ row "read_ref.per_abs_val_unit" false (4 * mul) (λ p. p.read_ref_per_abs_val_unit)
        (λ v p. record p { read_ref_per_abs_val_unit = v })
    ∷ row "write_ref.base" false (200 * mul) (λ p. p.write_ref_base)
        (λ v p. record p { write_ref_base = v })
    ∷ row "freeze_ref" false (10 * mul) (λ p. p.freeze_ref) (λ v p. record p { freeze_ref = v })
    ∷ row "cast_u8" false (120 * mul) (λ p. p.cast_u8) (λ v p. record p { cast_u8 = v })
    ∷ row "cast_u64" false (120 * mul) (λ p. p.cast_u64) (λ v p. record p { cast_u64 = v })
    ∷ row "cast_u128" false (120 * mul) (λ p. p.cast_u128) (λ v p. record p { cast_u128 = v })
    ∷ row "add" false (160 * mul) (λ p. p.add) (λ v p. record p { add = v })
    ∷ row "sub" false (160 * mul) (λ p. p.sub) (λ v p. record p { sub = v })
    ∷ row "mul" false (160 * mul) (λ p. p.mul) (λ v p. record p { mul = v })
    ∷ row "mod" false (160 * mul) (λ p. p.mod_) (λ v p. record p { mod_ = v })
    ∷ row "div" false (160 * mul) (λ p. p.div) (λ v p. record p { div = v })
    ∷ row "bit_or" false (160 * mul) (λ p. p.bit_or) (λ v p. record p { bit_or = v })
    ∷ row "bit_and" false (160 * mul) (λ p. p.bit_and) (λ v p. record p { bit_and = v })
    ∷ row "bit_xor" false (160 * mul) (λ p. p.xor) (λ v p. record p { xor = v })
    ∷ row "bit_shl" false (160 * mul) (λ p. p.shl) (λ v p. record p { shl = v })
    ∷ row "bit_shr" false (160 * mul) (λ p. p.shr) (λ v p. record p { shr = v })
    ∷ row "or" false (160 * mul) (λ p. p.or) (λ v p. record p { or = v })
    ∷ row "and" false (160 * mul) (λ p. p.and) (λ v p. record p { and = v })
    ∷ row "not" false (160 * mul) (λ p. p.not) (λ v p. record p { not = v })
    ∷ row "lt" false (160 * mul) (λ p. p.lt) (λ v p. record p { lt = v })
    ∷ row "gt" false (160 * mul) (λ p. p.gt) (λ v p. record p { gt = v })
    ∷ row "le" false (160 * mul) (λ p. p.le) (λ v p. record p { le = v })
    ∷ row "ge" false (160 * mul) (λ p. p.ge) (λ v p. record p { ge = v })
    ∷ row "eq.base" false (100 * mul) (λ p. p.eq_base) (λ v p. record p { eq_base = v })
    ∷ row "eq.per_abs_val_unit" false (4 * mul) (λ p. p.eq_per_abs_val_unit)
        (λ v p. record p { eq_per_abs_val_unit = v })
    ∷ row "neq.base" false (100 * mul) (λ p. p.neq_base) (λ v p. record p { neq_base = v })
    ∷ row "neq.per_abs_val_unit" false (4 * mul) (λ p. p.neq_per_abs_val_unit)
        (λ v p. record p { neq_per_abs_val_unit = v })
    ∷ row "imm_borrow_global.base" false (500 * mul) (λ p. p.imm_borrow_global_base)
        (λ v p. record p { imm_borrow_global_base = v })
    ∷ row "imm_borrow_global_generic.base" false (500 * mul) (λ p. p.imm_borrow_global_generic_base)
        (λ v p. record p { imm_borrow_global_generic_base = v })
    ∷ row "mut_borrow_global.base" false (500 * mul) (λ p. p.mut_borrow_global_base)
        (λ v p. record p { mut_borrow_global_base = v })
    ∷ row "mut_borrow_global_generic.base" false (500 * mul) (λ p. p.mut_borrow_global_generic_base)
        (λ v p. record p { mut_borrow_global_generic_base = v })
    ∷ row "exists.base" false (250 * mul) (λ p. p.exists_base) (λ v p. record p { exists_base = v })
    ∷ row "exists_generic.base" false (250 * mul) (λ p. p.exists_generic_base)
        (λ v p. record p { exists_generic_base = v })
    ∷ row "move_from.base" false (350 * mul) (λ p. p.move_from_base)
        (λ v p. record p { move_from_base = v })
    ∷ row "move_from_generic.base" false (350 * mul) (λ p. p.move_from_generic_base)
        (λ v p. record p { move_from_generic_base = v })
    ∷ row "move_to.base" false (500 * mul) (λ p. p.move_to_base)
        (λ v p. record p { move_to_base = v })
    ∷ row "move_to_generic.base" false (500 * mul) (λ p. p.move_to_generic_base)
        (λ v p. record p { move_to_generic_base = v })
    ∷ row "vec_len.base" false (220 * mul) (λ p. p.vec_len_base)
        (λ v p. record p { vec_len_base = v })
    ∷ row "vec_imm_borrow.base" false (330 * mul) (λ p. p.vec_imm_borrow_base)
        (λ v p. record p { vec_imm_borrow_base = v })
    ∷ row "vec_mut_borrow.base" false (330 * mul) (λ p. p.vec_mut_borrow_base)
        (λ v p. record p { vec_mut_borrow_base = v })
    ∷ row "vec_push_back.base" false (380 * mul) (λ p. p.vec_push_back_base)
        (λ v p. record p { vec_push_back_base = v })
    ∷ row "vec_pop_back.base" false (260 * mul) (λ p. p.vec_pop_back_base)
        (λ v p. record p { vec_pop_back_base = v })
    ∷ row "vec_swap.base" false (300 * mul) (λ p. p.vec_swap_base)
        (λ v p. record p { vec_swap_base = v })
    ∷ row "vec_pack.base" false (600 * mul) (λ p. p.vec_pack_base)
        (λ v p. record p { vec_pack_base = v })
    ∷ row "vec_pack.per_elem" false (40 * mul) (λ p. p.vec_pack_per_elem)
        (λ v p. record p { vec_pack_per_elem = v })
    ∷ row "vec_unpack.base" false (500 * mul) (λ p. p.vec_unpack_base)
        (λ v p. record p { vec_unpack_base = v })
    ∷ row "vec_unpack.per_expected_elem" false (40 * mul) (λ p. p.vec_unpack_per_expected_elem)
        (λ v p. record p { vec_unpack_per_expected_elem = v })
    ∷ []

abbrev pub table : ParamsTable InstructionGasParameters
table = record { prefix = "instr"; zeros = zeros; fields = fields }
