-- ===== src/Gas/Meter/Effect.antt =====
-- What a call does to a gas meter, as three numbers: memory released, memory used, and gas.
pub mod Steps
pub mod Sized
pub mod Values
pub mod Calls
use move_tutorial.Prelude.{
  sum_by, ℕ, ◌+◌, ◌-◌, ◌*◌, ◌≤◌, ◌≡◌, Bool, true, false, ◌&&◌, Option, none, some, List, [], ◌∷◌,
  length, leb, ltb, ◌==◌, if◌then◌else◌, Result, ok, err, Failure, out_of_gas,
  memory_limit_exceeded,
}
use text.Mathlib.Text.{◌==◌ as str_eq}
use move_tutorial.Gas.Algebra.{clamp, u64_max}
use move_tutorial.Gas.Views.{Shape}
use move_tutorial.Gas.Params.Instr.{cost_of}
use move_tutorial.Gas.Sizes.Spec.{stack, heap, packed, total}
use move_tutorial.Gas.Sizes.Deref.{deref}
use move_tutorial.Gas.Transaction.{StorageGasParameters}
use move_tutorial.Gas.Meter.{AptosGasMeter, Charge, vm_error}
use move_tutorial.Gas.Meter.Charges.{ModuleId}
use move_tutorial.Gas.Meter.Requests.{
  Request, simple_instr, native_before_execution, native_function, load_resource, pop, copy_loc,
  move_loc, store_loc, read_ref, ld_const_after_deserialization, call, call_generic, ld_const, pack,
  unpack, write_ref, eq, neq, borrow_global, exists, move_from, move_to, vec_borrow, vec_pack,
  vec_unpack, vec_len, vec_swap, vec_push_back, vec_pop_back, drop_frame,
}

pub record Effect : Type 0 where
  pub released : ℕ
  pub used : ℕ
  pub gas : ℕ

abbrev pub from_option {ℓ} : {A : Type ℓ} → (A → ℕ) → Option A → ℕ
from_option f none = 0
from_option f (some x) = f x

-- The storage parameters are there, but for version 0.
abbrev pub IsConfigured : ℕ → Option StorageGasParameters → Type 0
IsConfigured version none = version ≡ 0
IsConfigured version (some p) = 1 ≤ version

abbrev none_released : ℕ → ℕ → Effect
none_released used gas = record { released = 0; used = used; gas = gas }

abbrev none_used : ℕ → ℕ → Effect
none_used released gas = record { released = released; used = 0; gas = gas }

abbrev only_gas : ℕ → Effect
only_gas gas = record { released = 0; used = 0; gas = gas }

module _ {N : Type 0} where
  abbrev pub pay : ℕ → Charge N Unit
  pay gas m =
      if ltb m.balance gas
      then (err (vm_error out_of_gas), record m { balance = 0 })
      else (ok tt, record m { balance = m.balance - gas })

  -- Memory is counted from version 3 on: it is released, then used, and last the gas is paid. What
  -- the meter cannot give leaves it at zero.
  abbrev pub settle : Effect → Charge N Unit
  settle e m =
      if leb 3 m.feature_version
      then (if ltb (clamp (m.memory_quota + e.released)) e.used
          then (err (vm_error memory_limit_exceeded), record m { memory_quota = 0 })
          else pay e.gas (record m { memory_quota = clamp (m.memory_quota + e.released) - e.used }))
      else pay e.gas m

  pub record IsValid (m : AptosGasMeter N) : Type 0 where
    pub configured : IsConfigured m.feature_version m.storage_gas_params
    pub balance_u64 : m.balance ≤ u64_max
    pub quota_u64 : m.memory_quota ≤ u64_max

module _ {N V : Type 0} (shape : V → Shape) where
  abbrev pub heap_of : AptosGasMeter N → V → ℕ
  heap_of m v = heap m.gas_params.misc.abs_val m.feature_version (shape v)

  abbrev pub stack_of : AptosGasMeter N → V → ℕ
  stack_of m v = stack m.gas_params.misc.abs_val m.feature_version (shape v)

  abbrev pub packed_of : AptosGasMeter N → V → ℕ
  packed_of m v = packed m.gas_params.misc.abs_val (shape v)

  abbrev pub behind : AptosGasMeter N → V → ℕ
  behind m v = clamp (total m.gas_params.misc.abs_val m.feature_version (deref (shape v)))

  abbrev copied : AptosGasMeter N → V → ℕ → ℕ → Effect
  copied m v base per =
      none_released (heap_of m v) (clamp (base + per * (stack_of m v + heap_of m v)))

  abbrev compared : AptosGasMeter N → V → V → ℕ → ℕ → Effect
  compared m l r base per =
      none_used (heap_of m l + heap_of m r) (clamp (base + per * (behind m l + behind m r)))

  -- The gas to load a resource: before the storage parameters, and with them.
  abbrev pub load_gas : AptosGasMeter N → Option StorageGasParameters → Option (ℕ × V) → ℕ
  load_gas m none none =
      clamp (m.gas_params.txn.load_data_base + m.gas_params.txn.load_data_failure)
  load_gas m none (some (n, v)) =
      clamp (m.gas_params.txn.load_data_base + m.gas_params.txn.load_data_per_byte * n)
  load_gas m (some s) none = clamp s.per_item_read
  load_gas m (some s) (some (n, v)) = clamp (s.per_item_read + s.per_byte_read * n)

  abbrev pub effect : AptosGasMeter N → Request V → Effect
  effect m (simple_instr i) = only_gas (cost_of m.gas_params.instr i)
  effect m (native_before_execution args) =
      none_used (if m.is_call_table then 0 else sum_by (heap_of m) args) 0
  effect m (native_function amount ret) =
      none_released (from_option (λ vs. clamp (sum_by (heap_of m) vs)) ret) amount
  effect m (load_resource l) =
      none_released (from_option (λ r. heap_of m r.1) l) (load_gas m m.storage_gas_params l)
  effect m (pop v) = none_used (heap_of m v) m.gas_params.instr.pop
  effect m (copy_loc v) =
      copied m v m.gas_params.instr.copy_loc_base m.gas_params.instr.copy_loc_per_abs_val_unit
  effect m (move_loc v) = only_gas m.gas_params.instr.move_loc_base
  effect m (store_loc v) = only_gas m.gas_params.instr.st_loc_base
  effect m (read_ref v) =
      copied m v m.gas_params.instr.read_ref_base m.gas_params.instr.read_ref_per_abs_val_unit
  effect m (ld_const_after_deserialization v) = none_released (heap_of m v) 0
  effect m (call args locals) =
      let i = m.gas_params.instr in
      let per_local = if leb 3 m.feature_version then i.call_per_local else 0 in
      only_gas (clamp (i.call_base + i.call_per_arg * length args + per_local * locals))
  effect m (call_generic id ty_args args locals) =
      let i = m.gas_params.instr in
      let per_local = if leb 3 m.feature_version then i.call_generic_per_local else 0 in
      only_gas (
        clamp (
          i.call_generic_base
          + i.call_generic_per_ty_arg * ty_args
          + i.call_generic_per_arg * length args
          + per_local * locals))
  effect m (ld_const size) =
      only_gas
        (clamp (m.gas_params.instr.ld_const_base + m.gas_params.instr.ld_const_per_byte * size))
  effect m (pack is_generic vs) =
      let i = m.gas_params.instr in
      let base = if is_generic then i.pack_generic_base else i.pack_base in
      let per = if is_generic then i.pack_generic_per_field else i.pack_per_field in
      none_released (clamp (sum_by (stack_of m) vs)) (clamp (base + per * length vs))
  effect m (unpack is_generic vs) =
      let i = m.gas_params.instr in
      let base = if is_generic then i.unpack_generic_base else i.unpack_base in
      let per = if is_generic then i.unpack_generic_per_field else i.unpack_per_field in
      none_used (sum_by (stack_of m) vs) (clamp (base + per * length vs))
  effect m (write_ref new old) = none_used (heap_of m old) m.gas_params.instr.write_ref_base
  effect m (eq l r) =
      compared m l r m.gas_params.instr.eq_base m.gas_params.instr.eq_per_abs_val_unit
  effect m (neq l r) =
      compared m l r m.gas_params.instr.neq_base m.gas_params.instr.neq_per_abs_val_unit
  effect m (borrow_global true true) = only_gas m.gas_params.instr.mut_borrow_global_generic_base
  effect m (borrow_global true false) = only_gas m.gas_params.instr.mut_borrow_global_base
  effect m (borrow_global false true) = only_gas m.gas_params.instr.imm_borrow_global_generic_base
  effect m (borrow_global false false) = only_gas m.gas_params.instr.imm_borrow_global_base
  effect m (exists true) = only_gas m.gas_params.instr.exists_generic_base
  effect m (exists false) = only_gas m.gas_params.instr.exists_base
  effect m (move_from true) = only_gas m.gas_params.instr.move_from_generic_base
  effect m (move_from false) = only_gas m.gas_params.instr.move_from_base
  effect m (move_to true) = only_gas m.gas_params.instr.move_to_generic_base
  effect m (move_to false) = only_gas m.gas_params.instr.move_to_base
  effect m (vec_borrow true) = only_gas m.gas_params.instr.vec_mut_borrow_base
  effect m (vec_borrow false) = only_gas m.gas_params.instr.vec_imm_borrow_base
  effect m (vec_pack vs) =
      let i = m.gas_params.instr in
      none_released (clamp (sum_by (packed_of m) vs))
        (clamp (i.vec_pack_base + i.vec_pack_per_elem * length vs))
  effect m (vec_unpack n vs) =
      let i = m.gas_params.instr in
      none_used (sum_by (packed_of m) vs)
        (clamp (i.vec_unpack_base + i.vec_unpack_per_expected_elem * n))
  effect m vec_len = only_gas m.gas_params.instr.vec_len_base
  effect m vec_swap = only_gas m.gas_params.instr.vec_swap_base
  effect m (vec_push_back v) = none_released (packed_of m v) m.gas_params.instr.vec_push_back_base
  effect m (vec_pop_back v) =
      none_used (from_option (packed_of m) v) m.gas_params.instr.vec_pop_back_base
  effect m (drop_frame vs) = none_used (sum_by (heap_of m) vs) 0

module _ {N V : Type 0} (core_code_address : ℕ) where
  -- A generic call says whether it is a call of the table module; other calls leave what was said.
  abbrev pub mark : Request V → AptosGasMeter N → AptosGasMeter N
  mark (call_generic id ty_args args locals) m = record m {
    is_call_table = id.address == core_code_address && str_eq id.name "table";
  }
  mark r m = m
