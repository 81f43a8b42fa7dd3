-- ===== src/Gas/Meter/Refinement.antt =====
-- The methods of the gas meter against the three numbers of their effect.
use move_tutorial.Prelude.{ℕ, ◌≡◌, true, false}
use move_tutorial.Gas.Algebra.{GasAlgebra, IsSaturating}
use move_tutorial.Gas.Algebra.Laws.{poly}
use move_tutorial.Gas.Views.{ValueView, IsShaped, Shape}
use move_tutorial.Gas.Meter.{AptosGasMeter}
use move_tutorial.Gas.Meter.Charges
use move_tutorial.Gas.Meter.Charges.{
  heap_size, packed_size, dereferenced_size, sum_heap, sum_stack, sum_packed,
}
use move_tutorial.Gas.Meter.Values
use move_tutorial.Gas.Meter.Requests.{
  perform, Request, simple_instr, native_before_execution, native_function, load_resource, pop,
  copy_loc, move_loc, store_loc, read_ref, ld_const_after_deserialization, call, call_generic,
  ld_const, pack, unpack, write_ref, eq, neq, borrow_global, exists, move_from, move_to, vec_borrow,
  vec_pack, vec_unpack, vec_len, vec_swap, vec_push_back, vec_pop_back, drop_frame,
}
use move_tutorial.Gas.Meter.Effect.{effect, settle, mark, IsValid}
use move_tutorial.Gas.Meter.Effect.Steps.{charge-settle}
use move_tutorial.Gas.Meter.Effect.Sized.{pay_only}
use move_tutorial.Gas.Meter.Effect.Values.{
  IsComparable, pop-settle, write_ref-settle, before-settle, native-settle, ld_const_after-settle,
  drop_frame-settle, pack-settle, unpack-settle, vec_pack-settle, vec_unpack-settle,
  push_back-settle, pop_back-settle, copy_loc-settle, read_ref-settle, eq-settle, neq-settle,
}
use move_tutorial.Gas.Meter.Effect.Calls.{call-settle, load-settle, call_generic-settle}

module _ {N V : Type 0} ⦃G : GasAlgebra⦄ ⦃W : ValueView V⦄ {shape : V → Shape}
    (law : IsSaturating G) (shown : IsShaped W shape) (core_code_address : ℕ) (m : AptosGasMeter N)
    (valid : IsValid m) where
  -- Each method of the meter does what the three numbers of its effect say: in this order, memory is
  -- released, memory is used, and gas is paid. The meter is valid, and no reference lies inside what
  -- is compared.
  pub perform-settle :
      (r : Request V)
      → IsComparable shape r
      → perform core_code_address r m ≡ settle (effect shape m r) (mark core_code_address r m)
  unfolding perform Charges.charge_simple_instr Charges.charge_ld_const Charges.charge_borrow_global
      Charges.charge_exists Charges.charge_move_from Charges.charge_move_to Charges.charge_vec_len
      Charges.charge_vec_borrow Charges.charge_vec_swap Values.charge_move_loc
      Values.charge_store_loc
  perform-settle (simple_instr i) h = charge-settle law _ m valid.quota_u64
  perform-settle (native_before_execution vs) h = before-settle law shown m valid vs
  perform-settle (native_function amount ret) h = native-settle law shown m valid amount ret
  perform-settle (load_resource l) h = load-settle law shown m valid l
  perform-settle (pop v) h = pop-settle law shown m valid v
  perform-settle (copy_loc v) h = copy_loc-settle law shown m valid v
  perform-settle (move_loc v) h = charge-settle law _ m valid.quota_u64
  perform-settle (store_loc v) h = charge-settle law _ m valid.quota_u64
  perform-settle (read_ref v) h = read_ref-settle law shown m valid v
  perform-settle (ld_const_after_deserialization v) h = ld_const_after-settle law shown m valid v
  perform-settle (call args locals) h = call-settle law shown m valid args locals
  perform-settle (call_generic id num_ty_args args locals) h =
      call_generic-settle law shown m valid core_code_address id num_ty_args args locals
  perform-settle (ld_const n) h =
      pay_only law m valid _ _
        (poly law m.gas_params.instr.ld_const_base m.gas_params.instr.ld_const_per_byte n)
  perform-settle (pack b vs) h = pack-settle law shown m valid b vs
  perform-settle (unpack b vs) h = unpack-settle law shown m valid b vs
  perform-settle (write_ref new old) h = write_ref-settle law shown m valid new old
  perform-settle (eq l r) h = eq-settle law shown m valid l r h
  perform-settle (neq l r) h = neq-settle law shown m valid l r h
  perform-settle (borrow_global true true) h = charge-settle law _ m valid.quota_u64
  perform-settle (borrow_global true false) h = charge-settle law _ m valid.quota_u64
  perform-settle (borrow_global false true) h = charge-settle law _ m valid.quota_u64
  perform-settle (borrow_global false false) h = charge-settle law _ m valid.quota_u64
  perform-settle (exists true) h = charge-settle law _ m valid.quota_u64
  perform-settle (exists false) h = charge-settle law _ m valid.quota_u64
  perform-settle (move_from true) h = charge-settle law _ m valid.quota_u64
  perform-settle (move_from false) h = charge-settle law _ m valid.quota_u64
  perform-settle (move_to true) h = charge-settle law _ m valid.quota_u64
  perform-settle (move_to false) h = charge-settle law _ m valid.quota_u64
  perform-settle (vec_borrow true) h = charge-settle law _ m valid.quota_u64
  perform-settle (vec_borrow false) h = charge-settle law _ m valid.quota_u64
  perform-settle (vec_pack vs) h = vec_pack-settle law shown m valid vs
  perform-settle (vec_unpack n vs) h = vec_unpack-settle law shown m valid n vs
  perform-settle vec_len h = charge-settle law _ m valid.quota_u64
  perform-settle vec_swap h = charge-settle law _ m valid.quota_u64
  perform-settle (vec_push_back v) h = push_back-settle law shown m valid v
  perform-settle (vec_pop_back v) h = pop_back-settle law shown m valid v
  perform-settle (drop_frame vs) h = drop_frame-settle law shown m valid vs
