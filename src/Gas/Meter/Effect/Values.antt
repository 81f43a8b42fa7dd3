-- ===== src/Gas/Meter/Effect/Values.antt =====
-- The methods that look at values, as effects.
use move_tutorial.Gas.Meter.{pure}
use move_tutorial.Prelude.{
  sum_by, ℕ, ◌+◌, ◌*◌, ◌≡◌, refl, ap, ◌∙◌, Bool, true, false, Option, none, some, List, [], ◌∷◌,
  if◌then◌else◌, length, ok,
}
use move_tutorial.Gas.Algebra.{GasAlgebra, IsSaturating, clamp, ◌⊕◌, ◌⊗◌}
use move_tutorial.Gas.Algebra.Laws.{poly, poly_sum}
use move_tutorial.Gas.Views.{ValueView, IsShaped, Shape}
use move_tutorial.Gas.Sizes.{abstract_value_size_stack_and_heap}
use move_tutorial.Gas.Sizes.Visits.{stack_and_heap-eq}
use move_tutorial.Gas.Sizes.Deref.{HasNoRefs, deref}
use move_tutorial.Gas.Meter.{
  resume, AptosGasMeter, Charge, charge, use_heap_memory, release_heap_memory, unwrap, ◌>>=◌, ◌>>◌,
}
use move_tutorial.Gas.Meter.Charges.{
  heap_size, packed_size, dereferenced_size, sum_heap, sum_stack, sum_packed,
}
use move_tutorial.Gas.Meter.Values
use move_tutorial.Gas.Meter.Requests.{
  Request, native_before_execution, native_function, pop, copy_loc, read_ref,
  ld_const_after_deserialization, pack, unpack, write_ref, eq, neq, vec_pack, vec_unpack,
  vec_push_back, vec_pop_back, drop_frame,
}
use move_tutorial.Gas.Meter.Effect.{effect, settle, IsValid, heap_of, stack_of, behind}
use move_tutorial.Gas.Meter.Effect.Steps.{
  >>=-ok, charge-settle, use-settle, release-settle, release-freed, freed, freed_twice,
  nothing-settle,
}
use move_tutorial.Gas.Meter.Effect.Sized.{
  heap_size-ok, packed_size-ok, dereferenced_size-ok, sum_heap-ok, sum_stack-ok, sum_packed-ok,
  released_then, cut_then, cut_only, used_then, used_only,
}

-- What is compared is, or refers to, a value without references.
abbrev pub IsComparable : {V : Type 0} → (V → Shape) → Request V → Type 0
IsComparable shape (eq l r) = HasNoRefs (deref (shape l)) × HasNoRefs (deref (shape r))
IsComparable shape (neq l r) = HasNoRefs (deref (shape l)) × HasNoRefs (deref (shape r))
IsComparable shape _ = Unit

abbrev pub AreComparable : {V : Type 0} → (V → Shape) → List (Request V) → Type 0
AreComparable shape [] = Unit
AreComparable shape (r ∷ rs) = IsComparable shape r × AreComparable shape rs

module _ {N V : Type 0} ⦃G : GasAlgebra⦄ ⦃W : ValueView V⦄ {shape : V → Shape}
    (law : IsSaturating G) (shown : IsShaped W shape) (m : AptosGasMeter N)
    (valid : IsValid m) where
  pub pop-settle : (v : V) → Values.charge_pop v m ≡ settle (effect shape m (pop v)) m
  unfolding Values.charge_pop
  pop-settle v = released_then law m valid (heap_size v) _ _ _ (heap_size-ok law shown m v) refl

  pub write_ref-settle :
      (new old : V)
      → Values.charge_write_ref new old m ≡ settle (effect shape m (write_ref new old)) m
  unfolding Values.charge_write_ref
  write_ref-settle new old =
      released_then law m valid (heap_size old) _ _ _ (heap_size-ok law shown m old) refl

  before_if :
      (b : Bool) (vs : List V)
      → (if b then pure tt else (do r ← sum_heap vs; release_heap_memory r)) m
        ≡ settle
            (record { released = if b then 0 else sum_by (heap_of shape m) vs; used = 0; gas = 0 })
            m
  before_if true vs = nothing-settle law m valid.quota_u64
  before_if false vs = cut_only law m valid (sum_heap vs) _ (sum_heap-ok law shown m vs)

  pub before-settle :
      (vs : List V)
      → Values.charge_native_function_before_execution vs m
        ≡ settle (effect shape m (native_before_execution vs)) m
  unfolding Values.charge_native_function_before_execution
  before-settle vs = before_if m.is_call_table vs

  pub native-settle :
      (amount : ℕ) (ret : Option (List V))
      → Values.charge_native_function amount ret m
        ≡ settle (effect shape m (native_function amount ret)) m
  unfolding Values.charge_native_function
  native-settle amount none = charge-settle law amount m valid.quota_u64
  native-settle amount (some vs) =
      ap (resume (λ _. charge amount))
        (>>=-ok (sum_heap vs) (λ u. use_heap_memory u) m m _ (sum_heap-ok law shown m vs))
      ∙ use-settle law _ amount m valid.quota_u64

  pub ld_const_after-settle :
      (v : V)
      → Values.charge_ld_const_after_deserialization v m
        ≡ settle (effect shape m (ld_const_after_deserialization v)) m
  unfolding Values.charge_ld_const_after_deserialization
  ld_const_after-settle v = used_only law m valid (heap_size v) _ (heap_size-ok law shown m v)

  pub drop_frame-settle :
      (vs : List V) → Values.charge_drop_frame vs m ≡ settle (effect shape m (drop_frame vs)) m
  unfolding Values.charge_drop_frame
  drop_frame-settle vs = cut_only law m valid (sum_heap vs) _ (sum_heap-ok law shown m vs)

  pub pack-settle :
      (b : Bool) (vs : List V) → Values.charge_pack b vs m ≡ settle (effect shape m (pack b vs)) m
  unfolding Values.charge_pack
  pack-settle true vs = used_then law m valid (sum_stack vs) _ _ _ (sum_stack-ok law shown m vs) (
      poly law m.gas_params.instr.pack_generic_base m.gas_params.instr.pack_generic_per_field
        (length vs))
  pack-settle false vs =
      used_then law m valid (sum_stack vs) _ _ _ (sum_stack-ok law shown m vs)
        (poly law m.gas_params.instr.pack_base m.gas_params.instr.pack_per_field (length vs))

  pub unpack-settle :
      (b : Bool) (vs : List V)
      → Values.charge_unpack b vs m ≡ settle (effect shape m (unpack b vs)) m
  unfolding Values.charge_unpack
  unpack-settle true vs = cut_then law m valid (sum_stack vs) _ _ _ (sum_stack-ok law shown m vs) (
      poly law m.gas_params.instr.unpack_generic_base m.gas_params.instr.unpack_generic_per_field
        (length vs))
  unpack-settle false vs =
      cut_then law m valid (sum_stack vs) _ _ _ (sum_stack-ok law shown m vs)
        (poly law m.gas_params.instr.unpack_base m.gas_params.instr.unpack_per_field (length vs))

  pub vec_pack-settle :
      (vs : List V) → Values.charge_vec_pack vs m ≡ settle (effect shape m (vec_pack vs)) m
  unfolding Values.charge_vec_pack
  vec_pack-settle vs =
      used_then law m valid (sum_packed vs) _ _ _ (sum_packed-ok law shown m vs)
        (poly law m.gas_params.instr.vec_pack_base m.gas_params.instr.vec_pack_per_elem (length vs))

  pub vec_unpack-settle :
      (n : ℕ) (vs : List V)
      → Values.charge_vec_unpack n vs m ≡ settle (effect shape m (vec_unpack n vs)) m
  unfolding Values.charge_vec_unpack
  vec_unpack-settle n vs =
      cut_then law m valid (sum_packed vs) _ _ _ (sum_packed-ok law shown m vs) (
        poly law m.gas_params.instr.vec_unpack_base m.gas_params.instr.vec_unpack_per_expected_elem
          n)

  pub push_back-settle :
      (v : V) → Values.charge_vec_push_back v m ≡ settle (effect shape m (vec_push_back v)) m
  unfolding Values.charge_vec_push_back
  push_back-settle v =
      used_then law m valid (packed_size v) _ _ _ (packed_size-ok law shown m v) refl

  pub pop_back-settle :
      (v : Option V) → Values.charge_vec_pop_back v m ≡ settle (effect shape m (vec_pop_back v)) m
  unfolding Values.charge_vec_pop_back
  pop_back-settle none = charge-settle law _ m valid.quota_u64
  pop_back-settle (some v) =
      ap (resume (λ _. charge m.gas_params.instr.vec_pop_back_base))
        (>>=-ok (packed_size v) (λ r. release_heap_memory r) m m _ (packed_size-ok law shown m v))
      ∙ release-settle law _ _ m

  abbrev copy_sized : ℕ → ℕ → ℕ × ℕ → Charge N Unit
  copy_sized base per (stack, heap) = use_heap_memory heap >> charge (base ⊕ per ⊗ (stack ⊕ heap))

  copy-settle :
      (v : V) (base per : ℕ)
      → Values.charge_copy base per v m
        ≡ settle
            (record {
              released = 0;
              used = heap_of shape m v;
              gas = clamp (base + per * (stack_of shape m v + heap_of shape m v));
            })
            m
  copy-settle v base per =
      let abs_val = m.gas_params.misc.abs_val in
      let sizes = abstract_value_size_stack_and_heap abs_val v m.feature_version in
      let a = stack_of shape m v in
      let b = heap_of shape m v in
      let measured : unwrap sizes m ≡ (ok (a, b), m) =
        ap (λ o. unwrap o m) (stack_and_heap-eq law shown abs_val m.feature_version v) in
      >>=-ok (unwrap sizes) (copy_sized base per) m m (a, b) measured
      ∙ use-settle law b (base ⊕ per ⊗ (a ⊕ b)) m valid.quota_u64
      ∙ ap (λ g. settle (record { released = 0; used = b; gas = g }) m) (poly_sum law base per a b)

  pub copy_loc-settle :
      (v : V) → Values.charge_copy_loc v m ≡ settle (effect shape m (copy_loc v)) m
  unfolding Values.charge_copy_loc
  copy_loc-settle v =
      copy-settle v m.gas_params.instr.copy_loc_base m.gas_params.instr.copy_loc_per_abs_val_unit

  pub read_ref-settle :
      (v : V) → Values.charge_read_ref v m ≡ settle (effect shape m (read_ref v)) m
  unfolding Values.charge_read_ref
  read_ref-settle v =
      copy-settle v m.gas_params.instr.read_ref_base m.gas_params.instr.read_ref_per_abs_val_unit

  compare-settle :
      (l r : V) (base per : ℕ)
      → HasNoRefs (deref (shape l))
      → HasNoRefs (deref (shape r))
      → Values.charge_compare base per l r m
        ≡ settle
            (record {
              released = heap_of shape m l + heap_of shape m r;
              used = 0;
              gas = clamp (base + per * (behind shape m l + behind shape m r));
            })
            m
  compare-settle l r base per hl hr =
      let a = heap_of shape m l in
      let b = heap_of shape m r in
      let m1 = freed a m in
      let m2 = freed b m1 in
      >>=-ok (heap_size l) _ m m a (heap_size-ok law shown m l)
      ∙ >>=-ok (release_heap_memory a) _ m m1 tt (release-freed law a m)
      ∙ >>=-ok (heap_size r) _ m1 m1 b (heap_size-ok law shown m1 r)
      ∙ >>=-ok (release_heap_memory b) _ m1 m2 tt (release-freed law b m1)
      ∙ >>=-ok (dereferenced_size l) _ m2 m2 _ (dereferenced_size-ok law shown m2 l hl)
      ∙ >>=-ok (dereferenced_size r) _ m2 m2 _ (dereferenced_size-ok law shown m2 r hr)
      ∙ freed_twice law a b _ m
      ∙ ap (λ g. settle (record { released = a + b; used = 0; gas = g }) m)
          (poly_sum law base per (behind shape m l) (behind shape m r))

  pub eq-settle :
      (l r : V)
      → IsComparable shape (eq l r)
      → Values.charge_eq l r m ≡ settle (effect shape m (eq l r)) m
  unfolding Values.charge_eq
  eq-settle l r (hl, hr) =
      compare-settle l r m.gas_params.instr.eq_base m.gas_params.instr.eq_per_abs_val_unit hl hr

  pub neq-settle :
      (l r : V)
      → IsComparable shape (neq l r)
      → Values.charge_neq l r m ≡ settle (effect shape m (neq l r)) m
  unfolding Values.charge_neq
  neq-settle l r (hl, hr) =
      compare-settle l r m.gas_params.instr.neq_base m.gas_params.instr.neq_per_abs_val_unit hl hr
