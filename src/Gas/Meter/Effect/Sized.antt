-- ===== src/Gas/Meter/Effect/Sized.antt =====
-- Charges of an amount of memory that is first computed from values.
use move_tutorial.Prelude.{sum_by, ℕ, ◌+◌, ◌≡◌, refl, ap, ◌∙◌, Option, some, List, ok, arith}
use move_tutorial.Gas.Algebra.{GasAlgebra, IsSaturating, clamp}
use move_tutorial.Gas.Views.{ValueView, IsShaped, Shape}
use move_tutorial.Gas.Sizes.{fold_sizes}
use move_tutorial.Gas.Sizes.Visits.{
  fold_sizes-sum, heap_size-heap, stack_size-stack, packed_size-packed,
}
use move_tutorial.Gas.Sizes.Deref.{HasNoRefs, deref, dereferenced-total}
use move_tutorial.Gas.Meter.{
  AptosGasMeter, Charge, charge, use_heap_memory, release_heap_memory, unwrap, ◌>>=◌, ◌>>◌,
}
use move_tutorial.Gas.Meter.Charges.{
  heap_size, packed_size, dereferenced_size, sum_heap, sum_stack, sum_packed,
}
use move_tutorial.Gas.Meter.Effect.{settle, IsValid, heap_of, stack_of, packed_of, behind}
use move_tutorial.Gas.Meter.Effect.Steps.{
  >>=-ok, charge-settle, use-settle, use_only-settle, release-settle, release_only-settle,
  settle_cut,
}

module _ {N V : Type 0} ⦃G : GasAlgebra⦄ ⦃W : ValueView V⦄ {shape : V → Shape}
    (law : IsSaturating G) (shown : IsShaped W shape) (m : AptosGasMeter N) where
  pub heap_size-ok : (v : V) → heap_size v m ≡ (ok (heap_of shape m v), m)
  heap_size-ok v = rw (heap_size-heap law shown m.gas_params.misc.abs_val m.feature_version v) refl

  pub packed_size-ok : (v : V) → packed_size v m ≡ (ok (packed_of shape m v), m)
  packed_size-ok v = rw (packed_size-packed law shown m.gas_params.misc.abs_val v) refl

  pub dereferenced_size-ok :
      (v : V) → HasNoRefs (deref (shape v)) → dereferenced_size v m ≡ (ok (behind shape m v), m)
  dereferenced_size-ok v h =
      rw (dereferenced-total law shown m.gas_params.misc.abs_val m.feature_version v h) refl

  sum-ok :
      (f : V → Option ℕ) (g : V → ℕ) (vs : List V)
      → ((v : V) → f v ≡ some (g v))
      → unwrap (fold_sizes f 0 vs) m ≡ (ok (clamp (sum_by g vs)), m)
  sum-ok f g vs e =
      rw (fold_sizes-sum law f g vs 0 (omega arith) e)
        (ap (λ n. (ok n, m)) {x = clamp (0 + sum_by g vs)} (omega arith))

  pub sum_heap-ok : (vs : List V) → sum_heap vs m ≡ (ok (clamp (sum_by (heap_of shape m) vs)), m)
  sum_heap-ok vs =
      sum-ok _ (heap_of shape m) vs
        (heap_size-heap law shown m.gas_params.misc.abs_val m.feature_version)

  pub sum_stack-ok : (vs : List V) → sum_stack vs m ≡ (ok (clamp (sum_by (stack_of shape m) vs)), m)
  sum_stack-ok vs =
      sum-ok _ (stack_of shape m) vs
        (stack_size-stack law shown m.gas_params.misc.abs_val m.feature_version)

  pub sum_packed-ok :
      (vs : List V) → sum_packed vs m ≡ (ok (clamp (sum_by (packed_of shape m) vs)), m)
  sum_packed-ok vs =
      sum-ok _ (packed_of shape m) vs (packed_size-packed law shown m.gas_params.misc.abs_val)

-- A size that is computed, and what follows with it.
module _ {N : Type 0} ⦃G : GasAlgebra⦄ (law : IsSaturating G) (m : AptosGasMeter N)
    (valid : IsValid m) where
  pub pay_only :
      (c d : ℕ) → c ≡ d → charge c m ≡ settle (record { released = 0; used = 0; gas = d }) m
  pay_only c d e = rw e (charge-settle law d m valid.quota_u64)

  pub released_then :
      (size : Charge N ℕ) (n c d : ℕ)
      → size m ≡ (ok n, m)
      → c ≡ d
      → (do r ← size; release_heap_memory r; charge c) m
        ≡ settle (record { released = n; used = 0; gas = d }) m
  released_then size n c d e f = >>=-ok size _ m m n e ∙ rw f (release-settle law n d m)

  -- The same with a size that was cut.
  pub cut_then :
      (size : Charge N ℕ) (n c d : ℕ)
      → size m ≡ (ok (clamp n), m)
      → c ≡ d
      → (do r ← size; release_heap_memory r; charge c) m
        ≡ settle (record { released = n; used = 0; gas = d }) m
  cut_then size n c d e f = released_then size (clamp n) c d e f ∙ settle_cut law n d m

  pub cut_only :
      (size : Charge N ℕ) (n : ℕ)
      → size m ≡ (ok (clamp n), m)
      → (do r ← size; release_heap_memory r) m
        ≡ settle (record { released = n; used = 0; gas = 0 }) m
  cut_only size n e =
      >>=-ok size _ m m (clamp n) e ∙ release_only-settle law (clamp n) m ∙ settle_cut law n 0 m

  pub used_then :
      (size : Charge N ℕ) (n c d : ℕ)
      → size m ≡ (ok n, m)
      → c ≡ d
      → (do u ← size; use_heap_memory u; charge c) m
        ≡ settle (record { released = 0; used = n; gas = d }) m
  used_then size n c d e f = >>=-ok size _ m m n e ∙ rw f (use-settle law n d m valid.quota_u64)

  pub used_only :
      (size : Charge N ℕ) (n : ℕ)
      → size m ≡ (ok n, m)
      → (do u ← size; use_heap_memory u) m ≡ settle (record { released = 0; used = n; gas = 0 }) m
  used_only size n e = >>=-ok size _ m m n e ∙ use_only-settle law n m valid.quota_u64
