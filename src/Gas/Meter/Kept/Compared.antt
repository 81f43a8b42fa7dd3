-- ===== src/Gas/Meter/Kept/Compared.antt =====
-- A charge for a comparison, which may panic: what the meter of aptos-gas/src/gas_meter.rs is then.
use move_tutorial.Prelude.{ℕ, ◌≤◌, ◌∙◌, refl, sym, arith, Option, none, some}
use mathlib.Core.Path.{subst}
use move_tutorial.Gas.Algebra.{GasAlgebra, IsSaturating, u64_max, ◌⊕◌, ◌⊗◌}
use move_tutorial.Gas.Views.{Shape, ValueView, IsShaped}
use move_tutorial.Gas.Meter.{
  AptosGasMeter, Charge, resume, unwrap, charge, release_heap_memory, ◌>>=◌,
}
use move_tutorial.Gas.Sizes.{abstract_value_size_dereferenced}
use move_tutorial.Gas.Meter.Charges.{heap_size, dereferenced_size}
use move_tutorial.Gas.Meter.Values
use move_tutorial.Gas.Meter.Effect.{heap_of}
use move_tutorial.Gas.Meter.Effect.Steps.{>>=-ok, release-freed, freed, charge-pay}
use move_tutorial.Gas.Meter.Effect.Sized.{heap_size-ok}
use move_tutorial.Gas.Meter.Kept.After.{IsAfter, IsAfter-trans, pay-IsAfter}

module _ {N : Type 0} where
  freed-IsAfter : (r : ℕ) (m : AptosGasMeter N) → m.memory_quota ≤ u64_max → IsAfter m (freed r m)
  freed-IsAfter r m h = record {
    moved_eq = refl;
    balance_le = omega arith;
    quota_u64 = ground arith;
  }

  unwrap-IsAfter :
      (m m' : AptosGasMeter N) (o : Option ℕ) (f : ℕ → Charge N Unit)
      → IsAfter m m'
      → ((a : ℕ) → IsAfter m (f a m').1)
      → IsAfter m (resume f (unwrap o m')).1
  unwrap-IsAfter m m' none f a k = a
  unwrap-IsAfter m m' (some n) f a k = k n

module _ {N V : Type 0} ⦃G : GasAlgebra⦄ ⦃W : ValueView V⦄ where
  sized-IsAfter :
      (m m' : AptosGasMeter N) (v : V) (f : ℕ → Charge N Unit)
      → IsAfter m m'
      → ((a : ℕ) → IsAfter m (f a m').1)
      → IsAfter m ((dereferenced_size v >>= f) m').1
  sized-IsAfter m m' v f a k =
      unwrap-IsAfter m m'
        (abstract_value_size_dereferenced m'.gas_params.misc.abs_val v m'.feature_version) f a k

module _ {N V : Type 0} ⦃G : GasAlgebra⦄ ⦃W : ValueView V⦄ {shape : V → Shape}
    (law : IsSaturating G) (shown : IsShaped W shape) (m : AptosGasMeter N) where
  pub compare-IsAfter :
      (base per_unit : ℕ) (l r : V)
      → m.memory_quota ≤ u64_max
      → IsAfter m (Values.charge_compare base per_unit l r m).1
  compare-IsAfter base per_unit l r h =
      let a = heap_of shape m l in
      let b = heap_of shape m r in
      let m1 = freed a m in
      let m2 = freed b m1 in
      let first = freed-IsAfter a m h in
      let second = IsAfter-trans m m1 m2 first (freed-IsAfter b m1 first.quota_u64) in
      let steps =
        >>=-ok (heap_size l) _ m m a (heap_size-ok law shown m l)
        ∙ >>=-ok (release_heap_memory a) _ m m1 tt (release-freed law a m)
        ∙ >>=-ok (heap_size r) _ m1 m1 b (heap_size-ok law shown m1 r)
        ∙ >>=-ok (release_heap_memory b) _ m1 m2 tt (release-freed law b m1) in
      let pays = λ (x y : ℕ). charge (base ⊕ per_unit ⊗ (x ⊕ y)) in
      subst (λ o. IsAfter m o.1) (sym steps)
        (sized-IsAfter m m2 l (λ x. dereferenced_size r >>= pays x) second
          (λ x. sized-IsAfter m m2 r (pays x) second (λ y.
            subst (λ o. IsAfter m o.1) (sym (charge-pay law (base ⊕ per_unit ⊗ (x ⊕ y)) m2))
              (IsAfter-trans m m2 _ second
                (pay-IsAfter (base ⊕ per_unit ⊗ (x ⊕ y)) m2 second.quota_u64)))))
