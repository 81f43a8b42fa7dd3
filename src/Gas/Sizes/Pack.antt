-- ===== src/Gas/Sizes/Pack.antt =====
-- The sizes of aptos-gas/src/misc.rs when values are packed into a structure or a vector.
use move_tutorial.Prelude.{ℕ, ◌+◌, ◌≤◌, ◌≡◌, refl, some, List, [], ◌∷◌, sum_by, arith}
use move_tutorial.Gas.Algebra.{GasAlgebra, IsSaturating, clamp, u64_max}
use move_tutorial.Gas.Views.{ValueView, IsShaped, Shape, Shapes, struct_, nil, cons}
use move_tutorial.Gas.Params.Misc.{AbstractValueSizeGasParameters}
use move_tutorial.Gas.Sizes.{abstract_heap_size, abstract_stack_size, fold_sizes}
use move_tutorial.Gas.Sizes.Spec.{total, total_all, stack, heap, stack-le-total}
use move_tutorial.Gas.Sizes.Visits.{heap_size-heap, stack_size-stack, fold_sizes-sum}

module _ {V : Type 0} (shape : V → Shape) where
  -- The parts of a value that is made of others.
  abbrev pub shapes : List V → Shapes
  shapes [] = nil
  shapes (v ∷ vs) = cons (shape v) (shapes vs)

module _ {V : Type 0} (shape : V → Shape) (p : AbstractValueSizeGasParameters) (version : ℕ) where
  parts :
      (vs : List V)
      → total_all p version (shapes shape vs) ≤ u64_max
      → sum_by (λ v. stack p version (shape v)) vs + sum_by (λ v. heap p version (shape v)) vs
        ≡ total_all p version (shapes shape vs)
  parts [] h = refl
  parts (v ∷ vs) h = omega (arith, parts vs (omega arith), stack-le-total p version (shape v))

module _ {V : Type 0} ⦃G : GasAlgebra⦄ ⦃W : ValueView V⦄ {shape : V → Shape} (law : IsSaturating G)
    (shown : IsShaped W shape) (p : AbstractValueSizeGasParameters) (version : ℕ) where
  -- When values become the fields of a structure, what they had on the stack moves to the heap: the
  -- heap of the structure is the heap of the fields and the sum that `charge_pack` takes and
  -- `charge_unpack` gives back. The size of the structure is a number of 64 bits.
  pub heap_size-pack :
      (val : V) (fields : List V)
      → shape val ≡ struct_ (shapes shape fields)
      → total p version (shape val) ≤ u64_max
      → (whole : ℕ) × (on_stack : ℕ) × (on_heap : ℕ) × (abstract_heap_size p val version
          ≡ some whole)
        × (fold_sizes (λ v. abstract_stack_size p v version) 0 fields ≡ some on_stack)
        × (fold_sizes (λ v. abstract_heap_size p v version) 0 fields ≡ some on_heap)
        × (whole ≡ on_stack + on_heap)
  heap_size-pack val fields e h =
      let h' : p.struct_ + total_all p version (shapes shape fields) ≤ u64_max = rw e at h in
      let sum = parts shape p version fields (omega arith) in
      let whole : heap p version (shape val) ≡ total_all p version (shapes shape fields) =
        rw e (omega arith) in
      (
        heap p version (shape val),
        clamp (0 + sum_by (λ v. stack p version (shape v)) fields),
        clamp (0 + sum_by (λ v. heap p version (shape v)) fields),
        heap_size-heap law shown p version val,
        fold_sizes-sum law _ (λ v. stack p version (shape v)) fields 0 (omega arith)
            (stack_size-stack law shown p version),
        fold_sizes-sum law _ (λ v. heap p version (shape v)) fields 0 (omega arith)
            (heap_size-heap law shown p version),
        omega arith,
      )
