-- ===== src/Gas/Sizes/Visits.antt =====
-- What the visitors of aptos-gas/src/misc.rs compute, for values that are visited as their shape says.
use move_tutorial.Prelude.{
  sum_by, [], ◌∷◌, List, inl, inr, Bool-cases, suc, ℕ, ◌+◌, ◌-◌, ◌*◌, ◌≤◌, ◌≡◌, refl, ap, ◌∙◌,
  length, Option, none, some, leb, arith,
}
use move_tutorial.Gas.Algebra.{GasAlgebra, IsSaturating, clamp, u64_max, ◌⊕◌, or_zero}
use move_tutorial.Gas.Views.{
  ValueView, IsShaped, walk, walk_all, Shape, Shapes, u8, u64, u128, address, bool, vec_u8, vec_u64,
  vec_u128, vec_address, vec_bool, struct_, vec, ref_, nil, cons,
}
use move_tutorial.Gas.Params.Misc.{AbstractValueSizeGasParameters}
use move_tutorial.Gas.Sizes.{
  fold_sizes, packed_vec, size_visitor, stack_visitor, packed_visitor, abstract_value_size,
  abstract_stack_size, abstract_packed_size, abstract_heap_size, abstract_value_size_stack_and_heap,
}
use move_tutorial.Gas.Sizes.Spec.{packed_total, total, total_all, stack, packed, heap}

module _ ⦃G : GasAlgebra⦄ (law : IsSaturating G) (p : AbstractValueSizeGasParameters)
    (version : ℕ) where
  packed_vec-eq :
      (per n s : ℕ) → s ⊕ packed_vec p version per n ≡ clamp (s + packed_total p version per n)
  packed_vec-eq per n s = elim (Bool-cases (leb 3 version)) [
    | inl e ↦
        rw (e, law.times_eq per n, law.plus_eq (clamp (per * n)) p.vector)
          (law.plus_eq s (clamp (clamp (per * n) + p.vector)) ∙ omega arith)
    | inr e ↦ rw (e, law.times_eq per n) (law.plus_eq s (clamp (per * n)) ∙ omega arith)
  ]

  clamp_step : (s a b : ℕ) → clamp (clamp (s + a) + b) ≡ clamp (s + (a + b))
  clamp_step s a b = omega arith

  mutual
    pub walk-total :
        (x : Shape) (depth s : ℕ)
        → s ≤ u64_max
        → walk (size_visitor p version) x depth s ≡ clamp (s + total p version x)
    walk-total (u8 n) depth s h = law.plus_eq s p.u8
    walk-total (u64 n) depth s h = law.plus_eq s p.u64
    walk-total (u128 n) depth s h = law.plus_eq s p.u128
    walk-total (address a) depth s h = law.plus_eq s p.address
    walk-total (bool b) depth s h = law.plus_eq s p.bool
    walk-total (vec_u8 ns) depth s h = packed_vec-eq p.per_u8_packed (length ns) s
    walk-total (vec_u64 ns) depth s h = packed_vec-eq p.per_u64_packed (length ns) s
    walk-total (vec_u128 ns) depth s h = packed_vec-eq p.per_u128_packed (length ns) s
    walk-total (vec_address ns) depth s h = packed_vec-eq p.per_address_packed (length ns) s
    walk-total (vec_bool bs) depth s h = packed_vec-eq p.per_bool_packed (length bs) s
    walk-total (struct_ xs) depth s h =
        let rest = walk_all-total xs (suc depth) (clamp (s + p.struct_)) (omega arith) in
        rw (law.plus_eq s p.struct_) (rest ∙ clamp_step s p.struct_ (total_all p version xs))
    walk-total (vec xs) depth s h =
        let rest = walk_all-total xs (suc depth) (clamp (s + p.vector)) (omega arith) in
        rw (law.plus_eq s p.vector) (rest ∙ clamp_step s p.vector (total_all p version xs))
    walk-total (ref_ g x) depth s h = law.plus_eq s p.reference

    walk_all-total :
        (xs : Shapes) (depth s : ℕ)
        → s ≤ u64_max
        → walk_all (size_visitor p version) xs depth s ≡ clamp (s + total_all p version xs)
    walk_all-total nil depth s h = omega arith
    walk_all-total (cons x xs) depth s h =
        let rest = walk_all-total xs depth (clamp (s + total p version x)) (omega arith) in
        rw (walk-total x depth s h)
          (rest ∙ clamp_step s (total p version x) (total_all p version xs))

checked-monus :
    ⦃G : GasAlgebra⦄ (law : IsSaturating G) (a b : ℕ) → or_zero (G.checked_sub a b) ≡ a - b
checked-monus law a b = rw (law.checked_sub_eq a b) ground arith

walk-stack :
    ⦃G : GasAlgebra⦄ (p : AbstractValueSizeGasParameters) (version : ℕ) (x : Shape) (depth : ℕ)
    → (res : Option ℕ) → walk (stack_visitor p version) x depth res ≡ some (stack p version x)
walk-stack p version (u8 n) depth res = refl
walk-stack p version (u64 n) depth res = refl
walk-stack p version (u128 n) depth res = refl
walk-stack p version (address n) depth res = refl
walk-stack p version (bool n) depth res = refl
walk-stack p version (vec_u8 n) depth res = ground arith
walk-stack p version (vec_u64 n) depth res = ground arith
walk-stack p version (vec_u128 n) depth res = ground arith
walk-stack p version (vec_address n) depth res = ground arith
walk-stack p version (vec_bool n) depth res = ground arith
walk-stack p version (struct_ n) depth res = refl
walk-stack p version (vec n) depth res = refl
walk-stack p version (ref_ g n) depth res = refl

walk-packed :
    ⦃G : GasAlgebra⦄ (law : IsSaturating G) (p : AbstractValueSizeGasParameters) (x : Shape)
    → (depth : ℕ) (res : Option ℕ) → walk (packed_visitor p) x depth res ≡ some (packed p x)
walk-packed law p (u8 n) depth res = ap some (law.times_eq p.per_u8_packed 1 ∙ omega arith)
walk-packed law p (u64 n) depth res = ap some (law.times_eq p.per_u64_packed 1 ∙ omega arith)
walk-packed law p (u128 n) depth res = ap some (law.times_eq p.per_u128_packed 1 ∙ omega arith)
walk-packed law p (address n) depth res =
    ap some (law.times_eq p.per_address_packed 1 ∙ omega arith)
walk-packed law p (bool n) depth res = ap some (law.times_eq p.per_bool_packed 1 ∙ omega arith)
walk-packed law p (vec_u8 n) depth res = refl
walk-packed law p (vec_u64 n) depth res = refl
walk-packed law p (vec_u128 n) depth res = refl
walk-packed law p (vec_address n) depth res = refl
walk-packed law p (vec_bool n) depth res = refl
walk-packed law p (struct_ n) depth res = refl
walk-packed law p (vec n) depth res = refl
walk-packed law p (ref_ g n) depth res = refl

-- A value is what it shows.
module _ {V : Type 0} ⦃G : GasAlgebra⦄ ⦃W : ValueView V⦄ {shape : V → Shape} (law : IsSaturating G)
    (shown : IsShaped W shape) (p : AbstractValueSizeGasParameters) (version : ℕ) (v : V) where
  pub value_size-total : abstract_value_size p v version ≡ clamp (total p version (shape v))
  unfolding abstract_value_size
  value_size-total =
      shown.visit_eq v (size_visitor p version) 0
      ∙ walk-total law p version (shape v) 0 0 (omega arith)
      ∙ omega arith

  pub stack_size-stack : abstract_stack_size p v version ≡ some (stack p version (shape v))
  unfolding abstract_stack_size
  stack_size-stack =
      shown.visit_eq v (stack_visitor p version) none ∙ walk-stack p version (shape v) 0 none

  pub heap_size-heap : abstract_heap_size p v version ≡ some (heap p version (shape v))
  unfolding abstract_heap_size
  heap_size-heap =
      let le = checked-monus law (clamp (total p version (shape v))) (stack p version (shape v)) in
      rw (stack_size-stack, value_size-total) (ap some le)

  pub stack_and_heap-eq :
      abstract_value_size_stack_and_heap p v version
      ≡ some (stack p version (shape v), heap p version (shape v))
  unfolding abstract_value_size_stack_and_heap
  stack_and_heap-eq =
      let le = checked-monus law (clamp (total p version (shape v))) (stack p version (shape v)) in
      rw (stack_size-stack, value_size-total) (ap (λ h. some (stack p version (shape v), h)) le)

module _ {V : Type 0} ⦃G : GasAlgebra⦄ ⦃W : ValueView V⦄ {shape : V → Shape} (law : IsSaturating G)
    (shown : IsShaped W shape) (p : AbstractValueSizeGasParameters) (v : V) where
  pub packed_size-packed : abstract_packed_size p v ≡ some (packed p (shape v))
  unfolding abstract_packed_size
  packed_size-packed = shown.visit_eq v (packed_visitor p) none ∙ walk-packed law p (shape v) 0 none

-- A fold of sizes is their sum.
pub fold_sizes-sum :
    {V : Type 0} ⦃G : GasAlgebra⦄ (law : IsSaturating G) (f : V → Option ℕ) (g : V → ℕ)
    (vs : List V)
    → (acc : ℕ) → acc ≤ u64_max
    → ((v : V) → f v ≡ some (g v))
    → fold_sizes f acc vs ≡ some (clamp (acc + sum_by g vs))
unfolding fold_sizes
fold_sizes-sum law f g [] acc h e = ap some (omega arith)
fold_sizes-sum law f g (v ∷ vs) acc h e =
    let rest = fold_sizes-sum law f g vs (clamp (acc + g v)) (omega arith) e in
    rw (e v, law.plus_eq acc (g v)) (rest ∙ ap some (omega arith))
