-- ===== src/Gas/Sizes/Deref.antt =====
-- `abstract_value_size_dereferenced` of aptos-gas/src/misc.rs: the visitor that looks behind a
-- reference.
use move_tutorial.Prelude.{
  ℕ, suc, ◌-◌, ◌≤◌, ◌≡◌, refl, ap, ◌∙◌, Bool, true, false, Option, some, if◌then◌else◌, arith,
}
use move_tutorial.Prelude.Options.{◌>>=◌}
use move_tutorial.Gas.Algebra.{GasAlgebra, IsSaturating, clamp}
use move_tutorial.Gas.Views.{
  ValueVisitor, ValueView, IsShaped, walk, walk_all, Shape, Shapes, u8, u64, u128, address, bool,
  vec_u8, vec_u64, vec_u128, vec_address, vec_bool, struct_, vec, ref_, nil, cons, count,
}
use move_tutorial.Gas.Params.Misc.{AbstractValueSizeGasParameters}
use move_tutorial.Gas.Sizes.{
  DerefVisitor, new_deref, deref_visitor, sub_offset, size_visitor,
  abstract_value_size_dereferenced,
}
use move_tutorial.Gas.Sizes.Spec.{total}
use move_tutorial.Gas.Sizes.Visits.{walk-total}

-- No reference in the value.
abbrev mutual
  pub HasNoRefs : Shape → Type 0
  HasNoRefs (ref_ g x) = ⊥
  HasNoRefs (struct_ xs) = HaveNoRefs xs
  HasNoRefs (vec xs) = HaveNoRefs xs
  HasNoRefs _ = Unit

  pub HaveNoRefs : Shapes → Type 0
  HaveNoRefs nil = Unit
  HaveNoRefs (cons x xs) = HasNoRefs x × HaveNoRefs xs

-- The value itself, or the value behind it if it is a reference.
abbrev pub deref : Shape → Shape
deref (ref_ g x) = x
deref x = x

module _ {S : Type 0} (vis : ValueVisitor S) where
  sub_offset_ok :
      (depth offset : ℕ) → offset ≤ depth → sub_offset depth offset ≡ some (depth - offset)
  sub_offset_ok depth offset h = ground arith

  choose-deref :
      (deeper : Bool) (offset : ℕ) (m n : Option (DerefVisitor S)) (a b : S)
      → m ≡ some (record { inner = a; offset = offset })
      → n ≡ some (record { inner = b; offset = offset })
      → (if deeper then m else n)
        ≡ some (record { inner = if deeper then a else b; offset = offset })
  choose-deref true offset m n a b h k = h
  choose-deref false offset m n a b h k = k

  suc_offset : (depth offset : ℕ) → offset ≤ depth → suc (depth - offset) ≡ suc depth - offset
  suc_offset depth offset h = omega arith

  mutual
    walk-deref :
        (x : Shape) (depth offset : ℕ) (s : S)
        → offset ≤ depth
        → HasNoRefs x
        → walk (deref_visitor vis) x depth (some (record { inner = s; offset = offset }))
          ≡ some (record { inner = walk vis x (depth - offset) s; offset = offset })
    walk-deref (u8 n) depth offset s h k = rw (sub_offset_ok depth offset h) refl
    walk-deref (u64 n) depth offset s h k = rw (sub_offset_ok depth offset h) refl
    walk-deref (u128 n) depth offset s h k = rw (sub_offset_ok depth offset h) refl
    walk-deref (address n) depth offset s h k = rw (sub_offset_ok depth offset h) refl
    walk-deref (bool n) depth offset s h k = rw (sub_offset_ok depth offset h) refl
    walk-deref (vec_u8 n) depth offset s h k = rw (sub_offset_ok depth offset h) refl
    walk-deref (vec_u64 n) depth offset s h k = rw (sub_offset_ok depth offset h) refl
    walk-deref (vec_u128 n) depth offset s h k = rw (sub_offset_ok depth offset h) refl
    walk-deref (vec_address n) depth offset s h k = rw (sub_offset_ok depth offset h) refl
    walk-deref (vec_bool n) depth offset s h k = rw (sub_offset_ok depth offset h) refl
    walk-deref (struct_ xs) depth offset s h k =
        let r = vis.visit_struct (depth - offset) (count xs) s in
        let rest = walk_all-deref xs (suc depth) offset r.0 (omega arith) k in
        rw (sub_offset_ok depth offset h, suc_offset depth offset h)
          (choose-deref r.1 offset _ _ _ _ rest refl)
    walk-deref (vec xs) depth offset s h k =
        let r = vis.visit_vec (depth - offset) (count xs) s in
        let rest = walk_all-deref xs (suc depth) offset r.0 (omega arith) k in
        rw (sub_offset_ok depth offset h, suc_offset depth offset h)
          (choose-deref r.1 offset _ _ _ _ rest refl)
    walk-deref (ref_ g x) depth offset s h k = absurd k

    walk_all-deref :
        (xs : Shapes) (depth offset : ℕ) (s : S)
        → offset ≤ depth
        → HaveNoRefs xs
        → walk_all (deref_visitor vis) xs depth (some (record { inner = s; offset = offset }))
          ≡ some (record { inner = walk_all vis xs (depth - offset) s; offset = offset })
    walk_all-deref nil depth offset s h k = refl
    walk_all-deref (cons x xs) depth offset s h (k, l) =
        rw (walk-deref x depth offset s h k)
          (walk_all-deref xs depth offset (walk vis x (depth - offset) s) h l)

module _ {V : Type 0} ⦃G : GasAlgebra⦄ ⦃W : ValueView V⦄ {shape : V → Shape} (law : IsSaturating G)
    (shown : IsShaped W shape) (p : AbstractValueSizeGasParameters) (version : ℕ) where
  inner_size :
      (x : Shape) (depth : ℕ)
      → HasNoRefs x
      → (do
        visitor ←
            walk
              (deref_visitor (size_visitor p version))
              x
              depth
              (some (record { inner = 0; offset = depth }))
        some visitor.inner)
        ≡ some (clamp (total p version x))
  inner_size x depth h =
      let e = walk-deref (size_visitor p version) x depth depth 0 (omega arith) h in
      let t = walk-total law p version x (depth - depth) 0 (omega arith) in
      rw e (ap some (t ∙ omega arith))

  shape_size :
      (x : Shape)
      → HasNoRefs (deref x)
      → (do
        visitor ← walk (deref_visitor (size_visitor p version)) x 0 (some (new_deref 0))
        some visitor.inner)
        ≡ some (clamp (total p version (deref x)))
  shape_size (ref_ g y) h = inner_size y 1 h
  shape_size x h = inner_size x 0 h

  -- The size of a value, or of the value behind it if it is a reference, is the sum over all parts,
  -- where no part is a reference.
  pub dereferenced-total :
      (v : V)
      → HasNoRefs (deref (shape v))
      → abstract_value_size_dereferenced p v version
        ≡ some (clamp (total p version (deref (shape v))))
  unfolding abstract_value_size_dereferenced
  dereferenced-total v h =
      rw (shown.visit_eq v (deref_visitor (size_visitor p version)) (some (new_deref 0)))
        (shape_size (shape v) h)
