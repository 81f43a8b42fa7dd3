-- ===== src/Gas/Algebra/Laws.antt =====
-- Sums and products that stop at the largest `u64`, as the ordinary ones cut once.
use native.Mathlib.Nat.{le_refl, suc-mul, mul_comm}
use move_tutorial.Prelude.{
  ℕ, zero, suc, ◌+◌, ◌*◌, ◌≤◌, ◌≡◌, refl, sym, ap, ◌∙◌, Bool-cases, inl, inr, leb, arith,
}
use move_tutorial.Gas.Algebra.{GasAlgebra, IsSaturating, clamp, u64_max, ◌⊕◌, ◌⊗◌}

pub clamp-plus_left : (a b : ℕ) → clamp (clamp a + b) ≡ clamp (a + b)
clamp-plus_left a b = omega arith

pub clamp-plus_right : (a b : ℕ) → clamp (a + clamp b) ≡ clamp (a + b)
clamp-plus_right a b = omega arith

-- A product with a number that is past the largest is zero, or past it as well.
times_past : (a b : ℕ) → u64_max ≤ b → clamp (suc a * b) ≡ u64_max
times_past a b h = omega (arith, suc-mul a b)

pub clamp-times_right : (a b : ℕ) → clamp (a * clamp b) ≡ clamp (a * b)
clamp-times_right zero b = omega arith
clamp-times_right (suc a) b = elim (Bool-cases (leb b u64_max)) [
  | inl e ↦ let f : clamp b ≡ b = ground arith in rw f refl
  | inr e ↦
      let f : clamp b ≡ u64_max = ground arith in
      rw f (times_past a u64_max (le_refl u64_max) ∙ sym (times_past a b (ground arith)))
]

module _ ⦃G : GasAlgebra⦄ (law : IsSaturating G) where
  pub poly : (base per n : ℕ) → base ⊕ per ⊗ n ≡ clamp (base + per * n)
  poly base per n =
      rw (law.times_eq per n) (law.plus_eq base (clamp (per * n)) ∙ clamp-plus_right base (per * n))

  -- One more product added to what was cut.
  pub poly_more : (so_far per n : ℕ) → clamp so_far ⊕ per ⊗ n ≡ clamp (so_far + per * n)
  poly_more so_far per n = poly (clamp so_far) per n ∙ clamp-plus_left so_far (per * n)

  pub poly_sum : (base per a b : ℕ) → base ⊕ per ⊗ (a ⊕ b) ≡ clamp (base + per * (a + b))
  poly_sum base per a b =
      rw (law.plus_eq a b, law.times_eq per (clamp (a + b)), clamp-times_right per (a + b))
        (law.plus_eq base (clamp (per * (a + b))) ∙ clamp-plus_right base (per * (a + b)))

  -- Cut numbers multiplied and added.
  pub product : (a p : ℕ) → clamp a ⊗ p ≡ clamp (a * p)
  product a p =
      law.times_eq (clamp a) p
      ∙ ap clamp (mul_comm (clamp a) p)
      ∙ clamp-times_right p a
      ∙ ap clamp (mul_comm p a)

  pub product_right : (p a : ℕ) → p ⊗ clamp a ≡ clamp (p * a)
  product_right p a = law.times_eq p (clamp a) ∙ clamp-times_right p a

  pub cut_sum : (a b : ℕ) → clamp a ⊕ clamp b ≡ clamp (a + b)
  cut_sum a b = law.plus_eq (clamp a) (clamp b) ∙ omega arith
