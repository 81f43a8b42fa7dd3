-- ===== src/Gas/Algebra.antt =====
-- `GasQuantity` of move_core_types::gas_algebra, which aptos-gas/src/algebra.rs and
-- gas-algebra-ext/src/lib.rs give units. The arithmetic is not in the repository: it is a parameter.
pub mod Laws
use move_tutorial.Prelude.{
  ℕ, ◌+◌, ◌-◌, ◌*◌, ◌/◌, ◌^◌, ◌≡◌, min, Option, none, some, leb, if◌then◌else◌, ◌<◌, refl,
}

-- Every quantity is a `u64`, whatever its unit.
pub record GasAlgebra : Type 0 where
  pub plus : ℕ → ℕ → ℕ
  pub times : ℕ → ℕ → ℕ
  pub checked_sub : ℕ → ℕ → Option ℕ
  -- `to_unit_with_params`: the multiplier, then the quantity.
  pub to_unit : ℕ → ℕ → ℕ
  -- `to_unit_round_down_with_params`: the ratio, then the quantity.
  pub to_unit_round_down : ℕ × ℕ → ℕ → ℕ

infixl 65 ◌⊕◌
abbrev pub ◌⊕◌ : ⦃G : GasAlgebra⦄ → ℕ → ℕ → ℕ
◌⊕◌ ⦃G⦄ = G.plus

infixl 66 ◌⊗◌
abbrev pub ◌⊗◌ : ⦃G : GasAlgebra⦄ → ℕ → ℕ → ℕ
◌⊗◌ ⦃G⦄ = G.times

-- `unwrap_or_else(|| 0.into())` after a checked subtraction.
abbrev pub or_zero : Option ℕ → ℕ
or_zero none = 0
or_zero (some n) = n

abbrev pub u64_max : ℕ
u64_max = 2 ^ 64 - 1

abbrev pub clamp : ℕ → ℕ
clamp n = min n u64_max

-- The documented arithmetic: sums and products stop at the largest `u64`.
pub record IsSaturating (G : GasAlgebra) : Type 0 where
  pub plus_eq : (a b : ℕ) → G.plus a b ≡ clamp (a + b)
  pub times_eq : (a b : ℕ) → G.times a b ≡ clamp (a * b)
  pub checked_sub_eq : (a b : ℕ) → G.checked_sub a b ≡ (if leb b a then some (a - b) else none)
  pub to_unit_eq : (m q : ℕ) → G.to_unit m q ≡ clamp (q * m)
  pub to_unit_round_down_eq :
      (n d q : ℕ) → 0 < d → G.to_unit_round_down (n, d) q ≡ clamp (q * n / d)

instance abbrev pub saturating : GasAlgebra
saturating = record {
  plus = λ a b. clamp (a + b);
  times = λ a b. clamp (a * b);
  checked_sub = λ a b. if leb b a then some (a - b) else none;
  to_unit = λ m q. clamp (q * m);
  to_unit_round_down = λ r q. clamp (q * r.0 / r.1);
}

pub saturating-IsSaturating : IsSaturating saturating
saturating-IsSaturating = record {
  plus_eq = λ a b. refl;
  times_eq = λ a b. refl;
  checked_sub_eq = λ a b. refl;
  to_unit_eq = λ m q. refl;
  to_unit_round_down_eq = λ n d q h. refl;
}
