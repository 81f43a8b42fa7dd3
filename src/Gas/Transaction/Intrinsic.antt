-- ===== src/Gas/Transaction/Intrinsic.antt =====
-- `calculate_intrinsic_gas` of aptos-gas/src/transaction.rs.
use native.Mathlib.Nat.{mul-le-mul_right}
use move_tutorial.Prelude.{
  ℕ, ◌+◌, ◌-◌, ◌*◌, ◌≤◌, ◌≡◌, ap, ◌∙◌, true, some, ltb, leb, arith, Bool-cases, inl, inr,
}
use move_tutorial.Gas.Algebra.{GasAlgebra, IsSaturating, clamp, u64_max, ◌⊕◌, ◌⊗◌}
use move_tutorial.Gas.Algebra.Laws.{clamp-plus_right}
use move_tutorial.Gas.Params.Txn.{TransactionGasParameters}
use move_tutorial.Gas.Transaction.{calculate_intrinsic_gas}

-- The minimum, and the price of each byte past the cutoff.
abbrev pub intrinsic_gas : TransactionGasParameters → ℕ → ℕ
intrinsic_gas p size =
    clamp
      (p.min_transaction_gas_units + (size - p.large_transaction_cutoff) * p.intrinsic_gas_per_byte)

module _ ⦃G : GasAlgebra⦄ (law : IsSaturating G) (p : TransactionGasParameters)
    (min_u64 : p.min_transaction_gas_units ≤ u64_max) where
  large :
      (size : ℕ)
      → p.min_transaction_gas_units ⊕ (size - p.large_transaction_cutoff) ⊗ p.intrinsic_gas_per_byte
        ≡ intrinsic_gas p size
  large size =
      rw (law.times_eq (size - p.large_transaction_cutoff) p.intrinsic_gas_per_byte)
        (law.plus_eq _ _ ∙ clamp-plus_right p.min_transaction_gas_units _)

  pub calculate_intrinsic_gas-eq :
      (size : ℕ) → calculate_intrinsic_gas p size ≡ some (intrinsic_gas p size)
  unfolding calculate_intrinsic_gas
  calculate_intrinsic_gas-eq size = elim (Bool-cases (ltb p.large_transaction_cutoff size)) [
    | inl e ↦
        let f : leb p.large_transaction_cutoff size ≡ true = ground arith in
        rw (e, law.checked_sub_eq size p.large_transaction_cutoff, f) (ap some (large size))
    | inr e ↦
        let z : size - p.large_transaction_cutoff ≡ 0 = ground arith in
        rw (e, z) (ap some (omega arith))
  ]

  -- The intrinsic gas is there for every size, lies between the minimum and the largest number, and
  -- a larger transaction does not pay less. The minimum is a number of 64 bits.
  calculate_intrinsic_gas_mono :
      (s t : ℕ)
      → s ≤ t
      → (a : ℕ) × (b : ℕ) × (calculate_intrinsic_gas p s ≡ some a)
        × (calculate_intrinsic_gas p t ≡ some b)
        × (p.min_transaction_gas_units ≤ a)
        × (a ≤ b)
        × (b ≤ u64_max)
  calculate_intrinsic_gas_mono s t h =
      let excess : s - p.large_transaction_cutoff ≤ t - p.large_transaction_cutoff = omega arith in
      let more = mul-le-mul_right p.intrinsic_gas_per_byte excess in
      (
        intrinsic_gas p s,
        intrinsic_gas p t,
        calculate_intrinsic_gas-eq s,
        calculate_intrinsic_gas-eq t,
        omega arith,
        omega arith,
        omega arith,
      )
