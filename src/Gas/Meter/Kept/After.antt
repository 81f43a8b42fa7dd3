-- ===== src/Gas/Meter/Kept/After.antt =====
-- A gas meter of aptos-gas/src/gas_meter.rs against an earlier one.
use move_tutorial.Prelude.{
  ℕ, ◌+◌, ◌-◌, ◌≤◌, ◌≡◌, refl, ap, ◌∙◌, Bool, true, false, memory_limit_exceeded, leb, ltb,
  if◌then◌else◌, arith, Bool-cases, inl, inr, err,
}
use move_tutorial.Gas.Algebra.{clamp, u64_max}
use move_tutorial.Gas.Meter.{vm_error}
use move_tutorial.Gas.Meter.{AptosGasMeter}
use move_tutorial.Gas.Meter.Effect.{Effect, settle, pay, IsValid}

-- A meter with another balance, another quota and another mark.
abbrev pub moved : {N : Type 0} → AptosGasMeter N → ℕ → ℕ → Bool → AptosGasMeter N
moved m b q f = record m { balance = b; memory_quota = q; is_call_table = f }

-- A meter against an earlier one: only the balance, the quota and the mark differ, and the balance is
-- not above.
pub record IsAfter {N : Type 0} (m m' : AptosGasMeter N) : Type 0 where
  pub moved_eq : m' ≡ moved m m'.balance m'.memory_quota m'.is_call_table
  pub balance_le : m'.balance ≤ m.balance
  pub quota_u64 : m'.memory_quota ≤ u64_max

module _ {N : Type 0} where
  pub IsAfter-IsValid : (m m' : AptosGasMeter N) → IsValid m → IsAfter m m' → IsValid m'
  IsAfter-IsValid m m' v a = rw a.moved_eq (record {
    configured = v.configured;
    balance_u64 = omega (arith, a.balance_le, v.balance_u64);
    quota_u64 = a.quota_u64;
  })

  pub IsAfter-refl : (m : AptosGasMeter N) → m.memory_quota ≤ u64_max → IsAfter m m
  IsAfter-refl m h = record { moved_eq = refl; balance_le = omega arith; quota_u64 = h }

  pub IsAfter-trans : (l m n : AptosGasMeter N) → IsAfter l m → IsAfter m n → IsAfter l n
  IsAfter-trans l m n a b = record {
    moved_eq = b.moved_eq ∙ ap (λ x. moved x n.balance n.memory_quota n.is_call_table) a.moved_eq;
    balance_le = omega (arith, a.balance_le, b.balance_le);
    quota_u64 = b.quota_u64;
  }

  pub pay-IsAfter :
      (gas : ℕ) (m : AptosGasMeter N) → m.memory_quota ≤ u64_max → IsAfter m (pay gas m).1
  pay-IsAfter gas m h = elim (Bool-cases (ltb m.balance gas)) [
    | inl e ↦ rw e (record { moved_eq = refl; balance_le = omega arith; quota_u64 = h })
    | inr e ↦ rw e (record { moved_eq = refl; balance_le = omega arith; quota_u64 = h })
  ]

  with_quota :
      (m m' : AptosGasMeter N) (q : ℕ) → IsAfter (record m { memory_quota = q }) m' → IsAfter m m'
  with_quota m m' q a = record {
    moved_eq = a.moved_eq;
    balance_le = a.balance_le;
    quota_u64 = a.quota_u64;
  }

  counted-IsAfter :
      (e : Effect) (m : AptosGasMeter N) (short : Bool)
      → IsAfter m
          (if short
            then (err (vm_error memory_limit_exceeded), record m { memory_quota = 0 })
            else pay e.gas
                (record m { memory_quota = clamp (m.memory_quota + e.released) - e.used })).1
  counted-IsAfter e m true = record {
    moved_eq = refl;
    balance_le = omega arith;
    quota_u64 = omega arith;
  }
  counted-IsAfter e m false =
      let q = clamp (m.memory_quota + e.released) - e.used in
      with_quota m _ q (pay-IsAfter e.gas (record m { memory_quota = q }) (omega arith))

  pub settle-IsAfter :
      (e : Effect) (m : AptosGasMeter N) → m.memory_quota ≤ u64_max → IsAfter m (settle e m).1
  settle-IsAfter e m h = elim (Bool-cases (leb 3 m.feature_version)) [
    | inl c ↦ rw c (counted-IsAfter e m (ltb (clamp (m.memory_quota + e.released)) e.used))
    | inr c ↦ rw c (pay-IsAfter e.gas m h)
  ]
