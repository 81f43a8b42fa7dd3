-- ===== src/Gas/Meter/Budget.antt =====
-- Sequences of requests to the gas meter, and what they cost together.
pub mod Sequences
use move_tutorial.Prelude.{
  sum_by, ℕ, ◌+◌, ◌-◌, ◌≤◌, ◌≡◌, refl, ap, ◌∙◌, sym, Bool, true, false, Option, none, some, List,
  [], ◌∷◌, leb, ltb, if◌then◌else◌, arith, Bool-cases, inl, inr, ok, err, Result, Failure,
}
use move_tutorial.Gas.Algebra.{GasAlgebra, IsSaturating, clamp, u64_max}
use move_tutorial.Gas.Views.{Shape, ValueView, IsShaped}
use move_tutorial.Gas.Meter.{AptosGasMeter, resume, vm_error}
use move_tutorial.Gas.Meter.Requests.{Request, perform, perform_all}
use move_tutorial.Gas.Meter.Effect.{Effect, effect, settle, pay, mark, IsValid}
use move_tutorial.Gas.Meter.Effect.Values.{IsComparable, AreComparable}
use move_tutorial.Gas.Meter.Refinement.{perform-settle}
use move_tutorial.Gas.Meter.Kept.{
  moved, gas_kept, used_kept, IsAfter, IsAfter-IsValid, perform-IsAfter,
}

-- The gas that is asked for in a sequence, and the memory.
module _ {N V : Type 0} (shape : V → Shape) (m : AptosGasMeter N) where
  abbrev pub total_gas : List (Request V) → ℕ
  total_gas rs = sum_by (λ r. (effect shape m r).gas) rs

  abbrev pub total_used : List (Request V) → ℕ
  total_used rs = sum_by (λ r. (effect shape m r).used) rs

module _ {N V : Type 0} (shape : V → Shape) (m : AptosGasMeter N) (b q : ℕ) (f : Bool) where
  moved_gas : (rs : List (Request V)) → total_gas shape (moved m b q f) rs ≡ total_gas shape m rs
  moved_gas [] = refl
  moved_gas (r ∷ rs) = rw (gas_kept shape m b q f r, moved_gas rs) refl

  moved_used : (rs : List (Request V)) → total_used shape (moved m b q f) rs ≡ total_used shape m rs
  moved_used [] = refl
  moved_used (r ∷ rs) = rw (used_kept shape m b q f r, moved_used rs) refl

module _ {N V : Type 0} (shape : V → Shape) (m m' : AptosGasMeter N) (a : IsAfter m m') where
  pub total_gas_kept : (rs : List (Request V)) → total_gas shape m' rs ≡ total_gas shape m rs
  total_gas_kept rs =
      ap (λ x. total_gas shape x rs) a.moved_eq
      ∙ moved_gas shape m m'.balance m'.memory_quota m'.is_call_table rs

  pub total_used_kept : (rs : List (Request V)) → total_used shape m' rs ≡ total_used shape m rs
  total_used_kept rs =
      ap (λ x. total_used shape x rs) a.moved_eq
      ∙ moved_used shape m m'.balance m'.memory_quota m'.is_call_table rs

-- What one effect takes of a meter that has enough.
pub record HasPaid {N : Type 0} (e : Effect) (m m' : AptosGasMeter N) : Type 0 where
  pub balance_eq : m'.balance + e.gas ≡ m.balance
  pub quota_le : m.memory_quota ≤ m'.memory_quota + e.used

module _ {N : Type 0} where
  pay_ok :
      (gas : ℕ) (m m' : AptosGasMeter N) → pay gas m ≡ (ok tt, m') → m'.balance + gas ≡ m.balance
  pay_ok gas m m' h = ground arith

  pub settle_ok :
      (e : Effect) (m m' : AptosGasMeter N)
      → settle e m ≡ (ok tt, m')
      → m'.balance + e.gas ≡ m.balance
  settle_ok e m m' h = elim (Bool-cases (leb 3 m.feature_version)) [
    | inl c ↦ elim (Bool-cases (ltb (clamp (m.memory_quota + e.released)) e.used)) [
      | inl d ↦ absurd (ground arith)
      | inr d ↦ pay_ok e.gas _ m' (rw (c, d) at h)
    ]
    | inr c ↦ pay_ok e.gas m m' (rw c at h)
  ]

  pay_enough :
      (gas : ℕ) (m : AptosGasMeter N)
      → gas ≤ m.balance
      → pay gas m ≡ (ok tt, record m { balance = m.balance - gas })
  pay_enough gas m h = let e : ltb m.balance gas ≡ false = ground arith in rw e refl

  pub settle_enough :
      (e : Effect) (m : AptosGasMeter N)
      → m.memory_quota ≤ u64_max
      → e.gas ≤ m.balance
      → e.used ≤ m.memory_quota
      → (m' : AptosGasMeter N) × (settle e m ≡ (ok tt, m')) × HasPaid e m m'
  settle_enough e m q g u = elim (Bool-cases (leb 3 m.feature_version)) [
    | inl c ↦
        let d : ltb (clamp (m.memory_quota + e.released)) e.used ≡ false = ground arith in
        let m1 = record m { memory_quota = clamp (m.memory_quota + e.released) - e.used } in
        (
          record m1 { balance = m.balance - e.gas },
          rw (c, d) (pay_enough e.gas m1 g),
          record { balance_eq = omega arith; quota_le = omega arith },
        )
    | inr c ↦ (
      record m { balance = m.balance - e.gas },
      rw c (pay_enough e.gas m g),
      record { balance_eq = omega arith; quota_le = omega arith },
    )
  ]
