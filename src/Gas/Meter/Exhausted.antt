-- ===== src/Gas/Meter/Exhausted.antt =====
-- How a sequence of requests to the gas meter of aptos-gas/src/gas_meter.rs can fail.
use move_tutorial.Prelude.{
  ℕ, ◌+◌, ◌≤◌, ◌≡◌, refl, List, [], ◌∷◌, leb, ltb, arith, Bool-cases, inl, inr, ok, err, Result,
  Failure, out_of_gas, memory_limit_exceeded,
}
use move_tutorial.Gas.Algebra.{GasAlgebra, IsSaturating, clamp}
use move_tutorial.Gas.Views.{Shape, ValueView, IsShaped}
use move_tutorial.Gas.Meter.{AptosGasMeter, resume, vm_error}
use move_tutorial.Gas.Meter.Requests.{Request, perform, perform_all}
use move_tutorial.Gas.Meter.Effect.{Effect, effect, settle, pay, mark, IsValid}
use move_tutorial.Gas.Meter.Effect.Values.{IsComparable, AreComparable}
use move_tutorial.Gas.Meter.Refinement.{perform-settle}
use move_tutorial.Gas.Meter.Kept.{IsAfter, IsAfter-IsValid, perform-IsAfter}

-- The errors of a meter that has run out of something.
pub data IsExhausted {N : Type 0} (m : AptosGasMeter N) : Failure → Type 0 where
  no_gas : m.balance ≡ 0 → IsExhausted m (vm_error out_of_gas)
  no_memory :
      3 ≤ m.feature_version → m.memory_quota ≡ 0 → IsExhausted m (vm_error memory_limit_exceeded)

-- An outcome is a success, or the meter has run out.
abbrev pub EndsWell : {N : Type 0} → Result {0} Failure Unit × AptosGasMeter N → Type 0
EndsWell (ok u, m) = Unit
EndsWell (err e, m) = IsExhausted m e

module _ {N : Type 0} where
  pay-EndsWell : (gas : ℕ) (m : AptosGasMeter N) → EndsWell (pay gas m)
  pay-EndsWell gas m = elim (Bool-cases (ltb m.balance gas)) [
    | inl e ↦ rw e (no_gas refl)
    | inr e ↦ rw e tt
  ]

  settle-EndsWell : (e : Effect) (m : AptosGasMeter N) → EndsWell (settle e m)
  settle-EndsWell e m = elim (Bool-cases (leb 3 m.feature_version)) [
    | inl c ↦ elim (Bool-cases (ltb (clamp (m.memory_quota + e.released)) e.used)) [
      | inl d ↦ rw (c, d) (no_memory (ground arith) refl)
      | inr d ↦ rw (c, d) (pay-EndsWell e.gas _)
    ]
    | inr c ↦ rw c (pay-EndsWell e.gas m)
  ]

module _ {N V : Type 0} ⦃G : GasAlgebra⦄ ⦃W : ValueView V⦄ {shape : V → Shape}
    (law : IsSaturating G) (shown : IsShaped W shape) (core_code_address : ℕ) where
  perform-EndsWell :
      (r : Request V) (m : AptosGasMeter N)
      → IsValid m
      → IsComparable shape r
      → EndsWell (perform core_code_address r m)
  perform-EndsWell r m v h =
      rw (perform-settle law shown core_code_address m v r h)
        (settle-EndsWell (effect shape m r) (mark core_code_address r m))

  resume-EndsWell :
      (rs : List (Request V)) (m : AptosGasMeter N) (o : Result Failure Unit × AptosGasMeter N)
      → EndsWell o
      → IsAfter m o.1
      → ((m' : AptosGasMeter N) → IsAfter m m' → EndsWell (perform_all core_code_address rs m'))
      → EndsWell (resume (λ _. perform_all core_code_address rs) o)
  resume-EndsWell rs m (ok u, m') w a k = k m' a
  resume-EndsWell rs m (err e, m') w a k = w

  -- Make requests to a valid meter in which each value that is compared is, or refers to, a value
  -- without references. They do not panic, and the only errors are two: out of gas, and then the
  -- balance is zero, and from version 3 on the memory limit, and then the quota is zero.
  pub perform_all-EndsWell :
      (rs : List (Request V)) (m : AptosGasMeter N)
      → IsValid m
      → AreComparable shape rs
      → EndsWell (perform_all core_code_address rs m)
  unfolding perform_all
  perform_all-EndsWell [] m v h = tt
  perform_all-EndsWell (r ∷ rs) m v (h, hs) =
      resume-EndsWell rs m (perform core_code_address r m) (perform-EndsWell r m v h)
        (perform-IsAfter law shown core_code_address r m v)
        (λ m' a. perform_all-EndsWell rs m' (IsAfter-IsValid m m' v a) hs)
