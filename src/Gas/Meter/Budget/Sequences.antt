-- ===== src/Gas/Meter/Budget/Sequences.antt =====
-- A sequence of requests to the gas meter of aptos-gas/src/gas_meter.rs against its total.
use move_tutorial.Prelude.{
  ℕ, ◌+◌, ◌≤◌, ◌≡◌, refl, ap, ◌∙◌, sym, List, [], ◌∷◌, arith, ok, err, Result, Failure,
}
use move_tutorial.Gas.Algebra.{GasAlgebra, IsSaturating}
use move_tutorial.Gas.Views.{Shape, ValueView, IsShaped}
use move_tutorial.Gas.Meter.{AptosGasMeter, Charge, resume}
use move_tutorial.Gas.Meter.Requests.{Request, perform, perform_all, call_generic}
use move_tutorial.Gas.Meter.Effect.{effect, mark, IsValid}
use move_tutorial.Gas.Meter.Effect.Values.{IsComparable, AreComparable}
use move_tutorial.Gas.Meter.Refinement.{perform-settle}
use move_tutorial.Gas.Meter.Kept.{IsAfter, IsAfter-IsValid, perform-IsAfter}
use move_tutorial.Gas.Meter.Budget.{
  total_gas, total_used, total_gas_kept, total_used_kept, settle_ok, settle_enough, HasPaid,
}

-- A chain that ends well: its first part does.
pub resume_ok :
    {N : Type 0} (k : Charge N Unit) (o : Result Failure Unit × AptosGasMeter N)
    (m' : AptosGasMeter N)
    → resume (λ _. k) o ≡ (ok tt, m')
    → (m1 : AptosGasMeter N) × (o ≡ (ok tt, m1)) × (k m1 ≡ (ok tt, m'))
resume_ok k (ok u, m1) m' h = (m1, refl, h)
resume_ok k (err e, m1) m' h = absurd (ground arith)

module _ {N V : Type 0} (core_code_address : ℕ) (m : AptosGasMeter N) where
  mark_balance : (r : Request V) → (mark core_code_address r m).balance ≡ m.balance
  mark_balance (call_generic id n vs k) = refl
  mark_balance _ = refl

  pub mark_quota : (r : Request V) → (mark core_code_address r m).memory_quota ≡ m.memory_quota
  mark_quota (call_generic id n vs k) = refl
  mark_quota _ = refl

module _ {N V : Type 0} ⦃G : GasAlgebra⦄ ⦃W : ValueView V⦄ {shape : V → Shape}
    (law : IsSaturating G) (shown : IsShaped W shape) (core_code_address : ℕ) where
  pub perform_ok :
      (r : Request V) (m m' : AptosGasMeter N)
      → IsValid m
      → IsComparable shape r
      → perform core_code_address r m ≡ (ok tt, m')
      → m'.balance + (effect shape m r).gas ≡ m.balance
  perform_ok r m m' v h e =
      let s = sym (perform-settle law shown core_code_address m v r h) ∙ e in
      settle_ok (effect shape m r) (mark core_code_address r m) m' s
      ∙ mark_balance core_code_address m r

  -- A sequence of requests that a valid meter grants, in which each value that is compared is, or
  -- refers to, a value without references, has taken exactly the sum of their gas.
  pub perform_all-total :
      (rs : List (Request V)) (m m' : AptosGasMeter N)
      → IsValid m
      → AreComparable shape rs
      → perform_all core_code_address rs m ≡ (ok tt, m')
      → m'.balance + total_gas shape m rs ≡ m.balance
  unfolding perform_all
  perform_all-total [] m m' v h e =
      let f : m'.balance ≡ m.balance = sym (ap (λ o. o.1.balance) e) in omega arith
  perform_all-total (r ∷ rs) m m' v (h, hs) e =
      let (m1, first, rest) =
        resume_ok (perform_all core_code_address rs) (perform core_code_address r m) m' e in
      let a : IsAfter m m1 =
        rw⁻¹ (ap (λ o. o.1) first) (perform-IsAfter law shown core_code_address r m v) in
      let paid = perform_ok r m m1 v h first in
      let later = perform_all-total rs m1 m' (IsAfter-IsValid m m1 v a) hs rest in
      let same = total_gas_kept shape m m1 a rs in omega arith

  perform_enough :
      (r : Request V) (m : AptosGasMeter N)
      → IsValid m
      → IsComparable shape r
      → (effect shape m r).gas ≤ m.balance
      → (effect shape m r).used ≤ m.memory_quota
      → (m' : AptosGasMeter N) × (perform core_code_address r m ≡ (ok tt, m'))
        × HasPaid (effect shape m r) (mark core_code_address r m) m'
  perform_enough r m v h g u =
      let b = mark_balance core_code_address m r in
      let q = mark_quota core_code_address m r in
      let quota_u64 = v.quota_u64 in
      let (m', e, paid) =
        settle_enough (effect shape m r) (mark core_code_address r m) (omega arith) (omega arith)
          (omega arith) in
      (m', perform-settle law shown core_code_address m v r h ∙ e, paid)

  -- A sequence of requests in which each value that is compared is, or refers to, a value without
  -- references is granted in full by a valid meter whose balance covers the sum of their gas and
  -- whose quota covers the sum of the memory that they use.
  pub perform_all-granted :
      (rs : List (Request V)) (m : AptosGasMeter N)
      → IsValid m
      → AreComparable shape rs
      → total_gas shape m rs ≤ m.balance
      → total_used shape m rs ≤ m.memory_quota
      → (m' : AptosGasMeter N) × (perform_all core_code_address rs m ≡ (ok tt, m'))
  unfolding perform_all
  perform_all-granted [] m v h g u = (m, refl)
  perform_all-granted (r ∷ rs) m v (h, hs) g u =
      let (m1, first, paid) = perform_enough r m v h (omega arith) (omega arith) in
      let a : IsAfter m m1 =
        rw⁻¹ (ap (λ o. o.1) first) (perform-IsAfter law shown core_code_address r m v) in
      let b = mark_balance core_code_address m r in
      let q = mark_quota core_code_address m r in
      let gas = total_gas_kept shape m m1 a rs in
      let used = total_used_kept shape m m1 a rs in
      let balance_eq = paid.balance_eq in
      let quota_le = paid.quota_le in
      let (m', rest) =
        perform_all-granted rs m1 (IsAfter-IsValid m m1 v a) hs (omega arith) (omega arith) in
      (m', ap (resume (λ _. perform_all core_code_address rs)) first ∙ rest)
