-- ===== src/Gas/Meter/Kept.antt =====
-- What no charge changes: the parameters, and with them the gas and the memory of a request.
mod After
mod Compared
pub use After.{moved, IsAfter, IsAfter-IsValid, IsAfter-refl, IsAfter-trans}
use After.{settle-IsAfter}
use Compared.{compare-IsAfter}
use move_tutorial.Prelude.{
  ℕ, ◌+◌, ◌-◌, ◌≤◌, ◌≡◌, refl, ap, ◌∙◌, Bool, true, false, Option, none, some, List, [], ◌∷◌,
  memory_limit_exceeded, leb, ltb, if◌then◌else◌, arith, Bool-cases, inl, inr, ok, err, Result,
  Failure,
}
use move_tutorial.Gas.Algebra.{clamp, u64_max}
use move_tutorial.Gas.Algebra.{GasAlgebra, IsSaturating}
use move_tutorial.Gas.Views.{Shape, ValueView, IsShaped}
use move_tutorial.Gas.Meter.{resume, vm_error}
use move_tutorial.Gas.Meter.Requests.{perform, perform_all}
use move_tutorial.Gas.Meter.Effect.Values.{IsComparable, AreComparable}
use move_tutorial.Gas.Meter.Refinement.{perform-settle}
use move_tutorial.Gas.Meter.Values
use move_tutorial.Gas.Transaction.{StorageGasParameters}
use move_tutorial.Gas.Meter.{AptosGasMeter}
use move_tutorial.Gas.Meter.Requests.{
  Request, eq, neq, load_resource, call_generic, borrow_global, exists, move_from, move_to,
  vec_borrow,
}
use move_tutorial.Gas.Meter.Effect.{Effect, effect, settle, pay, mark, load_gas, IsValid}

module _ {N V : Type 0} (shape : V → Shape) (m : AptosGasMeter N) (b q : ℕ) (f : Bool) where
  load_gas_kept :
      (s : Option StorageGasParameters) (l : Option (ℕ × V))
      → load_gas shape (moved m b q f) s l ≡ load_gas shape m s l
  load_gas_kept none none = refl
  load_gas_kept none (some (n, v)) = refl
  load_gas_kept (some p) none = refl
  load_gas_kept (some p) (some (n, v)) = refl

  pub gas_kept : (r : Request V) → (effect shape (moved m b q f) r).gas ≡ (effect shape m r).gas
  gas_kept (load_resource l) = load_gas_kept m.storage_gas_params l
  gas_kept (borrow_global true true) = refl
  gas_kept (borrow_global true false) = refl
  gas_kept (borrow_global false true) = refl
  gas_kept (borrow_global false false) = refl
  gas_kept (exists true) = refl
  gas_kept (exists false) = refl
  gas_kept (move_from true) = refl
  gas_kept (move_from false) = refl
  gas_kept (move_to true) = refl
  gas_kept (move_to false) = refl
  gas_kept (vec_borrow true) = refl
  gas_kept (vec_borrow false) = refl
  gas_kept _ = refl

  pub used_kept : (r : Request V) → (effect shape (moved m b q f) r).used ≡ (effect shape m r).used
  used_kept (borrow_global true true) = refl
  used_kept (borrow_global true false) = refl
  used_kept (borrow_global false true) = refl
  used_kept (borrow_global false false) = refl
  used_kept (exists true) = refl
  used_kept (exists false) = refl
  used_kept (move_from true) = refl
  used_kept (move_from false) = refl
  used_kept (move_to true) = refl
  used_kept (move_to false) = refl
  used_kept (vec_borrow true) = refl
  used_kept (vec_borrow false) = refl
  used_kept _ = refl

module _ {N V : Type 0} (core_code_address : ℕ) where
  mark-IsAfter :
      (r : Request V) (m m' : AptosGasMeter N)
      → IsAfter (mark core_code_address r m) m'
      → IsAfter m m'
  mark-IsAfter (call_generic id n vs k) m m' a = record {
    moved_eq = a.moved_eq;
    balance_le = a.balance_le;
    quota_u64 = a.quota_u64;
  }
  mark-IsAfter _ m m' a = a

  mark_quota :
      (r : Request V) (m : AptosGasMeter N)
      → (mark core_code_address r m).memory_quota ≡ m.memory_quota
  mark_quota (call_generic id n vs k) m = refl
  mark_quota _ m = refl

module _ {N V : Type 0} ⦃G : GasAlgebra⦄ ⦃W : ValueView V⦄ {shape : V → Shape}
    (law : IsSaturating G) (shown : IsShaped W shape) (core_code_address : ℕ) where
  settled-IsAfter :
      (r : Request V) (m : AptosGasMeter N)
      → IsValid m
      → IsComparable shape r
      → IsAfter m (perform core_code_address r m).1
  settled-IsAfter r m v h =
      let m' = mark core_code_address r m in
      let q : m'.memory_quota ≤ u64_max = rw (mark_quota core_code_address r m) v.quota_u64 in
      rw (perform-settle law shown core_code_address m v r h)
        (mark-IsAfter core_code_address r m _ (settle-IsAfter (effect shape m r) m' q))

  pub perform-IsAfter :
      (r : Request V) (m : AptosGasMeter N)
      → IsValid m
      → IsAfter m (perform core_code_address r m).1
  unfolding perform Values.charge_eq Values.charge_neq
  perform-IsAfter (eq l r) m v =
      compare-IsAfter law shown m m.gas_params.instr.eq_base m.gas_params.instr.eq_per_abs_val_unit
        l r v.quota_u64
  perform-IsAfter (neq l r) m v =
      compare-IsAfter law shown m m.gas_params.instr.neq_base
        m.gas_params.instr.neq_per_abs_val_unit l r v.quota_u64
  perform-IsAfter r m v = settled-IsAfter r m v tt

  resume-IsAfter :
      (rs : List (Request V)) (m : AptosGasMeter N) (o : Result Failure Unit × AptosGasMeter N)
      → IsAfter m o.1
      → ((m' : AptosGasMeter N) → IsAfter m m' → IsAfter m (perform_all core_code_address rs m').1)
      → IsAfter m (resume (λ _. perform_all core_code_address rs) o).1
  resume-IsAfter rs m (ok u, m') a k = k m' a
  resume-IsAfter rs m (err e, m') a k = a

  all-IsAfter :
      (rs : List (Request V)) (m : AptosGasMeter N)
      → IsValid m
      → IsAfter m (perform_all core_code_address rs m).1
  unfolding perform_all
  all-IsAfter [] m v = IsAfter-refl m v.quota_u64
  all-IsAfter (r ∷ rs) m v =
      resume-IsAfter rs m (perform core_code_address r m) (perform-IsAfter r m v)
        (λ m' a. IsAfter-trans m m' _ a (all-IsAfter rs m' (IsAfter-IsValid m m' v a)))

  -- Whatever the virtual machine asks of a valid meter, and wherever the sequence of its calls ends,
  -- be it by a panic: the meter is still valid, its parameters are the same, and its balance is not
  -- above what it was.
  pub perform_all-IsAfter :
      (rs : List (Request V)) (m : AptosGasMeter N)
      → IsValid m
      → IsAfter m (perform_all core_code_address rs m).1
        × IsValid (perform_all core_code_address rs m).1
  perform_all-IsAfter rs m v =
      let a = all-IsAfter rs m v in
      (a, IsAfter-IsValid m (perform_all core_code_address rs m).1 v a)
