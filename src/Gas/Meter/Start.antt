-- ===== src/Gas/Meter/Start.antt =====
-- `AptosGasMeter::new` and `balance` of aptos-gas/src/gas_meter.rs: gas of a transaction and the
-- finer gas inside the meter.
use mathlib.Core.Path.{subst}
use native.Mathlib.Nat.{mul-div_cancel, mul-le-mul_left}
use move_tutorial.Prelude.{
  ℕ, ◌*◌, ◌/◌, ◌≤◌, ◌<◌, ◌≡◌, refl, ◌∙◌, Bool, true, false, ◌&&◌, ◌||◌, not, Option, none, some,
  ltb, ◌==◌, if◌then◌else◌, arith,
}
use move_tutorial.Gas.Algebra.{GasAlgebra, IsSaturating, u64_max}
use move_tutorial.Gas.Params.{AptosGasParameters}
use move_tutorial.Gas.Params.Txn.{TransactionGasParameters}
use move_tutorial.Gas.Transaction.{StorageGasParameters, scaling_factor}
use move_tutorial.Gas.Meter.{AptosGasMeter, new, external_balance, is_none}
use move_tutorial.Gas.Meter.Effect.{IsValid, IsConfigured}

scaling_factor_pos : (p : TransactionGasParameters) → 0 < scaling_factor p
scaling_factor_pos p = ground arith

module _ {A : Type 0} where
  if_some : (b : Bool) (x y : A) → (if b then some x else none) ≡ some y → (b ≡ true) × (x ≡ y)
  if_some true x y h = (refl, ground arith)
  if_some false x y h = absurd (ground arith)

is_configured :
    (version : ℕ) (s : Option StorageGasParameters)
    → (version == 0 && is_none s || (ltb 0 version && not (is_none s))) ≡ true
    → IsConfigured version s
is_configured version none h = ground arith
is_configured version (some p) h = ground arith

module _ {N : Type 0} ⦃G : GasAlgebra⦄ (law : IsSaturating G) where
  -- The meter that is made.
  abbrev started : ℕ → AptosGasParameters N → Option StorageGasParameters → ℕ → AptosGasMeter N
  started version p s gas = record {
    feature_version = version;
    gas_params = p;
    storage_gas_params = s;
    balance = G.to_unit (scaling_factor p.txn) gas;
    memory_quota = p.txn.memory_quota;
    is_call_table = false;
  }

  started-balance :
      (version : ℕ) (p : AptosGasParameters N) (s : Option StorageGasParameters) (gas : ℕ)
      → gas * scaling_factor p.txn ≤ u64_max
      → (external_balance (started version p s gas) ≡ gas)
        × ((started version p s gas).balance ≤ u64_max)
  unfolding external_balance
  started-balance version p s gas h =
      let f = scaling_factor p.txn in
      let b : G.to_unit f gas ≡ gas * f = law.to_unit_eq f gas ∙ omega arith in
      let one_f : gas * f * 1 ≡ gas * f = omega arith in
      let back : gas * f / f ≡ gas = mul-div_cancel gas (scaling_factor_pos p.txn) in
      let small : gas ≤ gas * f = omega (arith, mul-le-mul_left gas (scaling_factor_pos p.txn)) in
      (
        rw (b, law.to_unit_round_down_eq 1 f (gas * f) (scaling_factor_pos p.txn), one_f, back)
            (omega arith),
        rw b h,
      )

  -- The gas that a meter is made with is the balance that it shows, if it fits in 64 bits when it is
  -- scaled; and the meter is valid, if its quota fits as well.
  pub new-balance :
      (version : ℕ) (p : AptosGasParameters N) (s : Option StorageGasParameters) (gas : ℕ)
      → (m : AptosGasMeter N) → gas * scaling_factor p.txn ≤ u64_max
      → p.txn.memory_quota ≤ u64_max
      → new version p s gas ≡ some m
      → (external_balance m ≡ gas) × IsValid m
  unfolding new
  new-balance version p s gas m h k e =
      let (c, at) = if_some _ (started version p s gas) m e in
      let (shown, bound) = started-balance version p s gas h in
      let v : IsValid (started version p s gas) = record {
        configured = is_configured version s c;
        balance_u64 = bound;
        quota_u64 = k;
      } in
      (subst (λ x. external_balance x ≡ gas) at shown, subst (λ x. IsValid x) at v)
