-- ===== src/Gas/Meter.antt =====
-- `AptosGasMeter` of aptos-gas/src/gas_meter.rs: a balance of gas and a quota of memory.
pub mod Charges
pub mod Values
pub mod Requests
pub mod Effect
pub mod Refinement
pub mod Kept
pub mod Exhausted
pub mod Memory
pub mod TableMark
pub mod Start
pub mod Budget
use move_tutorial.Prelude.{
  ℕ, Bool, true, false, not, ◌&&◌, ◌||◌, Option, none, some, List, [], ◌∷◌, leb, ltb, ◌==◌,
  if◌then◌else◌, Result, ok, err, Failure, raised, panic, PartialVmError, StatusCode, out_of_gas,
  memory_limit_exceeded,
}
use move_tutorial.Gas.Algebra.{GasAlgebra, ◌⊕◌}
use move_tutorial.Gas.Params.{AptosGasParameters}
use move_tutorial.Gas.Transaction.{StorageGasParameters, multiplier, ratio}

pub record AptosGasMeter (N : Type 0) : Type 0 where
  pub feature_version : ℕ
  pub gas_params : AptosGasParameters N
  pub storage_gas_params : Option StorageGasParameters
  pub balance : ℕ
  pub memory_quota : ℕ
  pub is_call_table : Bool

-- A method that charges the meter. The meter comes back after an error too, since what was charged
-- stays charged.
abbrev pub Charge : Type 0 → Type 0 → Type 0
Charge N A = AptosGasMeter N → Result Failure A × AptosGasMeter N

module _ {N A : Type 0} where
  abbrev pub pure : A → Charge N A
  pure a m = (ok a, m)

  abbrev pub fail : Failure → Charge N A
  fail e m = (err e, m)

  -- `unwrap`.
  abbrev pub unwrap : Option A → Charge N A
  unwrap none = fail panic
  unwrap (some a) = pure a

-- What follows the outcome of a first part.
abbrev pub resume :
    {N A B : Type 0}
    → (A → Charge N B)
    → Result Failure A × AptosGasMeter N
    → Result Failure B × AptosGasMeter N
resume f (ok a, m) = f a m
resume f (err x, m) = (err x, m)

infixl 5 ◌>>=◌ ◌>>◌
abbrev pub ◌>>=◌ : {N A B : Type 0} → Charge N A → (A → Charge N B) → Charge N B
◌>>=◌ c f m = resume f (c m)

abbrev pub ◌>>◌ : {N A B : Type 0} → Charge N A → Charge N B → Charge N B
c >> k = c >>= λ _. k

abbrev pub get : {N : Type 0} → Charge N (AptosGasMeter N)
get m = (ok m, m)

abbrev pub put : {N : Type 0} → AptosGasMeter N → Charge N Unit
put m' m = (ok tt, m')

abbrev pub vm_error : StatusCode → Failure
vm_error code = raised (record { status = code; sub_status = none })

abbrev pub is_none : Option StorageGasParameters → Bool
is_none none = true
is_none (some p) = false

module _ {N : Type 0} ⦃G : GasAlgebra⦄ where
  -- None: the assertion on the configuration fails.
  unfoldable pub new :
      ℕ → AptosGasParameters N → Option StorageGasParameters → ℕ → Option (AptosGasMeter N)
  new gas_feature_version gas_params storage_gas_params balance =
      if gas_feature_version == 0 && is_none storage_gas_params
        || (ltb 0 gas_feature_version && not (is_none storage_gas_params))
      then some (record {
        feature_version = gas_feature_version;
        gas_params = gas_params;
        storage_gas_params = storage_gas_params;
        balance = G.to_unit (multiplier gas_params.txn) balance;
        memory_quota = gas_params.txn.memory_quota;
        is_call_table = false;
      })
      else none

  -- The method `balance`, in external gas.
  unfoldable pub external_balance : AptosGasMeter N → ℕ
  external_balance self = G.to_unit_round_down (ratio self.gas_params.txn) self.balance

  abbrev pub charged : Option ℕ → Charge N Unit
  charged (some new_balance) self = (ok tt, record self { balance = new_balance })
  charged none self = (err (vm_error out_of_gas), record self { balance = 0 })

  unfoldable pub charge : ℕ → Charge N Unit
  charge amount self = charged (G.checked_sub self.balance amount) self

  abbrev pub used : Option ℕ → Charge N Unit
  used (some remaining_quota) self = (ok tt, record self { memory_quota = remaining_quota })
  used none self = (err (vm_error memory_limit_exceeded), record self { memory_quota = 0 })

  unfoldable pub use_heap_memory : ℕ → Charge N Unit
  use_heap_memory amount self =
      if leb 3 self.feature_version
      then used (G.checked_sub self.memory_quota amount) self
      else (ok tt, self)

  unfoldable pub release_heap_memory : ℕ → Charge N Unit
  release_heap_memory amount self =
      if leb 3 self.feature_version
      then (ok tt, record self { memory_quota = self.memory_quota ⊕ amount })
      else (ok tt, self)
