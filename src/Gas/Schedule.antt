-- ===== src/Gas/Schedule.antt =====
-- The macro `define_gas_parameters` of aptos-gas/src/params.rs, and the traits of gas_meter.rs that
-- it implements: a parameter structure is read from the on-chain gas schedule and written back.
pub mod Roundtrip
use Prim.Native.String.{String, ◌++◌}
use text.Mathlib.Text.{◌==◌ as str_eq}
use move_tutorial.Prelude.{
  ℕ, Bool, true, false, if◌then◌else◌, Option, none, some, List, [], ◌∷◌, map,
}
use move_tutorial.Prelude.Options.{◌>>=◌}

-- The map representation of the schedule: `BTreeMap<String, u64>`.
abbrev pub GasSchedule : Type 0
GasSchedule = String → Option ℕ

-- A schedule as a list of entries, collected into a map: a later entry replaces an earlier one.
unfoldable pub collect : List (String × ℕ) → GasSchedule
collect [] k = none
collect ((j, v) ∷ entries) k = elim (collect entries k) [
  | none ↦ if str_eq j k then some v else none
  | some w ↦ some w
]

-- One row of the macro's list.
pub record Field (P : Type 0) : Type 0 where
  pub key : String
  pub is_optional : Bool
  pub initial : ℕ
  pub get : P → ℕ
  pub set : ℕ → P → P

-- The arguments of the macro, and the structure with every field zero.
pub record ParamsTable (P : Type 0) : Type 0 where
  pub prefix : String
  pub zeros : P
  pub fields : List (Field P)

module _ {P : Type 0} where
  -- `format!("{}.{}", prefix, key)`.
  abbrev pub full_key : String → Field P → String
  full_key prefix f = prefix ++ "." ++ f.key

  -- `expand_get_for_gas_parameters`.
  abbrev pub read_field : Field P → Bool → Option ℕ → P → Option P
  read_field f true none params = some params
  read_field f false none params = none
  read_field f b (some val) params = some (f.set val params)

  unfoldable pub read_fields : GasSchedule → String → List (Field P) → P → Option P
  read_fields gas_schedule prefix [] params = some params
  read_fields gas_schedule prefix (f ∷ fs) params = do
    params' ← read_field f f.is_optional (gas_schedule (full_key prefix f)) params
    read_fields gas_schedule prefix fs params'

  unfoldable pub from_on_chain_gas_schedule : ParamsTable P → GasSchedule → Option P
  unfolding read_fields
  from_on_chain_gas_schedule table gas_schedule =
      read_fields gas_schedule table.prefix table.fields table.zeros

  unfoldable pub to_on_chain_gas_schedule : ParamsTable P → P → List (String × ℕ)
  to_on_chain_gas_schedule table params =
      map (λ f. (full_key table.prefix f, f.get params)) table.fields

  abbrev pub set_initial : List (Field P) → P → P
  set_initial [] params = params
  set_initial (f ∷ fs) params = set_initial fs (f.set f.initial params)

  -- `initial` of `InitialGasSchedule`.
  abbrev pub initial : ParamsTable P → P
  initial table = set_initial table.fields table.zeros
