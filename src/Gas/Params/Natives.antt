-- ===== src/Gas/Params/Natives.antt =====
-- The macro `define_gas_parameters_for_natives` of aptos-gas/src/natives.rs. The parameter structures
-- of the natives are nested structures of amounts, most of them declared elsewhere: here they are the
-- amounts at the paths of their fields.
pub mod MoveStdlib
pub mod AptosFramework
pub mod TableExtension
use Prim.Native.String.{String}
use text.Mathlib.Text.{◌==◌ as str_eq}
use move_tutorial.Prelude.{ℕ, Bool, true, false, not, ◌||◌, if◌then◌else◌, List, [], ◌∷◌}
use move_tutorial.Gas.Schedule.{Field, ParamsTable}

abbrev pub execution_gas_multiplier : ℕ
execution_gas_multiplier = 20

-- The amount at each path, such as `hash.sha2_256.base`.
abbrev pub NativeParams : Type 0
NativeParams = String → ℕ

abbrev pub set_at : String → ℕ → NativeParams → NativeParams
set_at path val params x = if str_eq path x then val else params x

-- One row of the macro's list.
pub record NativeRow : Type 0 where
  pub path : String
  pub key : String
  pub is_optional : Bool
  pub is_test_only : Bool
  pub initial : ℕ

abbrev pub row : String → String → ℕ → NativeRow
row path key initial = record {
  path = path;
  key = key;
  is_optional = false;
  is_test_only = false;
  initial = initial;
}

abbrev pub optional_row : String → String → ℕ → NativeRow
optional_row path key initial = record (row path key initial) { is_optional = true }

abbrev pub test_row : String → String → ℕ → NativeRow
test_row path key initial = record (row path key initial) { is_test_only = true }

abbrev pub native_field : NativeRow → Field NativeParams
native_field r = record {
  key = r.key;
  is_optional = r.is_optional;
  initial = r.initial;
  get = λ params. params r.path;
  set = set_at r.path;
}

-- The feature "testing" keeps the rows that are marked `test_only`.
abbrev pub is_enabled : Bool → NativeRow → Bool
is_enabled testing r = testing || not r.is_test_only

abbrev pub native_fields : Bool → List NativeRow → List (Field NativeParams)
native_fields testing [] = []
native_fields testing (r ∷ rows) =
    let rest = native_fields testing rows in
    if is_enabled testing r then native_field r ∷ rest else rest

abbrev pub natives_table : Bool → String → List NativeRow → ParamsTable NativeParams
natives_table testing package_name rows = record {
  prefix = package_name;
  zeros = λ path. 0;
  fields = native_fields testing rows;
}
