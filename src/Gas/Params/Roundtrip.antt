-- ===== src/Gas/Params/Roundtrip.antt =====
-- The gas parameters of one version, written to the chain and read again.
use move_tutorial.Prelude.{
  ℕ, ◌≡◌, refl, ap, ◌∙◌, Bool, true, false, Bool-cases, inl, inr, ◌&&◌, ◌||◌, if◌then◌else◌, some,
  List, [], ◌∷◌, ◌++◌, arith,
}
use move_tutorial.Gas.Schedule.{GasSchedule, ParamsTable, collect, to_on_chain_gas_schedule}
use move_tutorial.Gas.Schedule.Roundtrip.{
  Holds, Holds-append, IsComplete, from-Holds, from-copy, copy, collect-Holds, distinct_keys,
}
use move_tutorial.Gas.Params.{
  OnChain, AptosGasParameters, aptos_on_chain, table_on_chain, misc_on_chain, natives_on_chain,
  NativeGasParameters, aptos_on_chain, AptosGasParameters,
}
use move_tutorial.Gas.Params.Natives.{
  NativeParams, NativeRow, is_enabled, native_fields, natives_table, set_at,
}
use move_tutorial.Gas.Params.Natives.MoveStdlib
use move_tutorial.Gas.Params.Natives.AptosFramework
use move_tutorial.Gas.Params.Natives.TableExtension
use Prim.Native.String.{String}
use text.Mathlib.Text.{◌==◌ as str_eq}
use text.Mathlib.TextEquality.{eq_iff}
use mathlib.Core.Path.{fun_ext}
use move_tutorial.Gas.Params.Misc
use move_tutorial.Gas.Params.Misc.{MiscGasParameters}
use move_tutorial.Gas.Params.Txn
use move_tutorial.Gas.Params.Instr.Table

-- A schedule that has every entry of a value is read as the part of the value that is kept.
abbrev pub ReadsBack : {P : Type 0} → OnChain P → (P → P) → Type 0
ReadsBack {P} c keep = (s : GasSchedule) (p : P) → Holds s (c.to p) → c.from s ≡ some (keep p)

table-ReadsBack :
    {P : Type 0} (t : ParamsTable P) → IsComplete t → ReadsBack (table_on_chain t) (λ p. p)
table-ReadsBack t c s p h = from-Holds t s p c h

instr-IsComplete : IsComplete Table.table
instr-IsComplete p = refl

txn-IsComplete : (price : ℕ) → IsComplete (Txn.table price)
txn-IsComplete price p = refl

misc-IsComplete : IsComplete Misc.table
misc-IsComplete p = refl

misc-ReadsBack : ReadsBack misc_on_chain (λ p. p)
misc-ReadsBack s p h = rw (table-ReadsBack Misc.table misc-IsComplete s p.abs_val h) refl

-- Whether a row that is enabled has the path.
abbrev pub has_path : Bool → List NativeRow → String → Bool
has_path testing [] x = false
has_path testing (r ∷ rows) x = (is_enabled testing r && str_eq r.path x) || has_path testing rows x

-- The amounts at the paths of the rows; the others are zero.
abbrev pub mapped : Bool → List NativeRow → NativeParams → NativeParams
mapped testing rows p x = if has_path testing rows x then p x else 0

-- One row: the amount at its path is copied.
set_at-if :
    (p to : NativeParams) (path x : String) (b : Bool)
    → (if b then p x else set_at path (p path) to x) ≡ (if str_eq path x || b then p x else to x)
set_at-if p to path x b = elim (Bool-cases (str_eq path x)) [
  | inl e ↦ let same : p path ≡ p x = ap p ((eq_iff path x).0 e) in rw e (ground (arith, same))
  | inr e ↦ rw e refl
]

copy-native_fields :
    (testing : Bool) (rows : List NativeRow) (p to : NativeParams) (x : String)
    → copy (native_fields testing rows) p to x ≡ (if has_path testing rows x then p x else to x)
copy-native_fields testing [] p to x = refl
copy-native_fields testing (r ∷ rows) p to x = elim (Bool-cases (is_enabled testing r)) [
  | inl e ↦ rw e (
      copy-native_fields testing rows p (set_at r.path (p r.path) to) x
      ∙ set_at-if p to r.path x (has_path testing rows x))
  | inr e ↦ rw e (copy-native_fields testing rows p to x)
]

natives_table-ReadsBack :
    (testing : Bool) (prefix : String) (rows : List NativeRow)
    → ReadsBack (table_on_chain (natives_table testing prefix rows)) (mapped testing rows)
natives_table-ReadsBack testing prefix rows s p h =
    from-copy (natives_table testing prefix rows) s p h
    ∙ ap some (fun_ext (copy-native_fields testing rows p (λ x. 0)))

abbrev pub mapped_natives : Bool → NativeGasParameters → NativeGasParameters
mapped_natives testing p = record {
  move_stdlib = mapped testing MoveStdlib.rows p.move_stdlib;
  aptos_framework = mapped testing AptosFramework.rows p.aptos_framework;
  table = mapped testing TableExtension.rows p.table;
}

natives-ReadsBack : (testing : Bool) → ReadsBack (natives_on_chain testing) (mapped_natives testing)
natives-ReadsBack testing s p h =
    let first = (table_on_chain (MoveStdlib.table testing)).to p.move_stdlib in
    let second = (table_on_chain (AptosFramework.table testing)).to p.aptos_framework in
    let third = (table_on_chain (TableExtension.table testing)).to p.table in
    let (h12, h3) = Holds-append s (first ++ second) third h in
    let (h1, h2) = Holds-append s first second h12 in
    rw
      (
        natives_table-ReadsBack testing "move_stdlib" MoveStdlib.rows s p.move_stdlib h1,
        natives_table-ReadsBack testing "aptos_framework" AptosFramework.rows s p.aptos_framework
            h2,
        natives_table-ReadsBack testing "table" TableExtension.rows s p.table h3,
      )
      refl

module _ (price : ℕ) (testing : Bool) where
  abbrev on_chain : OnChain (AptosGasParameters NativeGasParameters)
  on_chain = aptos_on_chain price (natives_on_chain testing)

  abbrev kept : AptosGasParameters NativeGasParameters → AptosGasParameters NativeGasParameters
  kept p = record p { natives = mapped_natives testing p.natives }

  aptos-ReadsBack : ReadsBack on_chain kept
  aptos-ReadsBack s p h =
      let first = (table_on_chain Table.table).to p.instr in
      let second = (table_on_chain (Txn.table price)).to p.txn in
      let third = (natives_on_chain testing).to p.natives in
      let (h123, h4) = Holds-append s (first ++ second ++ third) (misc_on_chain.to p.misc) h in
      let (h12, h3) = Holds-append s (first ++ second) third h123 in
      let (h1, h2) = Holds-append s first second h12 in
      rw
        (
          misc-ReadsBack s p.misc h4,
          table-ReadsBack Table.table instr-IsComplete s p.instr h1,
          table-ReadsBack (Txn.table price) (txn-IsComplete price) s p.txn h2,
          natives-ReadsBack testing s p.natives h3,
        )
        refl

on_chain-distinct_keys :
    (price : ℕ) (testing : Bool) (p : AptosGasParameters NativeGasParameters)
    → distinct_keys ((on_chain price testing).to p) ≡ true
unfolding to_on_chain_gas_schedule
on_chain-distinct_keys price true p = refl
on_chain-distinct_keys price false p = refl

-- The gas parameters of the chain, whatever their amounts, are written to a schedule from which they
-- are read again without fail, with the feature "testing" or without it: the parameters of values,
-- instructions and transactions are exactly the same, and those of the natives are the same where
-- an enabled row has the path of the field, and zero elsewhere.
pub aptos-roundtrip :
    (price : ℕ) (testing : Bool) (p : AptosGasParameters NativeGasParameters)
    → let c = aptos_on_chain price (natives_on_chain testing) in
      c.from (collect (c.to p)) ≡ some (record p { natives = mapped_natives testing p.natives })
aptos-roundtrip price testing p =
    let entries = (on_chain price testing).to p in
    aptos-ReadsBack price testing (collect entries) p
      (collect-Holds entries (on_chain-distinct_keys price testing p))
