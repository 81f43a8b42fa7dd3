-- ===== src/Gas/Params.antt =====
-- The gas parameters of aptos-gas/src/gas_meter.rs, and how they are read from the on-chain schedule
-- and written to it.
pub mod Misc
pub mod Txn
pub mod Instr
pub mod Natives
pub mod Roundtrip
use Prim.Native.String.{String}
use move_tutorial.Prelude.{ℕ, Bool, Option, some, List, ◌++◌}
use move_tutorial.Prelude.Options.{◌>>=◌}
use move_tutorial.Gas.Schedule.{
  GasSchedule, ParamsTable, initial, from_on_chain_gas_schedule, to_on_chain_gas_schedule,
}
use move_tutorial.Gas.Params.Misc
use move_tutorial.Gas.Params.Natives.{NativeParams}
use move_tutorial.Gas.Params.Natives.MoveStdlib
use move_tutorial.Gas.Params.Natives.AptosFramework
use move_tutorial.Gas.Params.Natives.TableExtension
use move_tutorial.Gas.Params.Txn
use move_tutorial.Gas.Params.Instr.Table
use move_tutorial.Gas.Params.Misc.{MiscGasParameters}
use move_tutorial.Gas.Params.Txn.{TransactionGasParameters}
use move_tutorial.Gas.Params.Instr.{InstructionGasParameters}

-- The traits `FromOnChainGasSchedule` and `ToOnChainGasSchedule`.
pub record OnChain (P : Type 0) : Type 0 where
  pub from : GasSchedule → Option P
  pub to : P → List (String × ℕ)

abbrev pub table_on_chain : {P : Type 0} → ParamsTable P → OnChain P
table_on_chain table = record {
  from = from_on_chain_gas_schedule table;
  to = to_on_chain_gas_schedule table;
}

abbrev pub misc_on_chain : OnChain MiscGasParameters
misc_on_chain = record {
  from = λ s. do
    abs_val ← (table_on_chain Misc.table).from s
    some (record { abs_val = abs_val });
  to = λ p. (table_on_chain Misc.table).to p.abs_val;
}

pub record NativeGasParameters : Type 0 where
  pub move_stdlib : NativeParams
  pub aptos_framework : NativeParams
  pub table : NativeParams

-- The argument says whether the feature "testing" is on.
abbrev pub natives_on_chain : Bool → OnChain NativeGasParameters
natives_on_chain testing = record {
  from = λ s. do
    move_stdlib ← (table_on_chain (MoveStdlib.table testing)).from s
    aptos_framework ← (table_on_chain (AptosFramework.table testing)).from s
    table ← (table_on_chain (TableExtension.table testing)).from s
    some (record { move_stdlib = move_stdlib; aptos_framework = aptos_framework; table = table });
  to = λ p.
      (table_on_chain (MoveStdlib.table testing)).to p.move_stdlib
      ++ (table_on_chain (AptosFramework.table testing)).to p.aptos_framework
      ++ (table_on_chain (TableExtension.table testing)).to p.table;
}

abbrev pub initial_natives : Bool → NativeGasParameters
initial_natives testing = record {
  move_stdlib = initial (MoveStdlib.table testing);
  aptos_framework = initial (AptosFramework.table testing);
  table = initial (TableExtension.table testing);
}

pub record AptosGasParameters (N : Type 0) : Type 0 where
  pub misc : MiscGasParameters
  pub instr : InstructionGasParameters
  pub txn : TransactionGasParameters
  pub natives : N

module _ {N : Type 0} where
  abbrev pub aptos_on_chain : ℕ → OnChain N → OnChain (AptosGasParameters N)
  aptos_on_chain gas_unit_price natives = record {
    from = λ s. do
      misc ← misc_on_chain.from s
      instr ← (table_on_chain Table.table).from s
      txn ← (table_on_chain (Txn.table gas_unit_price)).from s
      n ← natives.from s
      some (record { misc = misc; instr = instr; txn = txn; natives = n });
    to = λ p.
        (table_on_chain Table.table).to p.instr
        ++ (table_on_chain (Txn.table gas_unit_price)).to p.txn
        ++ natives.to p.natives
        ++ misc_on_chain.to p.misc;
  }
