-- ===== src/Executor/Block.antt =====
-- The end of `execute_transactions_parallel` of parallel-executor/src/executor.rs: the outputs of a
-- block, from what its transactions recorded last.
pub mod Commit
use move_tutorial.Prelude.{
  ℕ, zero, suc, ◌+◌, Bool, true, false, if◌then◌else◌, Option, none, some, Result, ok, err, List,
  [], ◌∷◌,
}
use move_tutorial.Prelude.Options.{◌>>=◌}
use move_tutorial.Executor.{
  ExecutionStatus, success, abort, skip_rest, Error, module_path_read_write, TransactionOutput,
}
use move_tutorial.Executor.LastInputOutput.{TxnLastInputOutput, take_output}

module _ {K T E P : Type 0} where
  -- The `match` of the loop; `next` is the rest of the loop.
  abbrev pub push_status :
      (TxnLastInputOutput K T E P → Option (List T × Option (Error E)))
      → ExecutionStatus T (Error E) × TxnLastInputOutput K T E P
      → Option (List T × Option (Error E))
  push_status next (success t, s) = do rest ← next s; some (t ∷ rest.0, rest.1)
  push_status next (skip_rest t, s) = some (t ∷ [], none)
  push_status next (abort e, s) = some ([], some e)

  -- `final_results` and `ret` after so many rounds of `for idx in 0..num_txns`, from `idx` on.
  unfoldable pub final_results :
      ℕ → ℕ → TxnLastInputOutput K T E P → Option (List T × Option (Error E))
  unfolding take_output
  final_results zero idx s = some ([], none)
  final_results (suc rounds) idx s =
      take_output s idx >>= push_status (final_results rounds (idx + 1))

-- `resize_with`.
abbrev pub resize_with {ℓ} : {A : Type ℓ} → List A → ℕ → A → List A
resize_with xs zero a = []
resize_with [] (suc n) a = a ∷ resize_with [] n a
resize_with (x ∷ xs) (suc n) a = x ∷ resize_with xs n a

-- `match maybe_err`.
abbrev pub finish :
    {K V T E : Type 0}
    → TransactionOutput K V T
    → ℕ
    → List T × Option (Error E)
    → Result (Error E) (List T)
finish out num_txns (results, some e) = err e
finish out num_txns (results, none) = ok (resize_with results num_txns out.skip_output)

module _ {K V T E P : Type 0} (out : TransactionOutput K V T) where
  abbrev pub outputs_unless :
      Bool → ℕ → TxnLastInputOutput K T E P → Option (Result (Error E) (List T))
  outputs_unless true num_txns s = some (err module_path_read_write)
  outputs_unless false num_txns s = do
    collected ← final_results num_txns 0 s
    some (finish out num_txns collected)

  unfoldable pub block_outputs : ℕ → TxnLastInputOutput K T E P → Option (Result (Error E) (List T))
  unfolding final_results
  block_outputs num_txns s = outputs_unless s.module_read_write_intersection num_txns s
