-- ===== src/Executor.antt =====
-- parallel-executor: what its worker threads do with the tasks of the scheduler. The types of
-- task.rs and errors.rs; the traits are records of operations.
pub mod LastInputOutput
pub mod View
pub mod Tasks
pub mod Resolver
pub mod Block
pub mod Examples
use move_tutorial.Prelude.{Option, List}
use move_tutorial.Aggregator.Delta.{DeltaOp}

pub data ExecutionStatus (T E : Type 0) : Type 0 where
  success : T → ExecutionStatus T E
  abort : E → ExecutionStatus T E
  skip_rest : T → ExecutionStatus T E

pub data Error (E : Type 0) : Type 0 where
  invariant_violation module_path_read_write : Error E
  user_error : E → Error E

-- `ModulePath` of the keys K; P are the access paths of modules.
pub record ModulePath (K P : Type 0) : Type 0 where
  pub module_path : K → Option P

pub record TransactionOutput (K V T : Type 0) : Type 0 where
  pub get_writes : T → List (K × V)
  pub get_deltas : T → List (K × DeltaOp)
  pub skip_output : T
