-- ===== src/Lib.antt =====
-- Verification library of the aptos-move tree of this repository: the parts that execute a block
-- of transactions in parallel, the sums that transactions add to without a conflict, and the meter
-- that charges a transaction for gas and memory. The code
-- is Rust, under move-tut005/deps/aptos-move/, a path that is left out below.
--
-- The program's parts. A transaction works on *aggregators*, numbers with a limit, through the
-- native functions of framework/src/natives/aggregator_natives. An aggregator that the transaction
-- has not read holds only a delta, with the extreme values that the delta went through
-- (aptos-aggregator/src/aggregator_extension.rs). At the end of a session each delta is exported
-- as a `DeltaOp` (aptos-aggregator/src/delta_change_set.rs) in a change set (context.rs). In
-- parallel execution the writes and the deltas of all transactions go to a multi-version store
-- (mvhashmap/src/lib.rs), where a read of transaction i merges the deltas below i down to a write.
-- The scheduler (parallel-executor/src/scheduler.rs) hands out the versions to execute and to
-- validate, and the executor (parallel-executor/src/executor.rs) runs them: it puts what a version
-- wrote in the store, notes what it read (txn_last_input_output.rs), and validates by reading
-- again. At the end of the block the deltas that are left are resolved (output_delta_resolver.rs).
-- While a transaction runs, the virtual machine calls the gas meter (aptos-gas/src/gas_meter.rs)
-- for every instruction. The meter takes prices from the gas parameters (instr.rs, transaction.rs),
-- which are read from the on-chain schedule (params.rs), and sizes of values from misc.rs.
--
-- Which file models which part:
--   * Prelude and Prelude/: Boolean tests, native lists, results and failures, sorted maps. `Map`
--     is a list sorted by key, for `BTreeMap` and `BTreeSet`; a `DashMap` is such a map too, as
--     its order is never looked at.
--   * Aggregator/Delta: delta_change_set.rs, `DeltaOp` with `apply_to` and `merge_onto`,
--     `addition`, `subtraction`. Delta/Apply, Delta/Merge and Merge/Cases hold the proofs.
--   * Aggregator/Extension: `Aggregator` of aggregator_extension.rs; the methods that take `&mut
--     self` return the new aggregator. Extension/Refinement and Refinement/Steps compare it with
--     a counter.
--   * Aggregator/Registry: `AggregatorData` of the same file. Registry/Laws: creation, then
--     removal.
--   * Aggregator/Natives: aggregator.rs and aggregator_factory.rs. Natives/Sound: what every
--     native keeps. Natives/Session: sequences of calls. Natives/Keys: the keys of new
--     aggregators.
--   * Aggregator/Changes: context.rs, `into_change_set` and `squash`. Changes/Export and
--     Changes/Effects: what a change does to storage.
--   * Aggregator/Deltas: `DeltaChangeSet` of delta_change_set.rs; a method there is named after the
--     type where its own name is too short (`insert` is `insert_delta`).
--   * Aggregator/Squash: `ChangeSetExt` of aptos-aggregator/src/transaction.rs (`squash` is
--     `squash_ext`). Squash/Stored and Squash/Writes: the writes as what they leave in storage;
--     Squash/Disjoint: writes and deltas at one key.
--   * Aggregator/Output: `TransactionOutputExt` of the same file, with `try_into_write_op` and
--     `try_into_write_set_mut` of delta_change_set.rs. Output/Paths: the two ways to an output
--     without deltas.
--   * MvHashMap: mvhashmap/src/lib.rs, and `from_write` of aptos-aggregator/src/transaction.rs.
--     MvHashMap/Serial with Serial/Deltas and Serial/Agreement: the serial run of the entries.
--     MvHashMap/Range, Visibility and Nearest: which updates a read sees.
--   * Scheduler: scheduler.rs, the methods on one status or index; Scheduler/Tasks: the methods
--     that hand out tasks. Scheduler/Diagram, Evolution and Actions: the status diagram, and any
--     calls in any order. Scheduler/Versions, Work and Progress: versions, the work that is left
--     after a task, and the loop of `next_task`.
--   * Executor: the types of parallel-executor/src/task.rs and errors.rs.
--     Executor/LastInputOutput: txn_last_input_output.rs (the method `record` is
--     `record_execution`), with the proof on modules in LastInputOutput/Race and Race/Sets.
--     Executor/View: a round of `MVHashMapView::read` of executor.rs. Executor/Tasks: `execute`
--     and `validate` of executor.rs. Tasks/Validation: what a validation that succeeds says;
--     Tasks/Tracking and Tracking/Entries, Contents, Deletions and Runs: which entries an
--     execution leaves. Executor/Block: the outputs of a block, at the end of executor.rs;
--     Block/Commit compares them with the statuses. Executor/Resolver:
--     output_delta_resolver.rs; Resolver/Rows, Contents and Values compare it with the serial
--     run.
--   * Gas/Algebra: the quantities of aptos-gas/src/algebra.rs and their parameter, the arithmetic;
--     Algebra/Laws: sums and products that stop at the largest number.
--   * Gas/Schedule: the macro of params.rs, for any list of rows; Schedule/Roundtrip: schedules
--     with distinct keys. Gas/Params: `AptosGasParameters` of gas_meter.rs with Params/Misc,
--     Params/Txn, Params/Instr and Instr/Table, the rows of misc.rs, transaction.rs and
--     instr.rs (and `simple_instr_cost`). Params/Natives: the macro of natives.rs, with
--     Natives/MoveStdlib, AptosFramework and TableExtension, the rows of move_stdlib.rs,
--     aptos_framework.rs and table.rs. A parameter structure of natives is the amounts at the
--     paths of its fields, since most are declared elsewhere; the argument `testing` says
--     whether the feature "testing" is on. Params/Roundtrip: all parameters together.
--   * Gas/Views: the trait of visitors that misc.rs implements. Gas/Sizes: the visitors of
--     misc.rs and the sizes that they give; Sizes/Spec: the same sizes as sums over the parts
--     of a value, which Sizes/Visits, Sizes/Deref and Sizes/Pack compare with the visitors.
--   * Gas/Transaction: the functions of transaction.rs; `calculate_storage_gas` is
--     `StorageGasParameters::calculate_write_set_gas`. Transaction/WriteSet, EarlyWriteSet and
--     Intrinsic hold the proofs.
--   * Gas/Meter: `AptosGasMeter` of gas_meter.rs, with `charge`, `use_heap_memory` and
--     `release_heap_memory`; Meter/Charges and Meter/Values: the methods of the trait
--     `GasMeter`, and the charges for a whole transaction. Meter/Requests: the calls of the
--     trait as data, and sequences of them. Meter/Effect with Effect/Steps, Sized, Values and
--     Calls, and Meter/Refinement: each call as three numbers. Meter/Kept, Kept/After,
--     Kept/Compared, Budget, Budget/Sequences, Exhausted, Memory, TableMark and Start:
--     sequences of calls.
--   * Aggregator/Examples with Examples/ChangeSets, MvHashMap/Examples, Scheduler/Examples,
--     Executor/Examples, Gas/Examples: tests on concrete inputs.
--
-- Numbers. A `u128` and a `usize` is a natural number. The one unchecked addition on `u128`, in
-- `addition`, is taken modulo 2^128, `fetch_add` on a `usize` modulo 2^64; the subtractions of the
-- source stand behind their tests. A limit that a theorem calls in range is below 2^128. Quantities
-- of gas and memory are `u64`; `clamp` cuts a number at 2^64 - 1.
--
-- Panics and errors. An error of the virtual machine is `raised`, a panic is `panic` or, in
-- MvHashMap, Scheduler, Executor and the sizes and prices of Gas, `none`. A method of the gas meter
-- gives back the meter with its result, since a charge stays after an error. A change set that
-- cannot be squashed is a `SquashError`, without its text; an output is a status or a panic,
-- `Stop`. Debug assertions of the scheduler are checked.
--
-- Loops. The loop of `MVHashMap::read` is recursion on the entries below the reader. `next_task`
-- takes the number of rounds; the theorems on sequences of calls speak of single rounds,
-- `next_round`, so none rests on that number, and Scheduler/Progress is about that number. The
-- loop of `MVHashMapView::read` is modelled one round at a time, since other threads change the
-- store between rounds.
--
-- Concurrency. Every method of `MVHashMap` holds the lock of its path, so a method is one step. A
-- method of the scheduler is one step as well, and the threads call methods in any order; what
-- happens when two methods of the scheduler interleave is not modelled. `execute`, after the
-- virtual machine has returned, and `validate` are one step each, and so is a call of `record`.
--
-- Parameters. The table resolver, the bytes of a write and `bcs` (`Storage`,
-- `TransactionWrite`), and the hash that makes the key of a new aggregator (`key_of`). The
-- result of the virtual machine and the reads it made are arguments of `execute`; the traits on
-- keys and outputs are records of operations. For the gas meter: the arithmetic of gas
-- quantities (`GasAlgebra`; theorems take it to saturate, `IsSaturating`), how a value of the
-- virtual machine is visited (`ValueView`; theorems take it to be visited as a shape says,
-- `IsShaped`), the size and the bytes of a state key (`StateKey`), and the constants
-- `CORE_CODE_ADDRESS` and `GAS_UNIT_PRICE`. For change sets: bcs on numbers, and what `freeze`
-- and `ChangeSet::new` refuse (`Encoding`); the write sets and statuses of `aptos_types`
-- (`Platform`; a theorem takes a write set to have as many writes as it is made of,
-- `CountsWrites`).
--
-- Not modelled: reading the Move arguments of a native, the gas that natives charge, message
-- texts, printing, metrics, the worker loop and its threads, and the other crates of the tree,
-- which call the Move virtual machine, do I/O, generate code or test.
mod Prelude
pub mod Aggregator
pub mod MvHashMap
pub mod Scheduler
pub mod Executor
pub mod Gas
