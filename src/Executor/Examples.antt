-- ===== src/Executor/Examples.antt =====
-- Tests of the executor's modules on concrete inputs, and the theorems at concrete inputs.
use mathlib.Core.List.{Memᴰ, filter_map}
use mathlib.Core.List.Memᴰ.{head}
use move_tutorial.Prelude.{
  ℕ, ◌≡◌, ◌↔◌, leb, if◌then◌else◌, refl, arith, Bool, true, false, none, some, List, [], ◌∷◌,
}
use move_tutorial.Prelude.Map.{nat_key, lookup, insert, remove}
use move_tutorial.MvHashMap
use move_tutorial.MvHashMap.{
  Entry, EntryMap, TransactionWrite, flag_done, add_write, delete, range_back, traverse,
}
use move_tutorial.MvHashMap.{from_write}
use move_tutorial.MvHashMap.Examples.{numbers}
use move_tutorial.Aggregator.Delta.{delta_add, delta_sub, apply_to}
use move_tutorial.Executor.{ExecutionStatus, Error, abort, skip_rest, user_error}
use move_tutorial.Prelude.{map, ok}
use move_tutorial.Executor.Block.{block_outputs}
use move_tutorial.Executor.Block.Commit.{block_outputs-commit}
use move_tutorial.Executor.Resolver.{resolve_entries}
use move_tutorial.Executor.Resolver.Values.{Resolved, resolve_entries-serial}
use move_tutorial.Scheduler.{
  Scheduler, no_task, executing, executed, set_executed_status, decrease_execution_idx,
}
use move_tutorial.Scheduler.Tasks.{finish_execution, resume_all, schedule_validation}
use move_tutorial.Executor.{success, ModulePath, TransactionOutput}
use move_tutorial.Executor.LastInputOutput
use move_tutorial.Executor.LastInputOutput.{
  ReadDescriptor, TxnLastInputOutput, append_and_check, check_modules, record_execution,
  modified_keys,
}
use move_tutorial.Executor.LastInputOutput.Race.{
  Execution, runs, modules_written, modules_read-apart,
}
use move_tutorial.Executor.Tasks.{
  Shared, execute, all_valid, apply_writes, apply_deltas, delete_all,
}
use move_tutorial.Executor.Tasks.Validation.{Rereads, all_valid_iff}
use move_tutorial.Executor.Tasks.Tracking.Runs.{Executed}
use move_tutorial.Executor.Tasks.Tracking.{IsTracked, execute-IsTracked}

-- Keys from 100 on are modules; the output of a transaction is its writes.
abbrev paths : ModulePath ℕ ℕ
paths = record { module_path = λ key. if leb 100 key then some key else none }

abbrev writes : TransactionOutput ℕ ℕ (List (ℕ × ℕ))
writes = record { get_writes = λ t. t; get_deltas = λ t. []; skip_output = [] }

abbrev read_of : ℕ → ReadDescriptor ℕ
read_of key = record { access_path = key; kind = LastInputOutput.storage }

-- Transaction 0 reads the module 101, and 1 writes the module 102.
abbrev executions : List (Execution ℕ (List (ℕ × ℕ)) ℕ)
executions =
    record { txn_idx = 0; input = read_of 5 ∷ read_of 101 ∷ []; output = success ((7, 1) ∷ []) }
    ∷ record { txn_idx = 1; input = []; output = success ((102, 1) ∷ []) }
    ∷ []

abbrev recorded : TxnLastInputOutput ℕ (List (ℕ × ℕ)) ℕ ℕ
recorded = record {
  inputs = some (read_of 5 ∷ read_of 101 ∷ []) ∷ some [] ∷ [];
  outputs = some (success ((7, 1) ∷ [])) ∷ some (success ((102, 1) ∷ [])) ∷ [];
  module_writes = (102, tt) ∷ [];
  module_reads = (101, tt) ∷ [];
  module_read_write_intersection = false;
}

modules_read-apart_example : ¬ Memᴰ 101 (modules_written paths writes executions)
unfolding runs record_execution check_modules append_and_check lookup insert filter_map
modules_read-apart_example =
    modules_read-apart paths writes 2 executions recorded refl refl 101 (head refl)

-- Transaction 0 wrote path 7 and is executed again; now it writes path 8.
abbrev scheduler : ℕ → Bool → Scheduler
scheduler active finished = record {
  num_txns = 1;
  execution_idx = 1;
  validation_idx = 0;
  decrease_cnt = 0;
  num_active_tasks = active;
  done_marker = false;
  txn_dependency = [] ∷ [];
  txn_status = (if finished then executed 1 else executing 1) ∷ [];
  condvars = [];
}

abbrev written : ℕ → ℕ → EntryMap ℕ
written incarnation v = (0, record { flag = flag_done; cell = MvHashMap.write incarnation v }) ∷ []

abbrev outputs : List (ℕ × ℕ) → TxnLastInputOutput ℕ (List (ℕ × ℕ)) ℕ ℕ
outputs ws = record {
  inputs = some [] ∷ [];
  outputs = some (success ws) ∷ [];
  module_writes = [];
  module_reads = [];
  module_read_write_intersection = false;
}

abbrev before : Shared ℕ ℕ (List (ℕ × ℕ)) ℕ ℕ
before = record {
  scheduler = scheduler 1 false;
  versioned = (7, written 0 5) ∷ [];
  last_input_output = outputs ((7, 5) ∷ []);
}

abbrev afterwards : Shared ℕ ℕ (List (ℕ × ℕ)) ℕ ℕ
afterwards = record {
  scheduler = scheduler 0 true;
  versioned = (7, []) ∷ (8, written 1 6) ∷ [];
  last_input_output = outputs ((8, 6) ∷ []);
}

executes :
    execute paths writes before (0, 1) (success ((8, 6) ∷ [])) [] ≡ some (no_task, afterwards)
unfolding execute modified_keys apply_writes apply_deltas delete_all delete add_write
    record_execution check_modules append_and_check lookup insert remove filter_map finish_execution
    set_executed_status resume_all schedule_validation decrease_execution_idx
executes = refl

before-IsTracked : IsTracked writes before 0
unfolding modified_keys lookup insert
before-IsTracked = record { only = λ keys ek key absent. ground (arith, ek, absent) }

execute-IsTracked_example :
    IsTracked writes afterwards 0
    × Executed paths writes before afterwards (0, 1) (success ((8, 6) ∷ []))
execute-IsTracked_example =
    execute-IsTracked paths writes before afterwards (0, 1) (success ((8, 6) ∷ [])) [] no_task
      executes before-IsTracked

-- Path 8 was read from storage, before anything wrote it; transaction 1 reads again.
all_valid_iff_example :
    (all_valid numbers before.versioned 1 (read_of 8 ∷ []) ≡ some true)
    ↔ Rereads numbers before.versioned (scheduler 1 false) 1 (read_of 8 ∷ [])
all_valid_iff_example =
    all_valid_iff numbers before.versioned (scheduler 1 false) 1 (read_of 8 ∷ [])

-- After the execution that read is not valid for it.
read_changes : all_valid numbers afterwards.versioned 1 (read_of 8 ∷ []) ≡ some false
unfolding all_valid MvHashMap.read lookup range_back traverse
read_changes = refl

-- At path 9: transaction 0 writes 10, 1 adds 5, 2 takes 3.
abbrev deltas : EntryMap ℕ
deltas =
    (0, record { flag = flag_done; cell = MvHashMap.write 0 10 })
    ∷ (1, record { flag = flag_done; cell = MvHashMap.delta (delta_add 5 100) })
    ∷ (2, record { flag = flag_done; cell = MvHashMap.delta (delta_sub 3 100) })
    ∷ []

abbrev path : ℕ
path = 9

resolves :
    resolve_entries numbers path deltas (some 50) ([] ∷ [] ∷ [] ∷ [])
    ≡ some ([] ∷ ((9, 15) ∷ []) ∷ ((9, 12) ∷ []) ∷ [])
unfolding resolve_entries from_write apply_to
resolves = refl

resolve_entries-serial_example :
    Resolved numbers (some 50) path deltas [] ([] ∷ ((9, 15) ∷ []) ∷ ((9, 12) ∷ []) ∷ []) 2
unfolding lookup
resolve_entries-serial_example =
    resolve_entries-serial numbers (some 50) path deltas ([] ∷ [] ∷ [] ∷ [])
      ([] ∷ ((9, 15) ∷ []) ∷ ((9, 12) ∷ []) ∷ []) 2
      (record { flag = flag_done; cell = MvHashMap.delta (delta_sub 3 100) }) (delta_sub 3 100)
      (refl, (refl, (refl, tt))) ((refl, (refl, tt)), ((refl, tt), (tt, tt))) resolves refl refl

-- The second transaction skips the third, which aborted.
abbrev statuses : List (ExecutionStatus (List (ℕ × ℕ)) (Error ℕ))
statuses = success ((7, 1) ∷ []) ∷ skip_rest ((8, 2) ∷ []) ∷ abort (user_error 5) ∷ []

abbrev block_recorded : TxnLastInputOutput ℕ (List (ℕ × ℕ)) ℕ ℕ
block_recorded = record {
  inputs = some [] ∷ some [] ∷ some [] ∷ [];
  outputs = map (λ x. some x) statuses;
  module_writes = [];
  module_reads = [];
  module_read_write_intersection = false;
}

block_outputs-commit_example :
    block_outputs writes 3 block_recorded ≡ some (ok (((7, 1) ∷ []) ∷ ((8, 2) ∷ []) ∷ [] ∷ []))
block_outputs-commit_example = block_outputs-commit writes statuses block_recorded refl refl
