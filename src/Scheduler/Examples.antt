-- ===== src/Scheduler/Examples.antt =====
-- Tests of the scheduler on concrete inputs, and the theorems at concrete inputs.
use move_tutorial.Prelude.{arith}
use move_tutorial.Scheduler.Tasks.{next_task}
use move_tutorial.Scheduler.Progress.{IsLone, Returns, next_task-Returns}
use move_tutorial.Prelude.{
  ℕ, ◌≤◌, ◌≡◌, ◌≢◌, ◌⊎◌, if◌then◌else◌, refl, Bool, true, false, none, some, List, [], ◌∷◌,
}
use move_tutorial.Scheduler
use move_tutorial.Scheduler.{
  TransactionStatus, ready_to_execute, executing, suspended, executed, aborting, SchedulerTask,
  execution_task, validation_task, no_task, done, Scheduler, try_abort, try_incarnate, is_executed,
  suspend, resume, set_executed_status, set_aborted_status, decrease_execution_idx,
  decrease_validation_idx,
}
use move_tutorial.Scheduler.Tasks.{
  check_done, try_validate_next_version, try_execute_next_version, next_round, wait_for_dependency,
  resume_all, schedule_validation, finish_execution, finish_abort,
}
use move_tutorial.Scheduler.Diagram.{Evolves}
use move_tutorial.Scheduler.Actions.{
  Action, asks, waits, finishes, finishes_abort, act, acts, acts-Evolves,
}
use move_tutorial.Scheduler.Versions.{progress, acts-progress, try_abort_once}
use move_tutorial.Scheduler.Work.{finish_execution-validation_idx, finish_abort-reach}

-- Transaction 0 is taken, a look for a validation is in vain, 1 is taken, waits for 0, and is
-- resumed when 0 finishes.
abbrev calls : List Action
calls = asks ∷ asks ∷ asks ∷ waits 1 0 ∷ finishes 0 0 true ∷ []

abbrev after_calls : Scheduler
after_calls = record {
  num_txns = 2;
  execution_idx = 1;
  validation_idx = 0;
  decrease_cnt = 2;
  num_active_tasks = 1;
  done_marker = false;
  txn_dependency = [] ∷ [] ∷ [];
  txn_status = executed 0 ∷ ready_to_execute 0 (some 0) ∷ [];
  condvars = false ∷ [];
}

run : acts (Scheduler.new 2) calls ≡ some after_calls
unfolding acts act Scheduler.new next_round try_validate_next_version try_execute_next_version
    check_done try_incarnate is_executed suspend resume wait_for_dependency resume_all
    finish_execution set_executed_status decrease_execution_idx decrease_validation_idx
    schedule_validation
run = refl

acts-Evolves_example : Evolves (Scheduler.new 2) after_calls
acts-Evolves_example = acts-Evolves calls (Scheduler.new 2) after_calls run

acts-progress_example : progress (ready_to_execute 0 none) ≤ progress (executed 0)
unfolding Scheduler.new
acts-progress_example =
    acts-progress calls (Scheduler.new 2) after_calls 0 (ready_to_execute 0 none) (executed 0) run
      refl refl

-- One transaction, executed; its validation aborts it.
abbrev one : ℕ → Bool → TransactionStatus → Scheduler
one active reached status = record {
  num_txns = 1;
  execution_idx = 1;
  validation_idx = if reached then 1 else 0;
  decrease_cnt = 0;
  num_active_tasks = active;
  done_marker = false;
  txn_dependency = [] ∷ [];
  txn_status = status ∷ [];
  condvars = [];
}

aborted : try_abort (one 1 true (executed 0)) 0 0 ≡ some (true, one 1 true (aborting 0))
unfolding try_abort
aborted = refl

again :
    acts (one 1 true (aborting 0)) (finishes_abort 0 0 ∷ finishes 0 1 false ∷ [])
    ≡ some (one 1 true (executed 1))
unfolding acts act finish_abort set_aborted_status decrease_validation_idx try_incarnate
    finish_execution set_executed_status resume_all decrease_execution_idx schedule_validation
again = refl

try_abort_once_example :
    try_abort (one 1 true (executed 1)) 0 0 ≢ some (true, one 1 true (aborting 0))
try_abort_once_example =
    try_abort_once (finishes_abort 0 0 ∷ finishes 0 1 false ∷ []) (one 1 true (executed 0))
      (one 1 true (aborting 0)) (one 1 true (executed 1)) (one 1 true (aborting 0)) 0 0 aborted
      again

finish_execution-validation_idx_example :
    ((one 1 true (executed 0)).validation_idx ≤ 0)
    ⊎ ((false ≡ false) × (validation_task (0, 0) ≡ validation_task (0, 0)))
unfolding finish_execution set_executed_status resume_all decrease_execution_idx schedule_validation
finish_execution-validation_idx_example =
    finish_execution-validation_idx (one 1 true (executing 0)) (one 1 true (executed 0)) 0 0 false
      (validation_task (0, 0)) refl

finish_abort-reach_example :
    ((one 1 true (executing 1)).validation_idx ≤ 1)
    × (((1 ≤ 0) × (some (executing 1) ≡ some (ready_to_execute 1 none)))
        ⊎ ((execution_task (0, 1) none ≡ execution_task (0, 1) none)
            × (some (executing 1) ≡ some (executing 1))))
unfolding finish_abort set_aborted_status decrease_validation_idx try_incarnate
finish_abort-reach_example =
    finish_abort-reach (one 1 true (aborting 0)) (one 1 true (executing 1)) 0 0
      (execution_task (0, 1) none) refl

fresh-IsLone : IsLone (Scheduler.new 2)
unfolding Scheduler.new
fresh-IsLone = record {
  idle = refl;
  execution = omega arith;
  validation = omega arith;
  small = omega arith;
}

next_task-Returns_example : Returns (next_task 6 (Scheduler.new 2))
unfolding Scheduler.new
next_task-Returns_example = next_task-Returns 6 (Scheduler.new 2) fresh-IsLone (omega arith)
