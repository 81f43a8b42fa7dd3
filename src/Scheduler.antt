-- ===== src/Scheduler.antt =====
-- parallel-executor/src/scheduler.rs: which transaction a thread executes or validates next. Each
-- method is a function of the shared state, as one thread at a time runs it; `none` is a panic, and
-- debug assertions are checked.
pub mod Tasks
pub mod Diagram
pub mod Evolution
pub mod Actions
pub mod Versions
pub mod Work
pub mod Progress
pub mod Examples
use move_tutorial.Prelude.{
  ℕ, ◌+◌, ◌-◌, ◌%◌, ◌^◌, min, Bool, true, false, not, ◌&&◌, ◌||◌, ltb, leb, ◌==◌, if◌then◌else◌,
  Option, none, some, List, [], ◌∷◌, ◌++◌, length, get_elem?, set, replicate,
}

abbrev pub TxnIndex : Type 0
TxnIndex = ℕ

abbrev pub Incarnation : Type 0
Incarnation = ℕ

abbrev pub Version : Type 0
Version = TxnIndex × Incarnation

-- The address of a `(Mutex<bool>, Condvar)`, in the list `condvars` of the state.
abbrev pub DependencyCondvar : Type 0
DependencyCondvar = ℕ

pub data TransactionStatus : Type 0 where
  ready_to_execute : Incarnation → Option DependencyCondvar → TransactionStatus
  executing : Incarnation → TransactionStatus
  suspended : Incarnation → DependencyCondvar → TransactionStatus
  executed : Incarnation → TransactionStatus
  aborting : Incarnation → TransactionStatus

-- Each task but the last two carries a guard, which is one in `num_active_tasks`.
pub data SchedulerTask : Type 0 where
  execution_task : Version → Option DependencyCondvar → SchedulerTask
  validation_task : Version → SchedulerTask
  no_task done : SchedulerTask

pub record Scheduler : Type 0 where
  pub num_txns : ℕ
  pub execution_idx : ℕ
  pub validation_idx : ℕ
  pub decrease_cnt : ℕ
  pub num_active_tasks : ℕ
  pub done_marker : Bool
  pub txn_dependency : List (List TxnIndex)
  pub txn_status : List TransactionStatus
  pub condvars : List Bool

-- `fetch_add` on an `AtomicUsize`, which wraps around.
abbrev pub add_usize : ℕ → ℕ → ℕ
add_usize a b = (a + b) % 2 ^ 64

-- `Scheduler::new`.
unfoldable pub new : ℕ → Scheduler
new n = record {
  num_txns = n;
  execution_idx = 0;
  validation_idx = 0;
  decrease_cnt = 0;
  num_active_tasks = 0;
  done_marker = false;
  txn_dependency = replicate n [];
  txn_status = replicate n (ready_to_execute 0 none);
  condvars = [];
}

-- `TaskGuard::new`.
abbrev pub new_guard : Scheduler → Scheduler
new_guard s = record s { num_active_tasks = add_usize s.num_active_tasks 1 }

-- `TaskGuard::drop`: the counter must have been positive.
abbrev pub drop_guard : Scheduler → Option Scheduler
drop_guard s =
    if ltb 0 s.num_active_tasks
    then some (record s { num_active_tasks = s.num_active_tasks - 1 })
    else none

abbrev pub set_status : Scheduler → TxnIndex → TransactionStatus → Scheduler
set_status s i status = record s { txn_status = set s.txn_status i status }

-- `==` of `TransactionStatus` with a status that holds no condition variable.
abbrev pub is_executed_at : TransactionStatus → Incarnation → Bool
is_executed_at (executed j) i = j == i
is_executed_at _ i = false

abbrev pub is_executing_at : TransactionStatus → Incarnation → Bool
is_executing_at (executing j) i = j == i
is_executing_at _ i = false

abbrev pub is_aborting_at : TransactionStatus → Incarnation → Bool
is_aborting_at (aborting j) i = j == i
is_aborting_at _ i = false

unfoldable pub decrease_validation_idx : Scheduler → TxnIndex → Scheduler
decrease_validation_idx s target =
    if ltb target s.validation_idx
    then record s { validation_idx = target; decrease_cnt = add_usize s.decrease_cnt 1 }
    else s

unfoldable pub decrease_execution_idx : Scheduler → TxnIndex → Scheduler
decrease_execution_idx s target =
    if ltb target s.execution_idx
    then record s { execution_idx = target; decrease_cnt = add_usize s.decrease_cnt 1 }
    else s

abbrev pub try_abort_at :
    Scheduler → TxnIndex → Incarnation → Option TransactionStatus → Option (Bool × Scheduler)
try_abort_at s i incarnation none = none
try_abort_at s i incarnation (some status) =
    if is_executed_at status incarnation
    then some (true, set_status s i (aborting incarnation))
    else some (false, s)

unfoldable pub try_abort : Scheduler → TxnIndex → Incarnation → Option (Bool × Scheduler)
try_abort s i incarnation = try_abort_at s i incarnation (get_elem? s.txn_status i)

-- An index out of bounds has no status: the test against `txn_status.len()`.
abbrev pub incarnate_at :
    Scheduler
    → TxnIndex
    → Option TransactionStatus
    → Option (Incarnation × Option DependencyCondvar) × Scheduler
incarnate_at s i (some (ready_to_execute incarnation condvar)) =
    (some (incarnation, condvar), set_status s i (executing incarnation))
incarnate_at s i _ = (none, s)

unfoldable pub try_incarnate :
    Scheduler → TxnIndex → Option (Incarnation × Option DependencyCondvar) × Scheduler
try_incarnate s i = incarnate_at s i (get_elem? s.txn_status i)

abbrev pub executed_incarnation : Option TransactionStatus → Option Incarnation
executed_incarnation (some (executed incarnation)) = some incarnation
executed_incarnation _ = none

unfoldable pub is_executed : Scheduler → TxnIndex → Option Incarnation
is_executed s i = executed_incarnation (get_elem? s.txn_status i)

abbrev pub suspend_at :
    Scheduler → TxnIndex → DependencyCondvar → Option TransactionStatus → Option Scheduler
suspend_at s i condvar (some (executing incarnation)) =
    some (set_status s i (suspended incarnation condvar))
suspend_at s i condvar _ = none

unfoldable pub suspend : Scheduler → TxnIndex → DependencyCondvar → Option Scheduler
suspend s i condvar = suspend_at s i condvar (get_elem? s.txn_status i)

abbrev pub resume_at : Scheduler → TxnIndex → Option TransactionStatus → Option Scheduler
resume_at s i (some (suspended incarnation condvar)) =
    some (set_status s i (ready_to_execute incarnation (some condvar)))
resume_at s i _ = none

unfoldable pub resume : Scheduler → TxnIndex → Option Scheduler
resume s i = resume_at s i (get_elem? s.txn_status i)

abbrev pub executed_at :
    Scheduler → TxnIndex → Incarnation → Option TransactionStatus → Option Scheduler
executed_at s i incarnation none = none
executed_at s i incarnation (some status) =
    if is_executing_at status incarnation
    then some (set_status s i (executed incarnation))
    else none

unfoldable pub set_executed_status : Scheduler → TxnIndex → Incarnation → Option Scheduler
set_executed_status s i incarnation = executed_at s i incarnation (get_elem? s.txn_status i)

abbrev pub aborted_at :
    Scheduler → TxnIndex → Incarnation → Option TransactionStatus → Option Scheduler
aborted_at s i incarnation none = none
aborted_at s i incarnation (some status) =
    if is_aborting_at status incarnation
    then some (set_status s i (ready_to_execute (incarnation + 1) none))
    else none

unfoldable pub set_aborted_status : Scheduler → TxnIndex → Incarnation → Option Scheduler
set_aborted_status s i incarnation = aborted_at s i incarnation (get_elem? s.txn_status i)
