-- ===== src/Scheduler/Tasks.antt =====
-- parallel-executor/src/scheduler.rs: the methods that hand out tasks and take them back. The
-- methods on statuses and indices are in the parent.
use move_tutorial.Prelude.{
  ℕ, ◌+◌, min, Bool, true, false, ◌||◌, ltb, leb, if◌then◌else◌, Option, none, some, List, [], ◌∷◌,
  ◌++◌, length, get_elem?, set, suc, zero,
}
use move_tutorial.Prelude.Options.{◌>>=◌}
use move_tutorial.Scheduler.{
  TxnIndex, Incarnation, Version, DependencyCondvar, SchedulerTask, execution_task, validation_task,
  no_task, done, Scheduler, add_usize, new_guard, drop_guard, decrease_validation_idx,
  decrease_execution_idx, is_executed, try_incarnate, suspend, resume, set_executed_status,
  set_aborted_status,
}

-- The two reads of `decrease_cnt` agree, as no other thread runs between them.
unfoldable pub check_done : Scheduler → Bool × Scheduler
check_done s =
    if ltb (min s.execution_idx s.validation_idx) s.num_txns || ltb 0 s.num_active_tasks
    then (false, s)
    else (true, record s { done_marker = true })

-- A result, or no result and the guard dropped.
abbrev pub keep_or_drop {ℓ} : {A : Type ℓ} → Option A → Scheduler → Option (Option A × Scheduler)
keep_or_drop (some a) s = some (some a, s)
keep_or_drop none s = do s' ← drop_guard s; some (none, s')

abbrev pub with_index : TxnIndex → Option Incarnation → Option Version
with_index i none = none
with_index i (some incarnation) = some (i, incarnation)

unfoldable pub try_validate_next_version : Scheduler → Option (Option Version × Scheduler)
unfolding check_done
try_validate_next_version s =
    if leb s.num_txns s.validation_idx
    then some (none, (check_done s).1)
    else let i = s.validation_idx in
      let s' = record (new_guard s) { validation_idx = add_usize i 1 } in
      keep_or_drop (with_index i (is_executed s' i)) s'

abbrev pub with_condvar :
    TxnIndex
    → Option (Incarnation × Option DependencyCondvar)
    → Option (Version × Option DependencyCondvar)
with_condvar i none = none
with_condvar i (some (incarnation, condvar)) = some ((i, incarnation), condvar)

unfoldable pub try_execute_next_version :
    Scheduler → Option (Option (Version × Option DependencyCondvar) × Scheduler)
unfolding check_done
try_execute_next_version s =
    if leb s.num_txns s.execution_idx
    then some (none, (check_done s).1)
    else let i = s.execution_idx in
      let s' = record (new_guard s) { execution_idx = add_usize i 1 } in
      let (incarnated, s'') = try_incarnate s' i in keep_or_drop (with_condvar i incarnated) s''

abbrev pub validation_of : Option Version × Scheduler → Option SchedulerTask × Scheduler
validation_of (none, s) = (none, s)
validation_of (some version, s) = (some (validation_task version), s)

abbrev pub execution_of :
    Option (Version × Option DependencyCondvar) × Scheduler → Option SchedulerTask × Scheduler
execution_of (none, s) = (none, s)
execution_of (some (version, condvar), s) = (some (execution_task version condvar), s)

-- The tests of a round: is the marker set, and is validation behind execution?
abbrev pub round_of : Scheduler → Bool → Bool → Option (Option SchedulerTask × Scheduler)
round_of s true behind = some (some done, s)
round_of s false true = do r ← try_validate_next_version s; some (validation_of r)
round_of s false false = do r ← try_execute_next_version s; some (execution_of r)

-- One round of the loop of `next_task`: a task to return, or none.
unfoldable pub next_round : Scheduler → Option (Option SchedulerTask × Scheduler)
next_round s = round_of s s.done_marker (ltb s.validation_idx s.execution_idx)

-- `next_task`, for so many rounds at most: `no_task`, if none of them returns.
unfoldable pub next_task : ℕ → Scheduler → Option (SchedulerTask × Scheduler)
unfolding next_round
next_task zero s = some (no_task, s)
next_task (suc fuel) s = elim (next_round s) [
  | none ↦ none
  | some (some task, s') ↦ some (task, s')
  | some (none, s') ↦ next_task fuel s'
]

abbrev pub push_dependency :
    Scheduler → TxnIndex → TxnIndex → Option (List TxnIndex) → Option Scheduler
push_dependency s i dep none = none
push_dependency s i dep (some stored) =
    some (record s { txn_dependency = set s.txn_dependency dep (stored ++ i ∷ []) })

-- A condition variable, not yet resolved.
abbrev pub new_condvar : Scheduler → DependencyCondvar × Scheduler
new_condvar s = (length s.condvars, record s { condvars = s.condvars ++ false ∷ [] })

-- Not executed yet: suspend, and store the dependency.
abbrev pub wait_unless :
    Scheduler
    → TxnIndex
    → TxnIndex
    → DependencyCondvar
    → Option Incarnation
    → Option (Option DependencyCondvar × Scheduler)
wait_unless s i dep condvar (some incarnation) = some (none, s)
wait_unless s i dep condvar none = do
  s' ← suspend s i condvar
  s'' ← push_dependency s' i dep (get_elem? s'.txn_dependency dep)
  some (some condvar, s'')

unfoldable pub wait_for_dependency :
    Scheduler → TxnIndex → TxnIndex → Option (Option DependencyCondvar × Scheduler)
wait_for_dependency s i dep =
    let (condvar, s') = new_condvar s in
    if ltb dep (length s.txn_dependency)
    then wait_unless s' i dep condvar (is_executed s' dep)
    else none

unfoldable pub resume_all : Scheduler → List TxnIndex → Option Scheduler
resume_all s [] = some s
resume_all s (i ∷ is) = do s' ← resume s i; resume_all s' is

-- `min` of an iterator.
abbrev pub minimum : List TxnIndex → Option TxnIndex
minimum [] = none
minimum (i ∷ is) = elim (minimum is) [ none ↦ some i | some j ↦ some (min i j) ]

abbrev pub decrease_to : Scheduler → Option TxnIndex → Scheduler
decrease_to s none = s
decrease_to s (some target) = decrease_execution_idx s target

-- No task, and the guard dropped.
abbrev pub give_up : Scheduler → Option (SchedulerTask × Scheduler)
give_up s = do s' ← drop_guard s; some (no_task, s')

unfoldable pub schedule_validation :
    Scheduler → TxnIndex → Incarnation → Bool → Option (SchedulerTask × Scheduler)
schedule_validation s i incarnation revalidate_suffix =
    if ltb i s.validation_idx
    then (if revalidate_suffix
        then give_up (decrease_validation_idx s i)
        else some (validation_task (i, incarnation), s))
    else give_up s

unfoldable pub finish_execution :
    Scheduler → TxnIndex → Incarnation → Bool → Option (SchedulerTask × Scheduler)
finish_execution s i incarnation revalidate_suffix = do
  s1 ← set_executed_status s i incarnation
  deps ← get_elem? s1.txn_dependency i
  s2 ← resume_all (record s1 { txn_dependency = set s1.txn_dependency i [] }) deps
  schedule_validation (decrease_to s2 (minimum deps)) i incarnation revalidate_suffix

abbrev pub re_execute :
    TxnIndex
    → Option (Incarnation × Option DependencyCondvar) × Scheduler
    → Option (SchedulerTask × Scheduler)
re_execute i (some (incarnation, condvar), s) = some (execution_task (i, incarnation) condvar, s)
re_execute i (none, s) = give_up s

unfoldable pub finish_abort :
    Scheduler → TxnIndex → Incarnation → Option (SchedulerTask × Scheduler)
finish_abort s i incarnation = do
  s1 ← set_aborted_status s i incarnation
  let s2 = decrease_validation_idx s1 (i + 1)
  if ltb i s2.execution_idx then re_execute i (try_incarnate s2 i) else give_up s2
