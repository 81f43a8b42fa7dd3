-- ===== src/Scheduler/Progress.antt =====
-- The loop of `next_task` of parallel-executor/src/scheduler.rs, for a thread that runs alone.
use move_tutorial.Prelude.{
  ℕ, zero, suc, ◌+◌, ◌-◌, ◌^◌, ◌≤◌, ◌<◌, ◌≡◌, ◌≢◌, ◌⊎◌, inl, inr, refl, ap, arith, Bool, true,
  false, ltb, leb, if◌then◌else◌, Option, none, some, get_elem?,
}
use move_tutorial.Prelude.Options.{◌>>=◌}
use move_tutorial.Scheduler.{
  TxnIndex, Incarnation, DependencyCondvar, TransactionStatus, ready_to_execute, executing,
  suspended, executed, aborting, Scheduler, SchedulerTask, validation_task, execution_task, no_task,
  done, add_usize, new_guard, is_executed, try_incarnate, incarnate_at,
}
use move_tutorial.Scheduler.Tasks.{
  check_done, keep_or_drop, with_index, with_condvar, try_validate_next_version,
  try_execute_next_version, validation_of, execution_of, round_of, next_round, next_task,
}

-- No task is under way, and the indices are in range.
pub record IsLone (s : Scheduler) : Type 0 where
  pub idle : s.num_active_tasks ≡ 0
  pub execution : s.execution_idx ≤ s.num_txns
  pub validation : s.validation_idx ≤ s.num_txns
  pub small : s.num_txns < 2 ^ 64

-- How many rounds may be in vain.
abbrev pub rounds_left : Scheduler → ℕ
rounds_left s =
    if s.done_marker
    then 0
    else 1 + ((s.num_txns - s.execution_idx) + (s.num_txns - s.validation_idx))

-- A round returns a task, or comes nearer to the end.
data Round (s : Scheduler) (o : Option (Option SchedulerTask × Scheduler)) : Type 0 where
  returns : (t : SchedulerTask) (u : Scheduler) → o ≡ some (some t, u) → t ≢ no_task → Round s o
  goes_on :
      (u : Scheduler) → o ≡ some (none, u) → IsLone u → rounds_left u < rounds_left s → Round s o

validate-Round :
    (s : Scheduler) (o : Option Incarnation)
    → IsLone s
    → s.done_marker ≡ false
    → s.validation_idx < s.num_txns
    → let u = record (new_guard s) { validation_idx = add_usize s.validation_idx 1 } in
      Round s (keep_or_drop (with_index s.validation_idx o) u >>= λ r. some (validation_of r))
validate-Round s (some n) lone fresh below =
    returns (validation_task (s.validation_idx, n)) _ refl (λ e. ground arith)
validate-Round s none lone fresh below =
    let u = record s { num_active_tasks = 0; validation_idx = s.validation_idx + 1 } in
    let wrap : add_usize s.validation_idx 1 ≡ s.validation_idx + 1 = omega (arith, lone.small) in
    goes_on u (rw lone.idle (rw wrap refl))
      (record {
        idle = refl;
        execution = lone.execution;
        validation = omega arith;
        small = lone.small;
      })
      (rw fresh (omega (arith, lone.execution)))

incarnate_at-cases :
    (s : Scheduler) (i : TxnIndex) (o : Option TransactionStatus)
    → (incarnate_at s i o ≡ (none, s))
      ⊎ ((n : Incarnation) × (c : Option DependencyCondvar) × (u : Scheduler) × (incarnate_at s i o
            ≡ (some (n, c), u)))
incarnate_at-cases s i none = inl refl
incarnate_at-cases s i (some (ready_to_execute n c)) = inr (n, c, _, refl)
incarnate_at-cases s i (some (executing n)) = inl refl
incarnate_at-cases s i (some (suspended n c)) = inl refl
incarnate_at-cases s i (some (executed n)) = inl refl
incarnate_at-cases s i (some (aborting n)) = inl refl

execute-Round :
    (s u : Scheduler) (r : Option (Incarnation × Option DependencyCondvar) × Scheduler)
    → IsLone s
    → s.done_marker ≡ false
    → s.execution_idx < s.num_txns
    → u ≡ record (new_guard s) { execution_idx = add_usize s.execution_idx 1 }
    → (r ≡ (none, u))
      ⊎ ((n : Incarnation) × (c : Option DependencyCondvar) × (v : Scheduler) × (r
            ≡ (some (n, c), v)))
    → Round s (keep_or_drop (with_condvar s.execution_idx r.0) r.1 >>= λ x. some (execution_of x))
execute-Round s u r lone fresh below eu (inl e) =
    let v = record s { num_active_tasks = 0; execution_idx = s.execution_idx + 1 } in
    let wrap : add_usize s.execution_idx 1 ≡ s.execution_idx + 1 = omega (arith, lone.small) in
    goes_on v (rw e (rw eu (rw lone.idle (rw wrap refl))))
      (record {
        idle = refl;
        execution = omega arith;
        validation = lone.validation;
        small = lone.small;
      })
      (rw fresh (omega (arith, lone.validation)))
execute-Round s u r lone fresh below eu (inr (n, c, v, e)) =
    returns (execution_task (s.execution_idx, n) c) v (rw e refl) (λ q. ground arith)

finish-Round :
    (s : Scheduler)
    → IsLone s
    → s.done_marker ≡ false
    → s.num_txns ≤ s.execution_idx
    → s.num_txns ≤ s.validation_idx
    → Round s (some (none, (check_done s).1))
unfolding check_done
finish-Round s lone fresh he hv =
    let idle : s.num_active_tasks ≡ 0 = lone.idle in
    let check : check_done s ≡ (true, record s { done_marker = true }) = ground arith in
    goes_on (record s { done_marker = true }) (ap (λ x. some (none, x.1)) check)
      (record {
        idle = lone.idle;
        execution = lone.execution;
        validation = lone.validation;
        small = lone.small;
      })
      (rw fresh (omega arith))

validate-branch :
    (s : Scheduler) (b : Bool)
    → leb s.num_txns s.validation_idx ≡ b
    → IsLone s
    → s.done_marker ≡ false
    → s.validation_idx ≤ s.execution_idx
    → let u = record (new_guard s) { validation_idx = add_usize s.validation_idx 1 } in
      Round s (
        (if b
          then some (none, (check_done s).1)
          else keep_or_drop (with_index s.validation_idx (is_executed u s.validation_idx)) u)
        >>= λ r. some (validation_of r))
validate-branch s true out lone fresh behind =
    finish-Round s lone fresh (ground arith) (ground arith)
validate-branch s false within lone fresh behind = validate-Round s _ lone fresh (ground arith)

execute-branch :
    (s : Scheduler) (b : Bool)
    → leb s.num_txns s.execution_idx ≡ b
    → IsLone s
    → s.done_marker ≡ false
    → s.execution_idx ≤ s.validation_idx
    → let u = record (new_guard s) { execution_idx = add_usize s.execution_idx 1 } in
      let r = try_incarnate u s.execution_idx in
      Round s (
        (if b
          then some (none, (check_done s).1)
          else keep_or_drop (with_condvar s.execution_idx r.0) r.1)
        >>= λ x. some (execution_of x))
unfolding try_incarnate
execute-branch s true out lone fresh behind =
    finish-Round s lone fresh (ground arith) (ground arith)
execute-branch s false within lone fresh behind =
    let u = record (new_guard s) { execution_idx = add_usize s.execution_idx 1 } in
    execute-Round s u (try_incarnate u s.execution_idx) lone fresh (ground arith) refl
      (incarnate_at-cases u s.execution_idx (get_elem? u.txn_status s.execution_idx))

fresh-Round :
    (s : Scheduler) (b : Bool)
    → ltb s.validation_idx s.execution_idx ≡ b
    → IsLone s
    → s.done_marker ≡ false
    → Round s (round_of s false b)
unfolding try_validate_next_version try_execute_next_version
fresh-Round s true behind lone fresh = validate-branch s _ refl lone fresh (ground arith)
fresh-Round s false ahead lone fresh = execute-branch s _ refl lone fresh (ground arith)

marked-Round :
    (s : Scheduler) (m : Bool)
    → s.done_marker ≡ m
    → IsLone s
    → Round s (round_of s m (ltb s.validation_idx s.execution_idx))
marked-Round s true marked lone = returns done s refl (λ e. ground arith)
marked-Round s false fresh lone = fresh-Round s _ refl lone fresh

next_round-Round : (s : Scheduler) → IsLone s → Round s (next_round s)
unfolding next_round
next_round-Round s lone = marked-Round s s.done_marker refl lone

-- What `next_task` gives.
abbrev pub Returns : Option (SchedulerTask × Scheduler) → Type 0
Returns o = (task : SchedulerTask) × (s : Scheduler) × (o ≡ some (task, s)) × (task ≢ no_task)

-- Let a thread run alone, with no task under way and the indices in range. Given more rounds than
-- there are indices left to try, and one more, `next_task` does not panic and returns a task to
-- execute or to validate, or that all is done.
pub next_task-Returns :
    (fuel : ℕ) (s : Scheduler) → IsLone s → rounds_left s < fuel → Returns (next_task fuel s)
unfolding next_task
next_task-Returns zero s lone h = absurd (omega arith)
next_task-Returns (suc fuel) s lone h = elim (next_round-Round s lone) [
  | returns t u e ne ↦ (t, u, rw (e, next_task) refl, ne)
  | goes_on u e l less ↦ rw (e, next_task) (next_task-Returns fuel u l (omega (arith, less, h)))
]
