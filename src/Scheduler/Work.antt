-- ===== src/Scheduler/Work.antt =====
-- `finish_execution` and `finish_abort` of parallel-executor/src/scheduler.rs: the work left after them.
use mathlib.Core.Path.{subst, ◌∙◌}
use move_tutorial.Prelude.{
  ◌+◌, ◌≤◌, ◌≡◌, ◌⊎◌, refl, ap, arith, Bool, true, false, ltb, inl, inr, if◌then◌else◌, Option,
  none, some, [], get_elem?, set, get_elem?-set_self, get_elem?-lt-length,
}
use move_tutorial.Prelude.Options.{>>=-eq-some}
use move_tutorial.Scheduler.{
  TxnIndex, Incarnation, TransactionStatus, ready_to_execute, executing, Scheduler, SchedulerTask,
  validation_task, execution_task, decrease_validation_idx, try_incarnate, incarnate_at, set_status,
  set_executed_status, set_aborted_status, aborted_at,
}
use move_tutorial.Scheduler.Tasks.{
  schedule_validation, finish_execution, finish_abort, re_execute, resume_all, decrease_to, minimum,
  give_up,
}

schedule_validation-reach :
    (s s' : Scheduler) (i : TxnIndex) (n : Incarnation) (b : Bool) (r : SchedulerTask)
    → schedule_validation s i n b ≡ some (r, s')
    → (s'.validation_idx ≤ i) ⊎ ((b ≡ false) × (r ≡ validation_task (i, n)))
unfolding schedule_validation decrease_validation_idx
schedule_validation-reach s s' i n b r e = ground arith

-- After an execution that did not panic, the version is going to be validated: validation is at
-- the transaction or below it, or, if the suffix need not be validated again, the task to validate
-- the version comes back.
pub finish_execution-validation_idx :
    (s s' : Scheduler) (i : TxnIndex) (n : Incarnation) (revalidate : Bool) (r : SchedulerTask)
    → finish_execution s i n revalidate ≡ some (r, s')
    → (s'.validation_idx ≤ i) ⊎ ((revalidate ≡ false) × (r ≡ validation_task (i, n)))
unfolding finish_execution
finish_execution-validation_idx s s' i n b r e =
    let (t, et, e1) = >>=-eq-some (set_executed_status s i n) _ e in
    let (deps, ed, e2) = >>=-eq-some (get_elem? t.txn_dependency i) _ e1 in
    let (u, eu, e3) =
      >>=-eq-some (resume_all (record t { txn_dependency = set t.txn_dependency i [] }) deps) _
        e2 in
    schedule_validation-reach (decrease_to u (minimum deps)) s' i n b r e3

-- The status after `set_aborted_status`.
aborted_at-ready :
    (s s' : Scheduler) (i : TxnIndex) (n : Incarnation) (o : Option TransactionStatus)
    → get_elem? s.txn_status i ≡ o
    → aborted_at s i n o ≡ some s'
    → get_elem? s'.txn_status i ≡ some (ready_to_execute (n + 1) none)
aborted_at-ready s s' i n none at e = ground arith
aborted_at-ready s s' i n (some a) at e =
    let to : set_status s i (ready_to_execute (n + 1) none) ≡ s' = ground arith in
    subst (λ (t : Scheduler). get_elem? t.txn_status i ≡ some (ready_to_execute (n + 1) none)) to
      (get_elem?-set_self s.txn_status i _ (get_elem?-lt-length s.txn_status i a at))

handed_out :
    (s t : Scheduler) (q r : SchedulerTask)
    → ◌≡◌ {A = Option (SchedulerTask × Scheduler)} (some (q, t)) (some (r, s))
    → (s ≡ t) × (r ≡ q)
handed_out s t q r e = (ground arith, ground arith)

-- The task that a re-execution hands out, and the state it leaves.
re_execute-incarnate :
    (s s' : Scheduler) (i : TxnIndex) (n : Incarnation) (r : SchedulerTask)
    → get_elem? s.txn_status i ≡ some (ready_to_execute n none)
    → re_execute i (try_incarnate s i) ≡ some (r, s')
    → (s' ≡ set_status s i (executing n)) × (r ≡ execution_task (i, n) none)
unfolding try_incarnate
re_execute-incarnate s s' i n r at e = handed_out s' _ _ r (
    subst (λ (o : Option TransactionStatus). re_execute i (incarnate_at s i o) ≡ some (r, s')) at e)

Reach : Scheduler → Scheduler → TxnIndex → Incarnation → SchedulerTask → Type 0
Reach s s' i n r =
    ((s'.execution_idx ≤ i) × (get_elem? s'.txn_status i ≡ some (ready_to_execute n none)))
    ⊎ ((r ≡ execution_task (i, n) none) × (get_elem? s'.txn_status i ≡ some (executing n)))

re_execute-Reach :
    (s s' : Scheduler) (i : TxnIndex) (n : Incarnation) (r : SchedulerTask) (b : Bool)
    → get_elem? s.txn_status i ≡ some (ready_to_execute n none)
    → ltb i s.execution_idx ≡ b
    → (if b then re_execute i (try_incarnate s i) else give_up s) ≡ some (r, s')
    → Reach s s' i n r × (s'.validation_idx ≡ s.validation_idx)
unfolding Reach
re_execute-Reach s s' i n r true at lt e =
    let (es, er) = re_execute-incarnate s s' i n r at e in
    (
      inr (
        er,
        ap (λ t. get_elem? t.txn_status i) es
            ∙ get_elem?-set_self s.txn_status i _ (get_elem?-lt-length s.txn_status i _ at),
      ),
      ap (λ t. t.validation_idx) es,
    )
re_execute-Reach s s' i n r false at lt e =
    let to : s'.txn_status ≡ s.txn_status = ground arith in
    (inl (ground arith, ap (λ t. get_elem? t i) to ∙ at), ground arith)

-- After an abort that did not panic, the next incarnation is going to be executed, and everything
-- above the transaction is going to be validated: validation is at the next transaction or below
-- it, and either the transaction is ready with the next incarnation and execution is at it or below
-- it, or the task to execute that incarnation comes back and the transaction is executing it.
pub finish_abort-reach :
    (s s' : Scheduler) (i : TxnIndex) (n : Incarnation) (r : SchedulerTask)
    → finish_abort s i n ≡ some (r, s')
    → (s'.validation_idx ≤ i + 1)
      × (((s'.execution_idx ≤ i)
            × (get_elem? s'.txn_status i ≡ some (ready_to_execute (n + 1) none)))
          ⊎ ((r ≡ execution_task (i, n + 1) none)
              × (get_elem? s'.txn_status i ≡ some (executing (n + 1)))))
unfolding finish_abort decrease_validation_idx set_aborted_status Reach
finish_abort-reach s s' i n r e =
    let (t, et, e1) = >>=-eq-some (set_aborted_status s i n) _ e in
    let at = aborted_at-ready s t i n _ refl et in
    let u = decrease_validation_idx t (i + 1) in
    let eu : u.txn_status ≡ t.txn_status = ground arith in
    let vu : u.validation_idx ≤ i + 1 = ground arith in
    let (reach, ev) =
      re_execute-Reach u s' i (n + 1) r _ (ap (λ l. get_elem? l i) eu ∙ at) refl e1 in
    (ground arith, reach)
