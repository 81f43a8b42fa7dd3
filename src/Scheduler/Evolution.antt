-- ===== src/Scheduler/Evolution.antt =====
-- The methods of parallel-executor/src/scheduler.rs and the status diagram.
use move_tutorial.Scheduler.Tasks.{round_of}
use mathlib.Core.Path.{subst}
use move_tutorial.Prelude.{
  ◌+◌, ◌≡◌, refl, arith, Bool, true, false, leb, ltb, Bool-cases, inl, inr, Option, none, some,
  List, [], ◌∷◌, get_elem?, set, length,
}
use move_tutorial.Prelude.Options.{◌>>=◌, >>=-eq-some}
use move_tutorial.Scheduler.{
  TxnIndex, Incarnation, Version, DependencyCondvar, Scheduler, SchedulerTask, drop_guard,
  new_guard, add_usize, decrease_validation_idx, decrease_execution_idx, is_executed, try_incarnate,
  suspend, resume, set_executed_status, set_aborted_status,
}
use move_tutorial.Scheduler.Diagram.{
  Evolves, Evolves-same, Evolves-trans, try_incarnate-Evolves, suspend-Evolves, resume-Evolves,
  set_executed_status-Evolves, set_aborted_status-Evolves,
}
use move_tutorial.Scheduler.Tasks.{
  check_done, keep_or_drop, with_condvar, try_validate_next_version, try_execute_next_version,
  next_round, validation_of, execution_of, push_dependency, new_condvar, wait_unless,
  wait_for_dependency, resume_all, minimum, decrease_to, schedule_validation, finish_execution,
  re_execute, finish_abort,
}

drop_guard-Evolves : (s s' : Scheduler) → drop_guard s ≡ some s' → Evolves s s'
drop_guard-Evolves s s' e = Evolves-same s s' (ground arith)

check_done-Evolves : (s : Scheduler) → Evolves s (check_done s).1
unfolding check_done
check_done-Evolves s = Evolves-same s (check_done s).1 (ground arith)

keep_or_drop-Evolves {ℓ} :
    {A : Type ℓ} (o : Option A) (s s' : Scheduler) (r : Option A)
    → keep_or_drop o s ≡ some (r, s')
    → Evolves s s'
keep_or_drop-Evolves none s s' r e = Evolves-same s s' (ground arith)
keep_or_drop-Evolves (some a) s s' r e = Evolves-same s s' (ground arith)

validate-Evolves :
    (s s' : Scheduler) (r : Option Version)
    → try_validate_next_version s ≡ some (r, s')
    → Evolves s s'
unfolding try_validate_next_version
validate-Evolves s s' r e = Evolves-same s s' (ground arith)

execute-Evolves :
    (s s' : Scheduler) (r : Option (Version × Option DependencyCondvar))
    → try_execute_next_version s ≡ some (r, s')
    → Evolves s s'
unfolding try_execute_next_version
execute-Evolves s s' r e = elim (Bool-cases (leb s.num_txns s.execution_idx)) [
  | inl out ↦ Evolves-same s s' (ground arith)
  | inr within ↦
      let t = record (new_guard s) { execution_idx = add_usize s.execution_idx 1 } in
      let (incarnated, u) = try_incarnate t s.execution_idx in
      Evolves-trans (Evolves-same s t refl) (
        Evolves-trans (try_incarnate-Evolves t s.execution_idx)
          (keep_or_drop-Evolves (with_condvar s.execution_idx incarnated) u s' r (rw within at e)))
]

validation_of-state :
    (x : Option Version × Scheduler) (r : Option SchedulerTask) (s' : Scheduler)
    → validation_of x ≡ (r, s')
    → x.1 ≡ s'
validation_of-state (none, s) r s' e = ground arith
validation_of-state (some v, s) r s' e = ground arith

execution_of-state :
    (x : Option (Version × Option DependencyCondvar) × Scheduler) (r : Option SchedulerTask)
    (s' : Scheduler)
    → execution_of x ≡ (r, s')
    → x.1 ≡ s'
execution_of-state (none, s) r s' e = ground arith
execution_of-state (some (v, c), s) r s' e = ground arith

round_of-Evolves :
    (s s' : Scheduler) (marked behind : Bool) (r : Option SchedulerTask)
    → round_of s marked behind ≡ some (r, s')
    → Evolves s s'
round_of-Evolves s s' true behind r e = Evolves-same s s' (ground arith)
round_of-Evolves s s' false true r e =
    let ((a, t), ea, eb) =
      >>=-eq-some (try_validate_next_version s) (λ x. some (validation_of x)) e in
    subst (Evolves s) (validation_of-state (a, t) r s' (ground arith)) (validate-Evolves s t a ea)
round_of-Evolves s s' false false r e =
    let ((a, t), ea, eb) =
      >>=-eq-some (try_execute_next_version s) (λ x. some (execution_of x)) e in
    subst (Evolves s) (execution_of-state (a, t) r s' (ground arith)) (execute-Evolves s t a ea)

pub next_round-Evolves :
    (s s' : Scheduler) (r : Option SchedulerTask) → next_round s ≡ some (r, s') → Evolves s s'
unfolding next_round
next_round-Evolves s s' r e =
    round_of-Evolves s s' s.done_marker (ltb s.validation_idx s.execution_idx) r e

push-Evolves :
    (s s' : Scheduler) (i dep : TxnIndex) (o : Option (List TxnIndex))
    → push_dependency s i dep o ≡ some s'
    → Evolves s s'
push-Evolves s s' i dep none e = absurd (ground arith)
push-Evolves s s' i dep (some l) e = Evolves-same s s' (ground arith)

wait_unless-Evolves :
    (s s' : Scheduler) (i dep : TxnIndex) (c : DependencyCondvar) (o : Option Incarnation)
    (r : Option DependencyCondvar)
    → wait_unless s i dep c o ≡ some (r, s')
    → Evolves s s'
wait_unless-Evolves s s' i dep c (some n) r e = Evolves-same s s' (ground arith)
wait_unless-Evolves s s' i dep c none r e =
    let (t, et, e') =
      >>=-eq-some (suspend s i c)
        (λ t. push_dependency t i dep (get_elem? t.txn_dependency dep) >>= λ u. some (some c, u))
        e in
    let (u, eu, e'') =
      >>=-eq-some (push_dependency t i dep (get_elem? t.txn_dependency dep)) (λ u. some (some c, u))
        e' in
    let to : u ≡ s' = ground arith in
    subst (Evolves s) to (
      Evolves-trans (suspend-Evolves s t i c et)
        (push-Evolves t u i dep (get_elem? t.txn_dependency dep) eu))

pub wait-Evolves :
    (s s' : Scheduler) (i dep : TxnIndex) (r : Option DependencyCondvar)
    → wait_for_dependency s i dep ≡ some (r, s')
    → Evolves s s'
unfolding wait_for_dependency
wait-Evolves s s' i dep r e =
    let (c, t) = new_condvar s in
    elim (Bool-cases (ltb dep (length s.txn_dependency))) [
      | inl within ↦
          Evolves-trans (Evolves-same s t refl)
            (wait_unless-Evolves t s' i dep c (is_executed t dep) r (rw within at e))
      | inr out ↦ absurd (cc (rw out at e))
    ]

resume_all-Evolves :
    (is : List TxnIndex) (s s' : Scheduler) → resume_all s is ≡ some s' → Evolves s s'
unfolding resume_all
resume_all-Evolves [] s s' e = Evolves-same s s' (ground arith)
resume_all-Evolves (i ∷ is) s s' e =
    let (t, et, e') = >>=-eq-some (resume s i) (λ t. resume_all t is) e in
    Evolves-trans (resume-Evolves s t i et) (resume_all-Evolves is t s' e')

decrease_to-status :
    (s : Scheduler) (o : Option TxnIndex) → (decrease_to s o).txn_status ≡ s.txn_status
unfolding decrease_execution_idx
decrease_to-status s none = refl
decrease_to-status s (some t) = ground arith

schedule_validation-Evolves :
    (s s' : Scheduler) (i : TxnIndex) (n : Incarnation) (b : Bool) (r : SchedulerTask)
    → schedule_validation s i n b ≡ some (r, s')
    → Evolves s s'
unfolding schedule_validation decrease_validation_idx
schedule_validation-Evolves s s' i n b r e = Evolves-same s s' (ground arith)

pub finish-Evolves :
    (s s' : Scheduler) (i : TxnIndex) (n : Incarnation) (b : Bool) (r : SchedulerTask)
    → finish_execution s i n b ≡ some (r, s')
    → Evolves s s'
unfolding finish_execution
finish-Evolves s s' i n b r e =
    let (t, et, e1) = >>=-eq-some (set_executed_status s i n) _ e in
    let (deps, ed, e2) = >>=-eq-some (get_elem? t.txn_dependency i) _ e1 in
    let cleared : Scheduler = record t { txn_dependency = set t.txn_dependency i [] } in
    let (u, eu, e3) = >>=-eq-some (resume_all cleared deps) _ e2 in
    Evolves-trans (set_executed_status-Evolves s t i n et) (
      Evolves-trans (Evolves-same t cleared refl) (
        Evolves-trans (resume_all-Evolves deps cleared u eu) (
          Evolves-trans
            (Evolves-same u (decrease_to u (minimum deps)) (decrease_to-status u (minimum deps)))
            (schedule_validation-Evolves (decrease_to u (minimum deps)) s' i n b r e3))))

re_execute-Evolves :
    (s s' : Scheduler) (i : TxnIndex) (o : Option (Incarnation × Option DependencyCondvar))
    (r : SchedulerTask)
    → re_execute i (o, s) ≡ some (r, s')
    → Evolves s s'
re_execute-Evolves s s' i none r e = Evolves-same s s' (ground arith)
re_execute-Evolves s s' i (some (n, c)) r e = Evolves-same s s' (ground arith)

validation-status :
    (s : Scheduler) (t : TxnIndex) → (decrease_validation_idx s t).txn_status ≡ s.txn_status
unfolding decrease_validation_idx
validation-status s t = ground arith

pub finish_abort-Evolves :
    (s s' : Scheduler) (i : TxnIndex) (n : Incarnation) (r : SchedulerTask)
    → finish_abort s i n ≡ some (r, s')
    → Evolves s s'
unfolding finish_abort
finish_abort-Evolves s s' i n r e =
    let (t, et, e1) = >>=-eq-some (set_aborted_status s i n) _ e in
    let u = decrease_validation_idx t (i + 1) in
    Evolves-trans (set_aborted_status-Evolves s t i n et) (
      Evolves-trans (Evolves-same t u (validation-status t (i + 1)))
        (elim (Bool-cases (ltb i u.execution_idx)) [
          | inl again ↦
              let (o, v) = try_incarnate u i in
              Evolves-trans (try_incarnate-Evolves u i)
                (re_execute-Evolves v s' i o r (rw again at e1))
          | inr low ↦ Evolves-same u s' (ground arith)
        ]))
