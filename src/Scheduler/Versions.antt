-- ===== src/Scheduler/Versions.antt =====
-- Versions along sequences of calls of parallel-executor/src/scheduler.rs.
use move_tutorial.Prelude.{◌≢◌}
use mathlib.Core.Path.{subst, ◌∙◌}
use move_tutorial.Prelude.{
  ℕ, ◌+◌, ◌*◌, ◌≤◌, ◌≡◌, refl, ap, arith, true, Option, none, some, List, get_elem?,
  get_elem?-set_self, get_elem?-lt-length,
}
use move_tutorial.Scheduler.{
  TxnIndex, Incarnation, TransactionStatus, ready_to_execute, executing, suspended, executed,
  aborting, Scheduler, set_status, try_abort, try_abort_at,
}
use move_tutorial.Scheduler.Diagram.{
  Transition, incarnate, suspends, resumes, finishes, aborts, restarts, Transitions, stay, further,
}
use move_tutorial.Scheduler.Actions.{Action, acts, acts-Evolves}

-- How far a transaction has come: its incarnation, then its phase.
abbrev pub progress : TransactionStatus → ℕ
progress (ready_to_execute n c) = 3 * n
progress (executing n) = 3 * n
progress (suspended n c) = 3 * n
progress (executed n) = 3 * n + 1
progress (aborting n) = 3 * n + 2

Transition-progress : {a b : TransactionStatus} → Transition a b → progress a ≤ progress b
Transition-progress (incarnate n c) = omega arith
Transition-progress (suspends n c) = omega arith
Transition-progress (resumes n c) = omega arith
Transition-progress (finishes n) = omega arith
Transition-progress (aborts n) = omega arith
Transition-progress (restarts n) = omega arith

Transitions-progress : {a b : TransactionStatus} → Transitions a b → progress a ≤ progress b
Transitions-progress stay = omega arith
Transitions-progress (further p t) = omega (arith, Transitions-progress p, Transition-progress t)

-- Whatever the threads call in whatever order, and however a transaction's status changes, it
-- does not fall back to a lower incarnation, nor within one from aborting to executed or from
-- executed to executing.
pub acts-progress :
    (calls : List Action) (s s' : Scheduler) (i : TxnIndex) (a b : TransactionStatus)
    → acts s calls ≡ some s'
    → get_elem? s.txn_status i ≡ some a
    → get_elem? s'.txn_status i ≡ some b
    → progress a ≤ progress b
acts-progress calls s s' i a b run before after =
    let (c, hc, p) = (acts-Evolves calls s s' run).follows i a before in
    let same : c ≡ b = cc (hc, after) in omega (arith, Transitions-progress p, ap progress same)

try_abort_at-true :
    (s s' : Scheduler) (i : TxnIndex) (n : Incarnation) (o : Option TransactionStatus)
    → get_elem? s.txn_status i ≡ o
    → try_abort_at s i n o ≡ some (true, s')
    → (get_elem? s.txn_status i ≡ some (executed n))
      × (get_elem? s'.txn_status i ≡ some (aborting n))
try_abort_at-true s s' i n none at e = absurd (ground arith)
try_abort_at-true s s' i n (some (executed m)) at e =
    let same : m ≡ n = ground arith in
    let to : set_status s i (aborting n) ≡ s' = ground arith in
    (
      at ∙ ap (λ x. some (executed x)) same,
      subst (λ (t : Scheduler). get_elem? t.txn_status i ≡ some (aborting n)) to
          (get_elem?-set_self s.txn_status i (aborting n)
            (get_elem?-lt-length s.txn_status i (executed m) at)),
    )
try_abort_at-true s s' i n (some b) at e = absurd (ground arith)

-- A version that `try_abort` has aborted is never aborted again, whatever the threads call between.
pub try_abort_once :
    (calls : List Action) (s t u v : Scheduler) (i : TxnIndex) (n : Incarnation)
    → try_abort s i n ≡ some (true, t)
    → acts t calls ≡ some u
    → try_abort u i n ≢ some (true, v)
unfolding try_abort
try_abort_once calls s t u v i n first run second =
    let (at_s, at_t) = try_abort_at-true s t i n (get_elem? s.txn_status i) refl first in
    let (at_u, at_v) = try_abort_at-true u v i n (get_elem? u.txn_status i) refl second in
    absurd (omega (arith, acts-progress calls t u i (aborting n) (executed n) run at_t at_u))
