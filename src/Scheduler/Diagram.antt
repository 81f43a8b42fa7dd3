-- ===== src/Scheduler/Diagram.antt =====
-- The status transition diagram of parallel-executor/src/scheduler.rs.
use mathlib.Core.Path.{subst, ◌∙◌}
use move_tutorial.Prelude.{
  ◌+◌, ◌≡◌, refl, ap, arith, Bool, ◌==◌, ==_iff, Bool-cases, inl, inr, Option, none, some,
  get_elem?, set, get_elem?-set_self, get_elem?-set_ne, get_elem?-lt-length,
}
use move_tutorial.Scheduler.{
  TxnIndex, Incarnation, DependencyCondvar, TransactionStatus, ready_to_execute, executing,
  suspended, executed, aborting, Scheduler, set_status, try_abort, try_abort_at, try_incarnate,
  incarnate_at, suspend, suspend_at, resume, resume_at, set_executed_status, executed_at,
  set_aborted_status, aborted_at,
}

-- The arrows of the diagram.
pub data Transition : TransactionStatus → TransactionStatus → Type 0 where
  incarnate :
      (i : Incarnation) (c : Option DependencyCondvar)
      → Transition (ready_to_execute i c) (executing i)
  suspends : (i : Incarnation) (c : DependencyCondvar) → Transition (executing i) (suspended i c)
  resumes :
      (i : Incarnation) (c : DependencyCondvar)
      → Transition (suspended i c) (ready_to_execute i (some c))
  finishes : (i : Incarnation) → Transition (executing i) (executed i)
  aborts : (i : Incarnation) → Transition (executed i) (aborting i)
  restarts : (i : Incarnation) → Transition (aborting i) (ready_to_execute (i + 1) none)

-- Any number of arrows.
pub data Transitions (a : TransactionStatus) : TransactionStatus → Type 0 where
  stay : Transitions a a
  further : {b c : TransactionStatus} → Transitions a b → Transition b c → Transitions a c

pub Transitions-trans :
    {a b c : TransactionStatus} → Transitions a b → Transitions b c → Transitions a c
Transitions-trans p stay = p
Transitions-trans p (further q t) = further (Transitions-trans p q) t

-- Every transaction has followed arrows of the diagram.
pub record Evolves (s s' : Scheduler) : Type 0 where
  pub follows :
      (j : TxnIndex) (a : TransactionStatus)
      → get_elem? s.txn_status j ≡ some a
      → (b : TransactionStatus) × (get_elem? s'.txn_status j ≡ some b) × Transitions a b

pub Evolves-same : (s s' : Scheduler) → s'.txn_status ≡ s.txn_status → Evolves s s'
Evolves-same s s' e = record { follows = λ j a h. (a, ap (λ l. get_elem? l j) e ∙ h, stay) }

pub Evolves-trans : {s t u : Scheduler} → Evolves s t → Evolves t u → Evolves s u
Evolves-trans p q = record {
  follows = λ j a h.
      let (b, hb, ab) = p.follows j a h in
      let (c, hc, bc) = q.follows j b hb in (c, hc, Transitions-trans ab bc);
}

pub set_status-Evolves :
    (s : Scheduler) (i : TxnIndex) (a b : TransactionStatus)
    → get_elem? s.txn_status i ≡ some a
    → Transition a b
    → Evolves s (set_status s i b)
set_status-Evolves s i a b at t = record {
  follows = λ j c h. elim (Bool-cases (i == j)) [
    | inl eq ↦
        let same : i ≡ j = (==_iff i j).0 eq in
        let hit = get_elem?-set_self s.txn_status i b (get_elem?-lt-length s.txn_status i a at) in
        let ac : a ≡ c = cc (at, h, same) in
        (
          b,
          subst (λ k. get_elem? (set s.txn_status i b) k ≡ some b) same hit,
          subst (λ x. Transitions x b) ac (further stay t),
        )
    | inr ne ↦ (c, get_elem?-set_ne s.txn_status i j b (λ e. cc (ne, (==_iff i j).1 e)) ∙ h, stay)
  ];
}

try_abort_at-Evolves :
    (s s' : Scheduler) (i : TxnIndex) (n : Incarnation) (r : Bool) (o : Option TransactionStatus)
    → get_elem? s.txn_status i ≡ o
    → try_abort_at s i n o ≡ some (r, s')
    → Evolves s s'
try_abort_at-Evolves s s' i n r none at e = absurd (ground arith)
try_abort_at-Evolves s s' i n r (some (executed m)) at e = elim (Bool-cases (m == n)) [
  | inl eq ↦
      let same : m ≡ n = (==_iff m n).0 eq in
      let to : set_status s i (aborting n) ≡ s' = ground arith in
      subst (Evolves s) to (
        set_status-Evolves s i (executed m) (aborting n) at
          (subst (λ x. Transition (executed m) (aborting x)) same (aborts m)))
  | inr ne ↦ Evolves-same s s' (ground arith)
]
try_abort_at-Evolves s s' i n r (some b) at e = Evolves-same s s' (ground arith)

pub try_abort-Evolves :
    (s s' : Scheduler) (i : TxnIndex) (n : Incarnation) (r : Bool)
    → try_abort s i n ≡ some (r, s')
    → Evolves s s'
unfolding try_abort
try_abort-Evolves s s' i n r e = try_abort_at-Evolves s s' i n r (get_elem? s.txn_status i) refl e

incarnate_at-Evolves :
    (s : Scheduler) (i : TxnIndex) (o : Option TransactionStatus)
    → get_elem? s.txn_status i ≡ o
    → Evolves s (incarnate_at s i o).1
incarnate_at-Evolves s i (some (ready_to_execute n c)) at =
    set_status-Evolves s i (ready_to_execute n c) (executing n) at (incarnate n c)
incarnate_at-Evolves s i _ at = Evolves-same s s refl

pub try_incarnate-Evolves : (s : Scheduler) (i : TxnIndex) → Evolves s (try_incarnate s i).1
unfolding try_incarnate
try_incarnate-Evolves s i = incarnate_at-Evolves s i (get_elem? s.txn_status i) refl

suspend_at-Evolves :
    (s s' : Scheduler) (i : TxnIndex) (c : DependencyCondvar) (o : Option TransactionStatus)
    → get_elem? s.txn_status i ≡ o
    → suspend_at s i c o ≡ some s'
    → Evolves s s'
suspend_at-Evolves s s' i c (some (executing n)) at e =
    let to : set_status s i (suspended n c) ≡ s' = ground arith in
    subst (Evolves s) to (set_status-Evolves s i (executing n) (suspended n c) at (suspends n c))
suspend_at-Evolves s s' i c _ at e = absurd (ground arith)

pub suspend-Evolves :
    (s s' : Scheduler) (i : TxnIndex) (c : DependencyCondvar)
    → suspend s i c ≡ some s'
    → Evolves s s'
unfolding suspend
suspend-Evolves s s' i c e = suspend_at-Evolves s s' i c (get_elem? s.txn_status i) refl e

resume_at-Evolves :
    (s s' : Scheduler) (i : TxnIndex) (o : Option TransactionStatus)
    → get_elem? s.txn_status i ≡ o
    → resume_at s i o ≡ some s'
    → Evolves s s'
resume_at-Evolves s s' i (some (suspended n c)) at e =
    let to : set_status s i (ready_to_execute n (some c)) ≡ s' = ground arith in
    subst (Evolves s) to
      (set_status-Evolves s i (suspended n c) (ready_to_execute n (some c)) at (resumes n c))
resume_at-Evolves s s' i _ at e = absurd (ground arith)

pub resume-Evolves : (s s' : Scheduler) (i : TxnIndex) → resume s i ≡ some s' → Evolves s s'
unfolding resume
resume-Evolves s s' i e = resume_at-Evolves s s' i (get_elem? s.txn_status i) refl e

executed_at-Evolves :
    (s s' : Scheduler) (i : TxnIndex) (n : Incarnation) (o : Option TransactionStatus)
    → get_elem? s.txn_status i ≡ o
    → executed_at s i n o ≡ some s'
    → Evolves s s'
executed_at-Evolves s s' i n (some (executing m)) at e =
    let same : m ≡ n = ground arith in
    let to : set_status s i (executed n) ≡ s' = ground arith in
    subst (Evolves s) to (
      set_status-Evolves s i (executing m) (executed n) at
        (subst (λ x. Transition (executing m) (executed x)) same (finishes m)))
executed_at-Evolves s s' i n none at e = absurd (ground arith)
executed_at-Evolves s s' i n _ at e = absurd (ground arith)

pub set_executed_status-Evolves :
    (s s' : Scheduler) (i : TxnIndex) (n : Incarnation)
    → set_executed_status s i n ≡ some s'
    → Evolves s s'
unfolding set_executed_status
set_executed_status-Evolves s s' i n e =
    executed_at-Evolves s s' i n (get_elem? s.txn_status i) refl e

aborted_at-Evolves :
    (s s' : Scheduler) (i : TxnIndex) (n : Incarnation) (o : Option TransactionStatus)
    → get_elem? s.txn_status i ≡ o
    → aborted_at s i n o ≡ some s'
    → Evolves s s'
aborted_at-Evolves s s' i n (some (aborting m)) at e =
    let same : m ≡ n = ground arith in
    let to : set_status s i (ready_to_execute (n + 1) none) ≡ s' = ground arith in
    subst (Evolves s) to (
      set_status-Evolves s i (aborting m) (ready_to_execute (n + 1) none) at
        (subst (λ x. Transition (aborting m) (ready_to_execute (x + 1) none)) same (restarts m)))
aborted_at-Evolves s s' i n none at e = absurd (ground arith)
aborted_at-Evolves s s' i n _ at e = absurd (ground arith)

pub set_aborted_status-Evolves :
    (s s' : Scheduler) (i : TxnIndex) (n : Incarnation)
    → set_aborted_status s i n ≡ some s'
    → Evolves s s'
unfolding set_aborted_status
set_aborted_status-Evolves s s' i n e =
    aborted_at-Evolves s s' i n (get_elem? s.txn_status i) refl e
