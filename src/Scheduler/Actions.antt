-- ===== src/Scheduler/Actions.antt =====
-- What the threads call of parallel-executor/src/scheduler.rs, and the status diagram.
use move_tutorial.Prelude.{◌≡◌, arith, Bool, Option, none, some, List, [], ◌∷◌}
use move_tutorial.Prelude.Options.{◌>>=◌, >>=-eq-some}
use move_tutorial.Scheduler.{TxnIndex, Incarnation, Scheduler, try_abort}
use move_tutorial.Scheduler.Diagram.{Evolves, Evolves-same, Evolves-trans, try_abort-Evolves}
use move_tutorial.Scheduler.Tasks.{next_round, wait_for_dependency, finish_execution, finish_abort}
use move_tutorial.Scheduler.Evolution.{
  next_round-Evolves, wait-Evolves, finish-Evolves, finish_abort-Evolves,
}

-- The calls of the worker threads; `next_task` is its rounds.
pub data Action : Type 0 where
  aborts : TxnIndex → Incarnation → Action
  asks : Action
  waits : TxnIndex → TxnIndex → Action
  finishes : TxnIndex → Incarnation → Bool → Action
  finishes_abort : TxnIndex → Incarnation → Action

abbrev state_after {ℓ} : {A : Type ℓ} → Option (A × Scheduler) → Option Scheduler
state_after none = none
state_after (some (a, s)) = some s

unfoldable pub act : Scheduler → Action → Option Scheduler
act s (aborts i n) = state_after (try_abort s i n)
act s asks = state_after (next_round s)
act s (waits i dep) = state_after (wait_for_dependency s i dep)
act s (finishes i n revalidate) = state_after (finish_execution s i n revalidate)
act s (finishes_abort i n) = state_after (finish_abort s i n)

unfoldable pub acts : Scheduler → List Action → Option Scheduler
acts s [] = some s
acts s (a ∷ rest) = do s' ← act s a; acts s' rest

state_after-eq {ℓ} :
    {A : Type ℓ} (o : Option (A × Scheduler)) {s : Scheduler}
    → state_after o ≡ some s
    → (a : A) × (o ≡ some (a, s))
state_after-eq none h = absurd (ground arith)
state_after-eq (some (a, t)) h = (a, ground arith)

act-Evolves : (s s' : Scheduler) (a : Action) → act s a ≡ some s' → Evolves s s'
unfolding act
act-Evolves s s' (aborts i n) e =
    let (r, q) = state_after-eq (try_abort s i n) e in try_abort-Evolves s s' i n r q
act-Evolves s s' asks e =
    let (r, q) = state_after-eq (next_round s) e in next_round-Evolves s s' r q
act-Evolves s s' (waits i dep) e =
    let (r, q) = state_after-eq (wait_for_dependency s i dep) e in wait-Evolves s s' i dep r q
act-Evolves s s' (finishes i n b) e =
    let (r, q) = state_after-eq (finish_execution s i n b) e in finish-Evolves s s' i n b r q
act-Evolves s s' (finishes_abort i n) e =
    let (r, q) = state_after-eq (finish_abort s i n) e in finish_abort-Evolves s s' i n r q

-- Whatever the threads call, in whatever order: each transaction's status follows arrows of the
-- diagram, as long as no call panics.
pub acts-Evolves : (calls : List Action) (s s' : Scheduler) → acts s calls ≡ some s' → Evolves s s'
unfolding acts act
acts-Evolves [] s s' e = Evolves-same s s' (ground arith)
acts-Evolves (a ∷ calls) s s' e =
    let (t, et, e') = >>=-eq-some (act s a) (λ t. acts t calls) e in
    Evolves-trans (act-Evolves s t a et) (acts-Evolves calls t s' e')
