-- ===== src/Aggregator/Delta/Apply.antt =====
-- When a delta applies, and with which result.
use move_tutorial.Prelude.{ℕ, ◌+◌, ◌≤◌, ◌<◌, ◌≡◌, ◌↔◌, ok, arith, u128_mod}
use move_tutorial.Aggregator.Delta.{DeltaUpdate, plus, minus, DeltaOp, apply_to}

-- What `apply_to` promises: the extremes stay in [0, limit], and so does the result.
abbrev pub Moves : DeltaUpdate → ℕ → ℕ → ℕ → Type 0
Moves (plus v) limit base r = (base + v ≤ limit) × (r ≡ base + v)
Moves (minus v) limit base r = r + v ≡ base

pub record Applies (d : DeltaOp) (base r : ℕ) : Type 0 where
  pub top : base + d.max_positive ≤ d.limit
  pub bottom : d.min_negative ≤ base
  pub result : Moves d.update d.limit base r

module _ (mx mn l base r : ℕ) (h : l < u128_mod) where
  abbrev at : DeltaUpdate → DeltaOp
  at u = record { max_positive = mx; min_negative = mn; limit = l; update = u }

  at_iff : (u : DeltaUpdate) → (apply_to (at u) base ≡ ok r) ↔ Applies (at u) base r
  unfolding apply_to
  at_iff (plus v) = (λ e. ground arith, λ a. ground arith)
  at_iff (minus v) = (λ e. ground arith, λ a. ground arith)

-- A delta with a limit in range takes `base` to `r` exactly when the largest value that it saw on
-- top of `base` is within the limit, the smallest is not below zero, and `r` is `base` moved by the
-- update, within the limit too.
pub apply_to_iff :
    (d : DeltaOp) (base r : ℕ) → d.limit < u128_mod → (apply_to d base ≡ ok r) ↔ Applies d base r
apply_to_iff d base r h = at_iff d.max_positive d.min_negative d.limit base r h d.update
