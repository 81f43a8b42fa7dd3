-- ===== src/Aggregator/Extension/Refinement/Steps.antt =====
-- One call on an aggregator that holds a delta: its outcome, branch by branch, and what the
-- outcome stands for on top of a value from storage.
use move_tutorial.Prelude.{Bool, true, false}
use move_tutorial.Prelude.{
  ℕ, ◌+◌, ◌-◌, ◌≤◌, ◌<◌, ◌≡◌, arith, leb, if◌then◌else◌, Option, none, some, Result, Failure,
  to_option, bind_option, u128_mod, max, ◌&&◌,
}
use move_tutorial.Aggregator.Extension.{
  positive_delta, negative_delta, Aggregator, add, sub, materialize,
}

-- The calls of a transaction on one aggregator.
pub data Change : Type 0 where
  adds subs : ℕ → Change

abbrev pub change : Change → Aggregator → Result Failure Aggregator
change (adds v) a = add a v
change (subs v) a = sub a v

-- The specification: a number that stays in [0, limit].
abbrev pub counter_step : ℕ → Change → ℕ → Option ℕ
counter_step limit (adds v) n = if leb (n + v) limit then some (n + v) else none
counter_step limit (subs v) n = if leb v n then some (n - v) else none

-- An aggregator in a delta state, without its limit.
pub record Pending : Type 0 where
  pub positive : Bool
  pub value : ℕ
  pub top : ℕ
  pub bottom : ℕ

abbrev pub plus_of : ℕ → ℕ → ℕ → Pending
plus_of v mx mn = record { positive = true; value = v; top = mx; bottom = mn }

abbrev pub minus_of : ℕ → ℕ → ℕ → Pending
minus_of v mx mn = record { positive = false; value = v; top = mx; bottom = mn }

abbrev pub at : ℕ → Pending → Aggregator
at l p = record {
  value = p.value;
  state = if p.positive then positive_delta else negative_delta;
  limit = l;
  history = some (record { max_positive = p.top; min_negative = p.bottom });
}

-- The value is among those that the history covers.
abbrev pub Tracks : Pending → Type 0
Tracks p = p.value ≤ (if p.positive then p.top else p.bottom)

abbrev next_of : ℕ → Change → Bool → ℕ → ℕ → ℕ → Option Pending
next_of l (adds x) true v mx mn =
    if leb (v + x) l then some (plus_of (v + x) (max mx (v + x)) mn) else none
next_of l (adds x) false v mx mn =
    if leb v x
    then some (plus_of (x - v) (max mx (x - v)) mn)
    else some (minus_of (v - x) mx (max mn (v - x)))
next_of l (subs x) true v mx mn =
    if leb x v
    then some (plus_of (v - x) (max mx (v - x)) mn)
    else if leb x l
    then some (minus_of (x - v) mx (max mn (x - v)))
    else none
next_of l (subs x) false v mx mn =
    if leb (v + x) l then some (minus_of (v + x) mx (max mn (v + x))) else none

abbrev pub next : ℕ → Change → Pending → Option Pending
next l c p = next_of l c p.positive p.value p.top p.bottom

change-next_of :
    (l v mx mn : ℕ) (c : Change) (s : Bool)
    → l < u128_mod
    → to_option (change c (at l (record { positive = s; value = v; top = mx; bottom = mn })))
      ≡ bind_option (next_of l c s v mx mn) (λ p. some (at l p))
unfolding add sub
change-next_of l v mx mn (adds x) true lt = ground arith
change-next_of l v mx mn (adds x) false lt = ground arith
change-next_of l v mx mn (subs x) true lt = ground arith
change-next_of l v mx mn (subs x) false lt = ground arith

pub change-next :
    (l : ℕ) (c : Change) (p : Pending)
    → l < u128_mod
    → to_option (change c (at l p)) ≡ bind_option (next l c p) (λ q. some (at l q))
change-next l c p lt = change-next_of l p.value p.top p.bottom c p.positive lt

-- The value that the delta stands for on top of `base`.
abbrev pub resolved : ℕ → ℕ → Pending → Option ℕ
resolved l base p =
    if leb (base + p.top) l && leb p.bottom base
    then some (if p.positive then base + p.value else base - p.value)
    else none

resolved-next_of :
    (l base v mx mn : ℕ) (c : Change) (s : Bool)
    → let p : Pending = record { positive = s; value = v; top = mx; bottom = mn } in
      Tracks p
      → base ≤ l
      → bind_option (next_of l c s v mx mn) (resolved l base)
        ≡ bind_option (resolved l base p) (counter_step l c)
resolved-next_of l base v mx mn (adds x) true t fits = ground arith
resolved-next_of l base v mx mn (adds x) false t fits = ground arith
resolved-next_of l base v mx mn (subs x) true t fits = ground arith
resolved-next_of l base v mx mn (subs x) false t fits = ground arith

pub resolved-next :
    (l base : ℕ) (c : Change) (p : Pending)
    → Tracks p
    → base ≤ l
    → bind_option (next l c p) (resolved l base)
      ≡ bind_option (resolved l base p) (counter_step l c)
resolved-next l base c p t fits = resolved-next_of l base p.value p.top p.bottom c p.positive t fits

next_of-Tracks :
    (l v mx mn : ℕ) (c : Change) (s : Bool) (q : Pending)
    → next_of l c s v mx mn ≡ some q
    → Tracks q
next_of-Tracks l v mx mn (adds x) true q e = ground arith
next_of-Tracks l v mx mn (adds x) false q e = ground arith
next_of-Tracks l v mx mn (subs x) true q e = ground arith
next_of-Tracks l v mx mn (subs x) false q e = ground arith

pub next-Tracks : (l : ℕ) (c : Change) (p q : Pending) → next l c p ≡ some q → Tracks q
next-Tracks l c p q e = next_of-Tracks l p.value p.top p.bottom c p.positive q e

materialize-of :
    (l base v mx mn : ℕ) (s : Bool)
    → l < u128_mod
    → let p : Pending = record { positive = s; value = v; top = mx; bottom = mn } in
      Tracks p
      → bind_option (to_option (materialize (at l p) base)) (λ r. some r.0) ≡ resolved l base p
unfolding materialize
materialize-of l base v mx mn true lt t = ground arith
materialize-of l base v mx mn false lt t = ground arith

-- Materializing gives the value that the delta stands for, and fails where it stands for none.
pub materialize-resolved :
    (l base : ℕ) (p : Pending)
    → l < u128_mod
    → Tracks p
    → bind_option (to_option (materialize (at l p) base)) (λ r. some r.0) ≡ resolved l base p
materialize-resolved l base p lt t = materialize-of l base p.value p.top p.bottom p.positive lt t
