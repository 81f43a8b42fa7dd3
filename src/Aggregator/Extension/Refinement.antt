-- ===== src/Aggregator/Extension/Refinement.antt =====
-- `Aggregator` of aptos-aggregator/src/aggregator_extension.rs, compared with a counter.
mod Steps
pub use Steps.{Change, adds, subs, change, counter_step, Pending, at, Tracks, resolved}
use move_tutorial.Prelude.{Bool, true, false}
use Steps.{
  Pending, at, Tracks, next, change-next, resolved, resolved-next, next-Tracks,
  materialize-resolved,
}
use move_tutorial.Prelude.{
  ℕ, ◌≤◌, ◌<◌, ◌≡◌, ◌∙◌, refl, sym, ap, arith, leb, inl, inr, if◌then◌else◌, Option, none, some,
  Option-cases, Result, ok, err, Result-cases, Failure, to_option, bind_option, ◌>>=◌, List, [],
  ◌∷◌, u128_mod,
}
use move_tutorial.Aggregator.Extension.{
  known_data, positive_delta, Aggregator, add, sub, new_history, materialize,
}

unfoldable pub changes : List Change → Aggregator → Result Failure Aggregator
changes [] a = ok a
changes (c ∷ cs) a = change c a >>= changes cs

unfoldable pub counter : ℕ → List Change → ℕ → Option ℕ
counter limit [] n = some n
counter limit (c ∷ cs) n = bind_option (counter_step limit c n) (counter limit cs)

-- The calls, and then a look at the aggregator that they leave.
abbrev pub after : (Aggregator → Option ℕ) → List Change → Aggregator → Option ℕ
after look cs a = bind_option (to_option (changes cs a)) look

-- The value that a read gives, if storage holds `base`.
abbrev pub read_value : ℕ → Aggregator → Option ℕ
read_value base a = bind_option (to_option (materialize a base)) (λ r. some r.0)

bind-some {ℓ} : {A : Type ℓ} (o : Option A) → o ≡ bind_option o (λ a. some a)
bind-some none = refl
bind-some (some a) = refl

bind-bind {ℓ} :
    {A B C : Type ℓ} (o : Option A) (f : A → Option B) (g : B → Option C)
    → bind_option (bind_option o f) g ≡ bind_option o (λ a. bind_option (f a) g)
bind-bind none f g = refl
bind-bind (some a) f g = refl

after-cons :
    (look : Aggregator → Option ℕ) (c : Change) (cs : List Change) (a : Aggregator)
    → after look (c ∷ cs) a ≡ bind_option (to_option (change c a)) (after look cs)
unfolding changes
after-cons look c cs a = elim (Result-cases (change c a)) [ inl (b, e) ↦ rw e | inr (x, e) ↦ rw e ]

resolved-start :
    (l base : ℕ)
    → base ≤ l
    → resolved l base (record { positive = true; value = 0; top = 0; bottom = 0 }) ≡ some base
resolved-start l base fits = ground arith

abbrev pub fresh : ℕ → Aggregator
fresh limit = record {
  value = 0;
  state = positive_delta;
  limit = limit;
  history = some new_history;
}

-- `look` finds the number that a delta stands for on top of `base`.
module _ (l base : ℕ) (lt : l < u128_mod) (fits : base ≤ l) (look : Aggregator → Option ℕ)
    (sees : (p : Pending) → Tracks p → look (at l p) ≡ resolved l base p) where
  -- One call more, on both sides.
  after-next :
      (c : Change) (cs : List Change) (p : Pending)
      → after look (c ∷ cs) (at l p) ≡ bind_option (next l c p) (λ q. after look cs (at l q))
  after-next c cs p =
      after-cons look c cs (at l p)
      ∙ ap (λ o. bind_option o (after look cs)) (change-next l c p lt)
      ∙ bind-bind (next l c p) (λ q. some (at l q)) (after look cs)

  counter-next :
      (c : Change) (cs : List Change) (p : Pending)
      → Tracks p
      → bind_option (bind_option (next l c p) (resolved l base)) (counter l cs)
        ≡ bind_option (resolved l base p) (counter l (c ∷ cs))
  unfolding counter
  counter-next c cs p t =
      ap (λ o. bind_option o (counter l cs)) (resolved-next l base c p t fits)
      ∙ bind-bind (resolved l base p) (counter_step l c) (counter l cs)

  after-resolved :
      (cs : List Change) (p : Pending)
      → Tracks p
      → after look cs (at l p) ≡ bind_option (resolved l base p) (counter l cs)
  unfolding changes counter
  after-resolved [] p t = sees p t ∙ bind-some (resolved l base p)
  after-resolved (c ∷ cs) p t = elim (Option-cases (next l c p)) [
    | inl e ↦ after-next c cs p ∙ rw (e, bind_option) refl ∙ counter-next c cs p t
    | inr (q, e) ↦
        after-next c cs p
        ∙ ap (λ o. bind_option o (λ q. after look cs (at l q))) e
        ∙ after-resolved cs q (next-Tracks l c p q e)
        ∙ ap (λ o. bind_option (bind_option o (resolved l base)) (counter l cs)) (sym e)
        ∙ counter-next c cs p t
  ]

  pub after-fresh : (cs : List Change) → after look cs (fresh l) ≡ counter l cs base
  after-fresh cs =
      after-resolved cs (record { positive = true; value = 0; top = 0; bottom = 0 }) (omega arith)
      ∙ ap (λ o. bind_option o (counter l cs)) (resolved-start l base fits)

abbrev pub known : ℕ → ℕ → Aggregator
known limit n = record { value = n; state = known_data; limit = limit; history = none }

-- Take an aggregator that a transaction has not read, with a limit in range. Whatever sums and
-- differences the transaction asks of it, and whatever value within the limit storage holds: the
-- calls and a read at the end succeed with the value r exactly when a counter, started at the
-- stored value and kept within [0, limit] at every step, ends at r.
pub changes-counter :
    (limit base : ℕ) (cs : List Change)
    → limit < u128_mod
    → base ≤ limit
    → after (read_value base) cs (fresh limit) ≡ counter limit cs base
changes-counter l base cs lt fits =
    after-fresh l base lt fits (read_value base) (λ p. materialize-resolved l base p lt) cs

known-step :
    (l n : ℕ) (c : Change)
    → l < u128_mod
    → n ≤ l
    → to_option (change c (known l n)) ≡ bind_option (counter_step l c n) (λ m. some (known l m))
unfolding add sub
known-step l n (adds x) lt fits = ground arith
known-step l n (subs x) lt fits = ground arith

counter_step-le : (l n m : ℕ) (c : Change) → n ≤ l → counter_step l c n ≡ some m → m ≤ l
counter_step-le l n m (adds x) fits e = ground arith
counter_step-le l n m (subs x) fits e = ground arith

changes-cons :
    (c : Change) (cs : List Change) (a : Aggregator)
    → to_option (changes (c ∷ cs) a)
      ≡ bind_option (to_option (change c a)) (λ b. to_option (changes cs b))
unfolding changes
changes-cons c cs a = elim (Result-cases (change c a)) [ inl (b, e) ↦ rw e | inr (x, e) ↦ rw e ]

-- An aggregator that knows its value n, within a limit in range, is the counter: after any calls
-- it knows the counter's value, and it fails exactly when the counter leaves [0, limit].
pub known-counter :
    (limit n : ℕ) (cs : List Change)
    → limit < u128_mod
    → n ≤ limit
    → to_option (changes cs (known limit n))
      ≡ bind_option (counter limit cs n) (λ m. some (known limit m))
unfolding changes counter
known-counter l n [] lt fits = refl
known-counter l n (c ∷ cs) lt fits = elim (Option-cases (counter_step l c n)) [
  | inl e ↦
      changes-cons c cs (known l n)
      ∙ ap (λ o. bind_option o (λ b. to_option (changes cs b))) (known-step l n c lt fits)
      ∙ rw (e, bind_option)
  | inr (m, e) ↦
      changes-cons c cs (known l n)
      ∙ ap (λ o. bind_option o (λ b. to_option (changes cs b))) (known-step l n c lt fits)
      ∙ rw (e, bind_option) (known-counter l m cs lt (counter_step-le l n m c fits e))
]
