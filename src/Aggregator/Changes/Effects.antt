-- ===== src/Aggregator/Changes/Effects.antt =====
-- What a change does to the value in storage; sessions, and sessions squashed.
use move_tutorial.Aggregator.Delta.Merge.{merge_onto-apply_to}
use move_tutorial.Prelude.{bind_option-eq-some, to_option-eq-some}
use move_tutorial.Prelude.{
  ℕ, ◌≤◌, ◌<◌, ◌≡◌, ◌∙◌, refl, sym, arith, Bool, true, false, inl, inr, Option, none, some, ok,
  Result-cases, to_option, bind_option, List, u128_mod,
}
use move_tutorial.Aggregator.Delta.{DeltaOp, apply_to, merge_onto}
use move_tutorial.Aggregator.Delta.Merge.{IsCovered}
use move_tutorial.Aggregator.Extension.{Aggregator}
use move_tutorial.Aggregator.Extension.Refinement.{
  Change, after, fresh, counter, after-fresh, Pending, at, Tracks, resolved,
}
use move_tutorial.Aggregator.Changes.{
  AggregatorChange, write, merge, delete, change_of, squash_change,
}

-- The value in storage after the change, `none` if there is none, or a failure.
unfoldable pub effect : AggregatorChange → ℕ → Option (Option ℕ)
effect (write v) base = some (some v)
effect (merge d) base = bind_option (to_option (apply_to d base)) (λ v. some (some v))
effect delete base = some none

abbrev pub exported : ℕ → Aggregator → Option ℕ
exported base a = bind_option (to_option (change_of a)) λ c. bind_option (effect c base) (λ v. v)

exported-of :
    (l base v mx mn : ℕ) (s : Bool)
    → l < u128_mod
    → let p : Pending = record { positive = s; value = v; top = mx; bottom = mn } in
      Tracks p → exported base (at l p) ≡ resolved l base p
unfolding change_of effect apply_to
exported-of l base v mx mn true lt t = ground arith
exported-of l base v mx mn false lt t = ground arith

-- Take an aggregator that a transaction does not read, with a limit in range, and any calls on it.
-- The change that the transaction exports for it, applied to a stored value within the limit, gives
-- r exactly when the counter, started at the stored value and kept in [0, limit] at every step,
-- ends at r.
pub exported-counter :
    (limit base : ℕ) (cs : List Change)
    → limit < u128_mod
    → base ≤ limit
    → after (exported base) cs (fresh limit) ≡ counter limit cs base
exported-counter l base cs lt fits =
    after-fresh l base lt fits (exported base)
      (λ p. exported-of l base p.value p.top p.bottom p.positive lt) cs

-- Deltas of a session: the extremes cover the update, and the limit is the aggregator's.
abbrev pub IsDelta : ℕ → AggregatorChange → Type 0
IsDelta limit (merge d) = IsCovered d × (d.limit ≡ limit)
IsDelta limit _ = Unit

squash_merge :
    (l base v : ℕ) (d e : DeltaOp) (r : ℕ)
    → l < u128_mod
    → IsCovered d
    → d.limit ≡ l
    → e.limit ≡ l
    → to_option (apply_to d base) ≡ some v
    → to_option (apply_to e v) ≡ some r
    → (m : DeltaOp) × (merge_onto e d ≡ ok m) × (to_option (apply_to m base) ≡ some r)
squash_merge l base v d e r lt c dl el first second =
    let both : bind_option (to_option (merge_onto e d)) (λ m. to_option (apply_to m base))
        ≡ some r =
      merge_onto-apply_to e d base (dl ∙ sym el) (omega arith) c ∙ cc (first, second) in
    let (m, em, ea) =
      bind_option-eq-some (to_option (merge_onto e d)) (λ m. to_option (apply_to m base)) r both in
    (m, to_option-eq-some (merge_onto e d) m em, ea)

-- A merge's effect is a value.
merge-value :
    (d : DeltaOp) (base : ℕ) (r : Option ℕ)
    → effect (merge d) base ≡ some r
    → (x : ℕ) × (to_option (apply_to d base) ≡ some x) × (r ≡ some x)
unfolding effect
merge-value d base r e =
    let (x, ex, er) =
      bind_option-eq-some (to_option (apply_to d base)) (λ v. some (some v)) (r) e in
    (x, ex, ground arith)

-- One session changes the aggregator at an id, and a later session changes it again; the deltas are
-- covered and have the aggregator's limit. If the first change takes the stored value to v and the
-- second takes v on, then squashing the two changes succeeds, and the squashed change does to the
-- stored value what the two did one after the other.
pub squash_change-effect :
    (limit base v : ℕ) (c1 c2 : AggregatorChange) (r : Option ℕ)
    → limit < u128_mod
    → IsDelta limit c1
    → IsDelta limit c2
    → effect c1 base ≡ some (some v)
    → effect c2 v ≡ some r
    → (c : AggregatorChange) × (squash_change c1 c2 ≡ ok c) × (effect c base ≡ some r)
unfolding squash_change effect
squash_change-effect l base v delete c2 r lt w1 w2 e1 e2 = absurd (ground arith)
squash_change-effect l base v (write a) (write b) r lt w1 w2 e1 e2 = (write b, refl, ground arith)
squash_change-effect l base v (merge d) (write b) r lt w1 w2 e1 e2 = (write b, refl, ground arith)
squash_change-effect l base v (write a) delete r lt w1 w2 e1 e2 = (delete, refl, ground arith)
squash_change-effect l base v (merge d) delete r lt w1 w2 e1 e2 = (delete, refl, ground arith)
squash_change-effect l base v (write a) (merge d) r lt w1 w2 e1 e2 =
    elim (Result-cases (apply_to d v)) [
      | inl (x, ex) ↦ (write x, ground arith, ground arith)
      | inr (y, ey) ↦ absurd (ground arith)
    ]
squash_change-effect l base v (merge d) (merge e) r lt w1 w2 e1 e2 =
    let (x, ex, xv) = merge-value d base (some v) e1 in
    let (y, ey, yr) = merge-value e v r e2 in
    let (m, em, ea) = squash_merge l base v d e y lt w1.0 w1.1 w2.1 (cc) ey in
    (merge m, ground (arith, em), ground (arith, ea, yr))
