-- ===== src/Aggregator/Delta/Merge/Cases.antt =====
-- `merge_onto` at two updates: what a merged delta does, and why a refused merge was right to refuse.
use move_tutorial.Prelude.{ℕ, ◌+◌, ◌-◌, ◌≤◌, ◌<◌, ◌≡◌, ok, arith, u128_mod, err}
use move_tutorial.Prelude.{PartialVmError}
use move_tutorial.Aggregator.Delta.{DeltaUpdate, plus, minus, DeltaOp, merge_onto}
use move_tutorial.Aggregator.Delta.Apply.{Applies}

-- The update is among the values that the extremes cover.
abbrev pub Covers : DeltaUpdate → ℕ → ℕ → Type 0
Covers (plus v) mx mn = v ≤ mx
Covers (minus v) mx mn = v ≤ mn

abbrev pub IsCovered : DeltaOp → Type 0
IsCovered d = Covers d.update d.max_positive d.min_negative

-- The value between the two deltas.
abbrev pub between : DeltaUpdate → ℕ → ℕ
between (plus v) base = base + v
between (minus v) base = base - v

module _ (m1 n1 m2 n2 l : ℕ) (lt : l < u128_mod) where
  abbrev pub fst : DeltaUpdate → DeltaOp
  fst u = record { max_positive = m1; min_negative = n1; limit = l; update = u }

  abbrev pub snd : DeltaUpdate → DeltaOp
  snd u = record { max_positive = m2; min_negative = n2; limit = l; update = u }

  pub split :
      (u w : DeltaUpdate)
      → Covers u m1 n1
      → (m : DeltaOp) (base r : ℕ) → merge_onto (snd w) (fst u) ≡ ok m
      → Applies m base r
      → Applies (fst u) base (between u base) × Applies (snd w) (between u base) r
  unfolding merge_onto
  split (plus a) (plus b) c m base r e h = ground arith
  split (plus a) (minus b) c m base r e h = ground arith
  split (minus a) (plus b) c m base r e h = ground arith
  split (minus a) (minus b) c m base r e h = ground arith

  pub join :
      (u w : DeltaUpdate) (m : DeltaOp) (base s r : ℕ)
      → merge_onto (snd w) (fst u) ≡ ok m
      → Applies (fst u) base s
      → Applies (snd w) s r
      → Applies m base r
  unfolding merge_onto
  join (plus a) (plus b) m base s r e h k = ground arith
  join (plus a) (minus b) m base s r e h k = ground arith
  join (minus a) (plus b) m base s r e h k = ground arith
  join (minus a) (minus b) m base s r e h k = ground arith

  pub blocked :
      (u w : DeltaUpdate) (e : PartialVmError) (base s r : ℕ)
      → merge_onto (snd w) (fst u) ≡ err e
      → Applies (fst u) base s
      → Applies (snd w) s r
      → ⊥
  unfolding merge_onto
  blocked (plus a) (plus b) e base s r q h k = ground arith
  blocked (plus a) (minus b) e base s r q h k = ground arith
  blocked (minus a) (plus b) e base s r q h k = ground arith
  blocked (minus a) (minus b) e base s r q h k = ground arith

  pub covered :
      (u w : DeltaUpdate) (m : DeltaOp)
      → Covers u m1 n1
      → Covers w m2 n2
      → merge_onto (snd w) (fst u) ≡ ok m
      → IsCovered m
  unfolding merge_onto
  covered (plus a) (plus b) m c d e = ground arith
  covered (plus a) (minus b) m c d e = ground arith
  covered (minus a) (plus b) m c d e = ground arith
  covered (minus a) (minus b) m c d e = ground arith

  pub limit-merge :
      (u w : DeltaUpdate) (m : DeltaOp) → merge_onto (snd w) (fst u) ≡ ok m → m.limit ≡ l
  unfolding merge_onto
  limit-merge (plus a) (plus b) m e = ground arith
  limit-merge (plus a) (minus b) m e = ground arith
  limit-merge (minus a) (plus b) m e = ground arith
  limit-merge (minus a) (minus b) m e = ground arith
