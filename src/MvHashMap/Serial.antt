-- ===== src/MvHashMap/Serial.antt =====
-- What a path holds when the transactions run in their order, and what a read says of that.
pub mod Deltas
pub mod Agreement
use move_tutorial.Aggregator.Delta.Merge.{merge_onto-limit}
use mathlib.Core.Path.{fun_ext}
use move_tutorial.Prelude.{PartialVmError}
use move_tutorial.MvHashMap.{resolve_write, proceed}
use move_tutorial.Prelude.{PartialVmResult}
use mathlib.Core.Path.{subst}
use mathlib.Core.List.{append-nil, append_assoc}
use move_tutorial.Prelude.{
  ℕ, ◌<◌, ◌≡◌, ◌∙◌, refl, sym, ap, arith, Bool, true, false, ltb, ◌==◌, Bool-cases, inl, inr,
  if◌then◌else◌, Option, none, some, Result, ok, err, Result-cases, List, [], ◌∷◌, ◌++◌, to_option,
  bind_option, u128_mod,
}
use move_tutorial.Aggregator.Delta.{DeltaOp, apply_to, merge_onto}
use move_tutorial.Aggregator.Delta.Merge.{IsCovered, merge_onto-apply_to}
use move_tutorial.MvHashMap.{
  TxnIndex, Incarnation, Entry, EntryCell, write, delta, flag_estimate, MvHashMapError, not_found,
  unresolved, dependency, delta_application_failure, MvHashMapOutput, resolved, version,
  TransactionWrite, ReadResult, from_write, apply_result, visit, traverse,
}

-- Deltas one after the other, the oldest first.
unfoldable pub apply_all : List DeltaOp → ℕ → Option ℕ
apply_all [] base = some base
apply_all (d ∷ ds) base = bind_option (to_option (apply_to d base)) (apply_all ds)

-- What a path holds after some transactions ran in order. `blocked` is an entry of which only an
-- estimate is known; `stuck` a value that is no number, under a delta.
pub data Content (V : Type 0) : Type 0 where
  absent : Content V
  written : TxnIndex → Incarnation → V → Content V
  number : ℕ → Content V
  pending : List DeltaOp → Content V
  failed : Content V
  blocked : TxnIndex → Content V
  stuck : Content V

module _ {V : Type 0} (w : TransactionWrite V) where
  abbrev pub to_number : Option ℕ → Content V
  to_number none = failed
  to_number (some r) = number r

  -- A delta over a write: the last argument is what the write holds.
  abbrev pub apply_written : DeltaOp → Content V → Option (Option ℕ) → Content V
  apply_written d c none = stuck
  apply_written d c (some none) = c
  apply_written d c (some (some x)) = to_number (to_option (apply_to d x))

  abbrev pub apply_one : DeltaOp → Content V → Content V
  apply_one d absent = pending (d ∷ [])
  apply_one d (written i n v) = apply_written d (written i n v) (from_write w v)
  apply_one d (number x) = to_number (to_option (apply_to d x))
  apply_one d (pending ds) = pending (ds ++ d ∷ [])
  apply_one d failed = failed
  apply_one d (blocked i) = blocked i
  apply_one d stuck = stuck

  abbrev pub run_cell : TxnIndex → EntryCell V → Content V → Content V
  run_cell i (write n v) before = written i n v
  run_cell i (delta d) before = apply_one d before

  -- The entries, the last one first; the rest of the list ran before.
  unfoldable pub serial : List (TxnIndex × Entry V) → Content V
  serial [] = absent
  serial ((i, e) ∷ before) =
      if e.flag == flag_estimate then blocked i else run_cell i e.cell (serial before)

  pub apply_list : List DeltaOp → Content V → Content V
  apply_list [] c = c
  apply_list (d ∷ ds) c = apply_list ds (apply_one d c)

  -- Contents of which a read may say that a delta failed.
  abbrev pub Fails : Content V → Type 0
  Fails absent = ⊥
  Fails (written i n v) = from_write w v ≡ some none
  Fails (number x) = ⊥
  Fails (pending ds) = (base : ℕ) → apply_all ds base ≡ none
  Fails failed = Unit
  Fails (blocked i) = Unit
  Fails stuck = Unit

  -- What each result of a read says of the serial execution.
  abbrev pub Agrees : ReadResult V → Content V → Type 0
  Agrees none c = c ≡ stuck
  Agrees (some (ok (version (i, n) v))) c = c ≡ written i n v
  Agrees (some (ok (resolved r))) c = c ≡ number r
  Agrees (some (err not_found)) c = c ≡ absent
  Agrees (some (err (unresolved d))) c =
      (ds : List DeltaOp) × (c ≡ pending ds)
      × ((base : ℕ) → to_option (apply_to d base) ≡ apply_all ds base)
  Agrees (some (err (dependency i))) c = c ≡ blocked i
  Agrees (some (err delta_application_failure)) c = Fails c

  -- A delta is covered and has the limit `l`.
  abbrev pub IsGoodCell : ℕ → EntryCell V → Type 0
  IsGoodCell l (write n v) = Unit
  IsGoodCell l (delta d) = IsCovered d × (d.limit ≡ l)

  abbrev pub AllDeltas : ℕ → List (TxnIndex × Entry V) → Type 0
  AllDeltas l [] = Unit
  AllDeltas l ((i, e) ∷ rest) = IsGoodCell l e.cell × AllDeltas l rest

  -- `a` does what the deltas `ds` do.
  abbrev pub Stands : ℕ → DeltaOp → List DeltaOp → Type 0
  Stands l a ds = (a.limit ≡ l) × ((base : ℕ) → to_option (apply_to a base) ≡ apply_all ds base)

  abbrev pub Rep : ℕ → Option DeltaOp → List DeltaOp → Type 0
  Rep l none [] = Unit
  Rep l none (d ∷ ds) = ⊥
  Rep l (some a) [] = ⊥
  Rep l (some a) (d ∷ ds) = Stands l a (d ∷ ds)
