-- ===== src/MvHashMap/Serial/Agreement.antt =====
-- A read returns what the serial execution of the entries below it leaves.
use move_tutorial.MvHashMap.Range.{read-traverse}
use move_tutorial.Aggregator.Delta.Merge.{merge_onto-limit}
use mathlib.Core.Path.{fun_ext}
use move_tutorial.Prelude.{PartialVmError}
use move_tutorial.MvHashMap.{resolve_write, proceed}
use move_tutorial.Prelude.{PartialVmResult}
use mathlib.Core.Path.{subst}
use move_tutorial.Prelude.{
  ℕ, ◌<◌, ◌≡◌, ◌∙◌, refl, sym, ap, arith, ◌==◌, Bool-cases, inl, inr, Option, none, some, ok, err,
  List, [], ◌∷◌, to_option, bind_option, u128_mod,
}
use move_tutorial.Aggregator.Delta.{DeltaOp, apply_to, merge_onto}
use move_tutorial.Aggregator.Delta.Merge.{IsCovered, merge_onto-apply_to}
use move_tutorial.MvHashMap.{
  TxnIndex, Entry, EntryCell, write, delta, flag_estimate, TransactionWrite, ReadResult, from_write,
  visit, traverse,
}
use move_tutorial.MvHashMap.Serial.{
  apply_all, Content, written, to_number, apply_written, run_cell, serial, apply_list, Agrees,
  IsGoodCell, AllDeltas, Stands, Rep,
}
use move_tutorial.MvHashMap.Serial.Deltas.{
  bind-some, apply_list-pending, apply_list-blocked, apply_list-stuck, apply_list-deletion,
  apply_list-to_number, number-result, all_fail,
}
use move_tutorial.MvHashMap.{tree_at, read, range_back, EntryMap}
use move_tutorial.Prelude.Map.{Key, Map}

module _ {V : Type 0} (w : TransactionWrite V) where
  -- A write under deltas.
  write-Agrees :
      (l i n : ℕ) (v : V) (a d : DeltaOp) (ds : List DeltaOp) (o : Option (Option ℕ))
      → Stands w l a (d ∷ ds)
      → from_write w v ≡ o
      → Agrees w
          (resolve_write w a (i, n) v o)
          (apply_list w ds (apply_written w d (written i n v) o))
  unfolding apply_all
  write-Agrees l i n v a d ds none s e = apply_list-stuck w ds
  write-Agrees l i n v a d ds (some none) s e = apply_list-deletion w ds i n v e
  write-Agrees l i n v a d ds (some (some x)) s e =
      number-result w (apply_to a x) _
        (apply_list-to_number w ds (to_option (apply_to d x)) ∙ ap (to_number w) (sym (s.1 x)))

  fold_merged :
      (l : ℕ) (a m p d : DeltaOp) (ds : List DeltaOp)
      → l < u128_mod
      → Stands w l a (d ∷ ds)
      → IsCovered p × (p.limit ≡ l)
      → merge_onto a p ≡ ok m
      → Stands w l m (p ∷ d ∷ ds)
  unfolding apply_all
  fold_merged l a m p d ds lt s c e = (
    merge_onto-limit a p m (c.1 ∙ sym s.0) (omega (arith, s.0)) e ∙ s.0,
    λ base.
        ap (λ r. bind_option (to_option r) (λ x. to_option (apply_to x base))) (sym e)
        ∙ merge_onto-apply_to a p base (c.1 ∙ sym s.0) (omega (arith, s.0)) c.0
        ∙ ap (bind_option (to_option (apply_to p base))) (fun_ext s.1),
  )

  fold_failed :
      (l : ℕ) (a p d : DeltaOp) (ds : List DeltaOp) (x : PartialVmError)
      → l < u128_mod
      → Stands w l a (d ∷ ds)
      → IsCovered p × (p.limit ≡ l)
      → merge_onto a p ≡ err x
      → (base : ℕ) → apply_all (p ∷ d ∷ ds) base ≡ none
  unfolding apply_all
  fold_failed l a p d ds x lt s c e base =
      ap (bind_option (to_option (apply_to p base))) (fun_ext (λ y. sym (s.1 y)))
      ∙ sym (merge_onto-apply_to a p base (c.1 ∙ sym s.0) (omega (arith, s.0)) c.0)
      ∙ ap (λ r. bind_option (to_option r) (λ z. to_option (apply_to z base))) e

  module _ (l : ℕ) (lt : l < u128_mod) (before : Content V) (next : Option DeltaOp → ReadResult V)
      (ih : (acc : Option DeltaOp) (ds : List DeltaOp)
        → Rep w l acc ds
        → Agrees w (next acc) (apply_list w ds before)) where
    proceed-Agrees :
        (a p d : DeltaOp) (ds : List DeltaOp) (r : PartialVmResult DeltaOp)
        → Stands w l a (d ∷ ds)
        → IsCovered p × (p.limit ≡ l)
        → merge_onto a p ≡ r
        → Agrees w (proceed w next r) (apply_list w (p ∷ d ∷ ds) before)
    proceed-Agrees a p d ds (ok m) s c e =
        ih (some m) (p ∷ d ∷ ds) (fold_merged l a m p d ds lt s c e)
    proceed-Agrees a p d ds (err x) s c e =
        all_fail w p (d ∷ ds) (fold_failed l a p d ds x lt s c e) before

    visit-Agrees :
        (i : ℕ) (cell : EntryCell V) (acc : Option DeltaOp) (ds : List DeltaOp)
        → Rep w l acc ds
        → IsGoodCell w l cell
        → Agrees w (visit w next i cell acc) (apply_list w ds (run_cell w i cell before))
    unfolding apply_list apply_all
    visit-Agrees i (write n v) none [] r c = refl
    visit-Agrees i (write n v) none (d ∷ ds) r c = elim r [ ]
    visit-Agrees i (write n v) (some a) [] r c = elim r [ ]
    visit-Agrees i (write n v) (some a) (d ∷ ds) r c =
        write-Agrees l i n v a d ds (from_write w v) r refl
    visit-Agrees i (delta p) none [] r c =
        ih (some p) (p ∷ []) (c.1, λ base. bind-some (to_option (apply_to p base)))
    visit-Agrees i (delta p) none (d ∷ ds) r c = elim r [ ]
    visit-Agrees i (delta p) (some a) [] r c = elim r [ ]
    visit-Agrees i (delta p) (some a) (d ∷ ds) r c =
        proceed-Agrees a p d ds (merge_onto a p) r c refl

  traverse-Agrees :
      (l : ℕ)
      → l < u128_mod
      → (es : List (TxnIndex × Entry V)) (acc : Option DeltaOp) (ds : List DeltaOp)
      → AllDeltas w l es
      → Rep w l acc ds
      → Agrees w (traverse w es acc) (apply_list w ds (serial w es))
  unfolding traverse serial apply_list
  traverse-Agrees l lt [] none [] c r = refl
  traverse-Agrees l lt [] none (d ∷ ds) c r = elim r [ ]
  traverse-Agrees l lt [] (some a) [] c r = elim r [ ]
  traverse-Agrees l lt [] (some a) (d ∷ ds) c r = (d ∷ ds, apply_list-pending w ds (d ∷ []), r.1)
  traverse-Agrees l lt ((i, e) ∷ es) acc ds c r = elim (Bool-cases (e.flag == flag_estimate)) [
    | inl est ↦ rw est (apply_list-blocked w ds i)
    | inr fin ↦ rw fin (
        visit-Agrees l lt (serial w es) (traverse w es) (λ a fs. traverse-Agrees l lt es a fs c.1) i
          e.cell acc ds r c.0)
  ]

-- The entries below `txn_idx` at the key, the last one first.
abbrev pub entries_below :
    {K V : Type 0} ⦃k : Key K⦄ → Map K (EntryMap V) → K → TxnIndex → List (TxnIndex × Entry V)
entries_below m key txn_idx = range_back txn_idx (tree_at key m) []

-- Suppose the deltas below the reader are covered and have one limit in range. Then a read returns
-- what the entries below it leave when they are run in their order: a version or a number is the one
-- that the path holds, `not_found` says that it was not written, `unresolved` gives one delta that
-- does to every stored value what all the deltas do in turn, `dependency` names the latest estimate.
-- Only if the serial run fails, meets an estimate, a deletion or a value that is no number, or its
-- deltas fail at every stored value, is the result a failed application, and only a value that is no
-- number under a delta makes the read panic.
pub read-Agrees :
    {K V : Type 0} ⦃k : Key K⦄ (w : TransactionWrite V) (m : Map K (EntryMap V)) (key : K)
    (txn_idx limit : ℕ)
    → limit < u128_mod
    → AllDeltas w limit (entries_below m key txn_idx)
    → Agrees w (read w m key txn_idx) (serial w (entries_below m key txn_idx))
unfolding read serial apply_list
read-Agrees w m key t l lt good =
    subst (λ r. Agrees w r (serial w (entries_below m key t))) (sym (read-traverse w m key t))
      (traverse-Agrees w l lt (entries_below m key t) none [] good tt)
