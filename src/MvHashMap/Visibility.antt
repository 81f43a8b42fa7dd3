-- ===== src/MvHashMap/Visibility.antt =====
-- Which reads an update of mvhashmap/src/lib.rs leaves as they were.
use move_tutorial.Prelude.{◌⊎◌}
use move_tutorial.MvHashMap.{estimate_entry}
use move_tutorial.Aggregator.Delta.{DeltaOp}
use move_tutorial.MvHashMap.{Incarnation}
use mathlib.Core.Path.{subst}
use move_tutorial.Prelude.{
  ℕ, ◌≤◌, ◌≡◌, ◌≢◌, ◌∙◌, refl, sym, ap, arith, true, false, Bool-cases, inl, inr, Option, none,
  some, [],
}
use move_tutorial.Prelude.Map.{Key, Map, nat_key, lookup, insert, remove, lookup-insert}
use move_tutorial.MvHashMap.{
  TxnIndex, Entry, EntryMap, write, delta, flag_done, flag_estimate, TransactionWrite, range_back,
  traverse, read, or_empty, tree_at, add_write, add_delta, mark_estimate, estimate_in, delete,
}
use move_tutorial.MvHashMap.Range.{range_back-insert_le, range_back-remove_le, read-traverse}

-- The methods that change the store.
pub data Update (V : Type 0) : Type 0 where
  adds_write : TxnIndex → Incarnation → V → Update V
  adds_delta : TxnIndex → DeltaOp → Update V
  estimates deletes : TxnIndex → Update V

abbrev pub index : {V : Type 0} → Update V → TxnIndex
index (adds_write i n v) = i
index (adds_delta i d) = i
index (estimates i) = i
index (deletes i) = i

module _ {K V : Type 0} ⦃k : Key K⦄ where
  abbrev pub update : Map K (EntryMap V) → K → Update V → Option (Map K (EntryMap V))
  update m key (adds_write i n v) = add_write m key (i, n) v
  update m key (adds_delta i d) = some (add_delta m key i d)
  update m key (estimates i) = mark_estimate m key i
  update m key (deletes i) = delete m key i

  -- An update puts back a tree with the same entries below every reader at or under its index.
  record Touches (m n : Map K (EntryMap V)) (key : K) (i : TxnIndex) : Type 0 where
    tree : EntryMap V
    result : n ≡ insert key tree m
    lower : (t : ℕ) → t ≤ i → range_back t tree [] ≡ range_back t (tree_at key m) []

  estimate_entry-Touches :
      (m n : Map K (EntryMap V)) (key : K) (i : TxnIndex) (o : Option (Entry V))
      → estimate_entry key m i (tree_at key m) o ≡ some n
      → Touches m n key i
  estimate_entry-Touches m n key i none e = absurd (ground arith)
  estimate_entry-Touches m n key i (some f) e = record {
    tree = insert i (record f { flag = flag_estimate }) (tree_at key m);
    result = ground arith;
    lower = λ t h. range_back-insert_le t i _ (tree_at key m) [] h;
  }

  estimate_in-Touches :
      (m n : Map K (EntryMap V)) (key : K) (i : TxnIndex) (o : Option (EntryMap V))
      → lookup key m ≡ o
      → estimate_in key m i o ≡ some n
      → Touches m n key i
  estimate_in-Touches m n key i none q e = absurd (ground arith)
  estimate_in-Touches m n key i (some tree) q e =
      let at : tree_at key m ≡ tree = ap or_empty q in
      estimate_entry-Touches m n key i (lookup i tree)
        (subst (λ x. estimate_entry key m i x (lookup i tree) ≡ some n) (sym at) e)

  update-Touches :
      (m n : Map K (EntryMap V)) (key : K) (u : Update V)
      → update m key u ≡ some n
      → Touches m n key (index u)
  unfolding add_write add_delta mark_estimate delete
  update-Touches m n key (adds_write i x v) e = record {
    tree = insert i (record { flag = flag_done; cell = write x v }) (tree_at key m);
    result = ground arith;
    lower = λ t h. range_back-insert_le t i _ (tree_at key m) [] h;
  }
  update-Touches m n key (adds_delta i d) e = record {
    tree = insert i (record { flag = flag_done; cell = delta d }) (tree_at key m);
    result = ground arith;
    lower = λ t h. range_back-insert_le t i _ (tree_at key m) [] h;
  }
  update-Touches m n key (estimates i) e = estimate_in-Touches m n key i (lookup key m) refl e
  update-Touches m n key (deletes i) e = record {
    tree = remove i (tree_at key m);
    result = ground arith;
    lower = λ t h. range_back-remove_le t i (tree_at key m) [] h;
  }

  pub tree_at-insert_eq :
      (at key : K) (tree : EntryMap V) (m : Map K (EntryMap V))
      → k.beq at key ≡ true
      → tree_at key (insert at tree m) ≡ tree
  tree_at-insert_eq at key tree m e = ground (arith, lookup-insert at key tree m)

  pub tree_at-insert_ne :
      (at key : K) (tree : EntryMap V) (m : Map K (EntryMap V))
      → k.beq at key ≡ false
      → tree_at key (insert at tree m) ≡ tree_at key m
  tree_at-insert_ne at key tree m e = ground (arith, lookup-insert at key tree m)

  same_entries :
      (m n : Map K (EntryMap V)) (at key : K) (i t : TxnIndex)
      → Touches m n at i
      → (at ≢ key) ⊎ (t ≤ i)
      → range_back t (tree_at key n) [] ≡ range_back t (tree_at key m) []
  same_entries m n at key i t c away = elim (Bool-cases (k.beq at key)) [
    | inl eq ↦
        let same : at ≡ key = (k.beq_iff at key).0 eq in
        ap (λ x. range_back t (tree_at key x) []) c.result
        ∙ ap (λ x. range_back t x []) (tree_at-insert_eq at key c.tree m eq)
        ∙ c.lower t (below same away)
        ∙ ap (λ x. range_back t (tree_at x m) []) same
    | inr ne ↦
        ap (λ x. range_back t (tree_at key x) []) c.result
        ∙ ap (λ x. range_back t x []) (tree_at-insert_ne at key c.tree m ne)
  ]
    where
      below : at ≡ key → (at ≢ key) ⊎ (t ≤ i) → t ≤ i
      below same (inl ne) = absurd (ne same)
      below same (inr h) = h

  -- A write, a delta, an estimate or a deletion changes no read of another path, and no read of its
  -- own transaction or of one before it.
  pub read-update :
      (w : TransactionWrite V) (m n : Map K (EntryMap V)) (at key : K) (u : Update V) (t : TxnIndex)
      → update m at u ≡ some n
      → (at ≢ key) ⊎ (t ≤ index u)
      → read w n key t ≡ read w m key t
  read-update w m n at key u t e away =
      read-traverse w n key t
      ∙ ap (λ es. traverse w es none)
          (same_entries m n at key (index u) t (update-Touches m n at u e) away)
      ∙ sym (read-traverse w m key t)
