-- ===== src/MvHashMap/Range.antt =====
-- The entries that `range` of the store's trees gives to a reader, after an update.
use mathlib.Core.Path.{subst}
use move_tutorial.Prelude.{
  ℕ, ◌≤◌, ◌<◌, ◌≡◌, ◌∙◌, refl, sym, ap, arith, ltb, ◌==◌, ==_iff, Bool-cases, inl, inr, Option,
  none, some, List, [], ◌∷◌,
}
use move_tutorial.Prelude.Map.{Key, Map, nat_key, lookup, insert, remove}
use move_tutorial.Prelude.Map.Order.{IsSorted, Above, Above-trans}
use move_tutorial.MvHashMap.{
  TxnIndex, Entry, EntryMap, TransactionWrite, range_back, traverse, read, read_tree, or_empty,
  tree_at,
}

module _ {V : Type 0} where
  -- A reader at or below an index does not see what happens there.
  pub range_back-insert_le :
      (t i : ℕ) (e : Entry V) (m : EntryMap V) (later : List (TxnIndex × Entry V))
      → t ≤ i
      → range_back t (insert i e m) later ≡ range_back t m later
  unfolding range_back insert
  range_back-insert_le t i e [] later h = ground arith
  range_back-insert_le t i e ((j, f) ∷ m) later h = elim (Bool-cases (j == i)) [
    | inl eq ↦ ground arith
    | inr ne ↦ elim (Bool-cases (ltb i j)) [
      | inl before ↦ rw ne (rw before (ground arith))
      | inr after ↦ rw ne (rw after (range_back-insert_le t i e m _ h))
    ]
  ]

  pub range_back-remove_le :
      (t i : ℕ) (m : EntryMap V) (later : List (TxnIndex × Entry V))
      → t ≤ i
      → range_back t (remove i m) later ≡ range_back t m later
  unfolding range_back remove
  range_back-remove_le t i [] later h = refl
  range_back-remove_le t i ((j, f) ∷ m) later h = elim (Bool-cases (j == i)) [
    | inl eq ↦ rw eq (range_back-remove_le t i m later h ∙ ground arith)
    | inr ne ↦ rw ne (range_back-remove_le t i m _ h)
  ]

  -- Nothing lies between an entry and a reader above it.
  abbrev pub Free : ℕ → ℕ → EntryMap V → Type 0
  Free i t m = (j : ℕ) → i < j → j < t → lookup j m ≡ none

  range_back_of_Above :
      (t i : ℕ) (m : EntryMap V) (later : List (TxnIndex × Entry V))
      → Above i m
      → IsSorted m
      → Free i t m
      → range_back t m later ≡ later
  unfolding range_back lookup
  range_back_of_Above t i [] later a s free = refl
  range_back_of_Above t i ((j, f) ∷ m) later a s free = elim (Bool-cases (ltb j t)) [
    | inl below ↦ absurd (ground (arith, free j))
    | inr above ↦ rw above (range_back_of_Above t i m later a.1 s.1 λ l p q. ground (arith, free l))
  ]

  Free-tail :
      (i t j : ℕ) (f : Entry V) (m : EntryMap V) → j ≤ i → Free i t ((j, f) ∷ m) → Free i t m
  unfolding lookup
  Free-tail i t j f m h free l p q = ground (arith, free l)

  range_back_of_le :
      (t i : ℕ) (m : EntryMap V) (later : List (TxnIndex × Entry V))
      → t ≤ i
      → Above i m
      → IsSorted m
      → range_back t m later ≡ later
  range_back_of_le t i m later h a s =
      range_back_of_Above t i m later a s (λ l p q. absurd (omega arith))

  -- The entry in front, after all entries that do not count.
  pub range_back-head :
      (t i : ℕ) (e : Entry V) (m : EntryMap V) (later : List (TxnIndex × Entry V))
      → i < t
      → Above i m
      → IsSorted m
      → Free i t m
      → range_back t ((i, e) ∷ m) later ≡ (i, e) ∷ later
  unfolding range_back
  range_back-head t i e m later h a s free =
      ap (range_back t m) (ground arith) ∙ range_back_of_Above t i m ((i, e) ∷ later) a s free

  -- The last of the entries below the reader comes first.
  pub range_back-insert_gt :
      (t i : ℕ) (e : Entry V) (m : EntryMap V) (later : List (TxnIndex × Entry V))
      → IsSorted m
      → i < t
      → Free i t m
      → range_back t (insert i e m) later ≡ (i, e) ∷ range_back i m later
  unfolding range_back insert
  range_back-insert_gt t i e [] later s h free = ground arith
  range_back-insert_gt t i e ((j, f) ∷ m) later s h free = elim (Bool-cases (j == i)) [
    | inl eq ↦
        let same : j ≡ i = (==_iff j i).0 eq in
        let above : Above i m = subst (λ l. Above l m) same s.0 in
        rw eq (
          range_back-head t i e m later h above s.1 (Free-tail i t j f m (omega arith) free)
          ∙ ap (λ r. (i, e) ∷ r)
              (sym (
                ap (range_back i m) (ground arith)
                ∙ range_back_of_le i i m later (omega arith) above s.1)))
    | inr ne ↦ elim (Bool-cases (ltb i j)) [
      | inl before ↦
          let above : Above i ((j, f) ∷ m) = (before, Above-trans i j m before s.0) in
          rw ne (
            rw before (
              range_back-head t i e ((j, f) ∷ m) later h above s free
              ∙ ap (λ r. (i, e) ∷ r)
                  (sym (range_back_of_le i i ((j, f) ∷ m) later (omega arith) above s))))
      | inr after ↦ rw ne (
          rw after (
            ap (range_back t (insert i e m)) (ground arith)
            ∙ range_back-insert_gt t i e m ((j, f) ∷ later) s.1 h
                (Free-tail i t j f m (ground arith) free)
            ∙ ap (λ r. (i, e) ∷ range_back i m r) (ground arith)))
    ]
  ]

read_tree-traverse :
    {V : Type 0} (w : TransactionWrite V) (o : Option (EntryMap V)) (t : ℕ)
    → read_tree w o t ≡ traverse w (range_back t (or_empty o) []) none
unfolding traverse range_back
read_tree-traverse w none t = refl
read_tree-traverse w (some tree) t = refl

-- A read looks at nothing but the entries below its transaction.
pub read-traverse :
    {K V : Type 0} ⦃k : Key K⦄ (w : TransactionWrite V) (m : Map K (EntryMap V)) (key : K) (t : ℕ)
    → read w m key t ≡ traverse w (range_back t (tree_at key m) []) none
unfolding read
read-traverse w m key t = read_tree-traverse w (lookup key m) t
