-- ===== src/Executor/Tasks/Tracking/Entries.antt =====
-- The entries of one transaction, as writes, deltas and deletions change them.
use mathlib.Core.Path.{subst}
use move_tutorial.Prelude.{
  ◌≡◌, ◌∙◌, ◌⊎◌, sym, ap, arith, true, false, Bool-cases, Option-cases, inl, inr, Option, none,
  some, List, [], ◌∷◌,
}
use move_tutorial.Prelude.Options.{>>=-eq-some}
use move_tutorial.Prelude.Map.{
  Key, Map, nat_key, lookup, insert, remove, lookup-insert, lookup-remove,
}
use move_tutorial.Aggregator.Delta.{DeltaOp}
use move_tutorial.MvHashMap.{
  Entry, EntryMap, write, delta, flag_done, tree_at, add_write, add_delta, delete,
}
use move_tutorial.MvHashMap.Visibility.{tree_at-insert_ne, tree_at-insert_eq}
use move_tutorial.Scheduler.{TxnIndex, Version}
use move_tutorial.Executor.{TransactionOutput}
use move_tutorial.Executor.LastInputOutput.{Set, collect}
use move_tutorial.Executor.Tasks.{
  Updates, touch, apply_writes, apply_deltas, apply_output, delete_all,
}

module _ {K V : Type 0} ⦃k : Key K⦄ where
  -- The entry of a transaction at a path.
  abbrev pub entry_at : Map K (EntryMap V) → TxnIndex → K → Option (Entry V)
  entry_at m i key = lookup i (tree_at key m)

  pub entry_at-insert_ne :
      (m : Map K (EntryMap V)) (i : TxnIndex) (at key : K) (tree : EntryMap V)
      → k.beq at key ≡ false
      → entry_at (insert at tree m) i key ≡ entry_at m i key
  entry_at-insert_ne m i at key tree e = ap (lookup i) (tree_at-insert_ne at key tree m e)

  pub entry_at-insert_eq :
      (m : Map K (EntryMap V)) (i : TxnIndex) (at key : K) (tree : EntryMap V)
      → k.beq at key ≡ true
      → entry_at (insert at tree m) i key ≡ lookup i tree
  entry_at-insert_eq m i at key tree e = ap (lookup i) (tree_at-insert_eq at key tree m e)

  -- A path with an entry is still in `prev`, or was modified by now.
  abbrev pub Covered : Map K (EntryMap V) → TxnIndex → Set K → Set K → Type 0
  Covered m i prev now =
      (key : K) → lookup key prev ≡ none → lookup key now ≡ none → entry_at m i key ≡ none

  Covered-insert :
      (m : Map K (EntryMap V)) (i : TxnIndex) (prev now : Set K) (at : K) (tree : EntryMap V)
      → Covered m i prev now
      → Covered (insert at tree m) i (remove at prev) (insert at tt now)
  Covered-insert m i prev now at tree c key p n = elim (Bool-cases (k.beq at key)) [
    | inl e ↦ absurd (ground (arith, lookup-insert at key tt now))
    | inr e ↦
        entry_at-insert_ne m i at key tree e
        ∙ c key (ground (arith, lookup-remove at key prev))
            (ground (arith, lookup-insert at key tt now))
  ]

  apply_writes-Covered :
      (v : Version) (ws : List (K × V)) (u u' : Updates K V) (now : Set K)
      → apply_writes v ws u ≡ some u'
      → Covered u.versioned v.0 u.prev_modified_keys now
      → Covered u'.versioned v.0 u'.prev_modified_keys (collect ws now)
  unfolding apply_writes add_write
  apply_writes-Covered v [] u u' now e c =
      let same : u ≡ u' = ground arith in
      subst (λ (x : Updates K V). Covered x.versioned v.0 x.prev_modified_keys now) same c
  apply_writes-Covered v ((key, x) ∷ ws) u u' now e c =
      let (m, em, e1) = >>=-eq-some (add_write u.versioned key v x) _ e in
      let tree : EntryMap V =
        insert v.0 (record { flag = flag_done; cell = write v.1 x }) (tree_at key u.versioned) in
      let put : m ≡ insert key tree u.versioned = ground arith in
      apply_writes-Covered v ws (record (touch u key) { versioned = m }) u' (insert key tt now) e1
        (subst (λ y. Covered y v.0 (remove key u.prev_modified_keys) (insert key tt now)) (sym put)
          (Covered-insert u.versioned v.0 u.prev_modified_keys now key tree c))

  apply_deltas-Covered :
      (i : TxnIndex) (ds : List (K × DeltaOp)) (u : Updates K V) (now : Set K)
      → Covered u.versioned i u.prev_modified_keys now
      → let u' = apply_deltas i ds u in
        Covered u'.versioned i u'.prev_modified_keys (collect ds now)
  unfolding apply_deltas add_delta
  apply_deltas-Covered i [] u now c = c
  apply_deltas-Covered i ((key, d) ∷ ds) u now c =
      apply_deltas-Covered i ds (record (touch u key) { versioned = add_delta u.versioned key i d })
        (insert key tt now)
        (Covered-insert u.versioned i u.prev_modified_keys now key
          (insert i (record { flag = flag_done; cell = delta d }) (tree_at key u.versioned)) c)

  pub apply_output-Covered :
      {T : Type 0} (out : TransactionOutput K V T) (v : Version) (o : T) (u u' : Updates K V)
      → apply_output out v o u ≡ some u'
      → Covered u.versioned v.0 u.prev_modified_keys []
      → Covered u'.versioned v.0 u'.prev_modified_keys
          (collect (out.get_deltas o) (collect (out.get_writes o) []))
  apply_output-Covered out v o u u' e c =
      let (x, ex, e1) = >>=-eq-some (apply_writes v (out.get_writes o) u) _ e in
      let same : apply_deltas v.0 (out.get_deltas o) x ≡ u' = ground arith in
      let now = collect (out.get_writes o) [] in
      subst
        (λ (y : Updates K V).
          Covered y.versioned v.0 y.prev_modified_keys (collect (out.get_deltas o) now))
        same
        (apply_deltas-Covered v.0 (out.get_deltas o) x now
          (apply_writes-Covered v (out.get_writes o) u x [] ex c))

  -- A deletion removes the entry at its path, and no other.
  entry_at-delete :
      (m m' : Map K (EntryMap V)) (i : TxnIndex) (at key : K)
      → delete m at i ≡ some m'
      → (k.beq at key ≡ true) ⊎ (entry_at m i key ≡ none)
      → entry_at m' i key ≡ none
  unfolding delete
  entry_at-delete m m' i at key e gone =
      let tree = remove i (tree_at at m) in
      let put : m' ≡ insert at tree m = ground arith in
      ap (λ x. entry_at x i key) put ∙ elim (Bool-cases (k.beq at key)) [
        | inl eq ↦
            entry_at-insert_eq m i at key tree eq ∙ lookup-remove i i (tree_at at m) ∙ ground arith
        | inr ne ↦ entry_at-insert_ne m i at key tree ne ∙ unless ne gone
      ]
    where
      unless :
          k.beq at key ≡ false
          → (k.beq at key ≡ true) ⊎ (entry_at m i key ≡ none)
          → entry_at m i key ≡ none
      unless ne (inl eq) = absurd (ground arith)
      unless ne (inr h) = h

  pub entry_at-delete_all :
      (i : TxnIndex) (ks : Set K) (m m' : Map K (EntryMap V)) (key : K)
      → delete_all m i ks ≡ some m'
      → (lookup key ks ≡ some tt) ⊎ (entry_at m i key ≡ none)
      → entry_at m' i key ≡ none
  unfolding delete_all lookup
  entry_at-delete_all i [] m m' key e (inl h) = absurd (ground arith)
  entry_at-delete_all i [] m m' key e (inr h) =
      let same : m ≡ m' = ground arith in subst (λ x. entry_at x i key ≡ none) same h
  entry_at-delete_all i ((at, u) ∷ ks) m m' key e gone =
      let (x, ex, e1) = >>=-eq-some (delete m at i) _ e in
      elim (Bool-cases (k.beq at key)) [
        | inl eq ↦
            entry_at-delete_all i ks x m' key e1 (inr (entry_at-delete m x i at key ex (inl eq)))
        | inr ne ↦ entry_at-delete_all i ks x m' key e1 (later ne x ex gone)
      ]
    where
      later :
          k.beq at key ≡ false
          → (x : Map K (EntryMap V)) → delete m at i ≡ some x
          → (lookup key ((at, u) ∷ ks) ≡ some tt) ⊎ (entry_at m i key ≡ none)
          → (lookup key ks ≡ some tt) ⊎ (entry_at x i key ≡ none)
      later ne x ex (inl h) = inl (rw ne at h)
      later ne x ex (inr h) = inr (entry_at-delete m x i at key ex (inr h))

  -- After the deletions only the paths that were modified now have an entry.
  pub delete_all-Covered :
      (i : TxnIndex) (m m' : Map K (EntryMap V)) (prev now : Set K)
      → delete_all m i prev ≡ some m'
      → Covered m i prev now
      → (key : K) → lookup key now ≡ none
      → entry_at m' i key ≡ none
  delete_all-Covered i m m' prev now e c key n =
      entry_at-delete_all i prev m m' key e
        (elim (Option-cases (lookup key prev)) [ inl q ↦ inr (c key q n) | inr (x, q) ↦ inl q ])
