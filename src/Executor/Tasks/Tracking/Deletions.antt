-- ===== src/Executor/Tasks/Tracking/Deletions.antt =====
-- The entries that are left when an execution has deleted those that were not put again.
use mathlib.Core.Path.{subst}
use move_tutorial.Prelude.{
  ◌≡◌, ◌∙◌, refl, sym, ap, arith, false, Bool-cases, Option-cases, inl, inr, Option, none, some, [],
  ◌∷◌,
}
use move_tutorial.Prelude.Options.{>>=-eq-some}
use move_tutorial.Prelude.Map.{Key, Map, nat_key, lookup, insert, remove}
use move_tutorial.MvHashMap.{Entry, EntryMap, tree_at, delete}
use move_tutorial.Scheduler.{TxnIndex}
use move_tutorial.Executor.LastInputOutput.{Set}
use move_tutorial.Executor.Tasks.{Updates, delete_all}
use move_tutorial.Executor.Tasks.Tracking.Entries.{
  entry_at, entry_at-insert_ne, entry_at-delete_all,
}
use move_tutorial.Executor.Tasks.Tracking.Contents.{
  Puts, Others, Updated, Others-insert, Others-trans, lookup-remove_other,
}

module _ {K V : Type 0} ⦃k : Key K⦄ where
  entry_at-delete_ne :
      (m m' : Map K (EntryMap V)) (i : TxnIndex) (at key : K)
      → delete m at i ≡ some m'
      → k.beq at key ≡ false
      → entry_at m' i key ≡ entry_at m i key
  unfolding delete
  entry_at-delete_ne m m' i at key e ne =
      let tree = remove i (tree_at at m) in
      let put : m' ≡ insert at tree m = ground arith in
      ap (λ x. entry_at x i key) put ∙ entry_at-insert_ne m i at key tree ne

  entry_at-delete_all_ne :
      (i : TxnIndex) (ks : Set K) (m m' : Map K (EntryMap V)) (key : K)
      → delete_all m i ks ≡ some m'
      → lookup key ks ≡ none
      → entry_at m' i key ≡ entry_at m i key
  unfolding delete_all lookup
  entry_at-delete_all_ne i [] m m' key e absent =
      let same : m' ≡ m = ground arith in ap (λ x. entry_at x i key) same
  entry_at-delete_all_ne i ((at, u) ∷ ks) m m' key e absent =
      let (x, ex, e1) = >>=-eq-some (delete m at i) _ e in
      elim (Bool-cases (k.beq at key)) [
        | inl eq ↦ absurd (cc (rw eq at absent))
        | inr ne ↦
            entry_at-delete_all_ne i ks x m' key e1 (rw ne at absent)
            ∙ entry_at-delete_ne m x i at key ex ne
      ]

  delete_all-Others :
      (i : TxnIndex) (ks : Set K) (m m' : Map K (EntryMap V))
      → delete_all m i ks ≡ some m'
      → Others i m m'
  unfolding delete_all delete
  delete_all-Others i [] m m' e =
      let same : m ≡ m' = ground arith in subst (Others i m) same (λ j key n. refl)
  delete_all-Others i ((at, u) ∷ ks) m m' e =
      let (x, ex, e1) = >>=-eq-some (delete m at i) _ e in
      let put : x ≡ insert at (remove i (tree_at at m)) m = ground arith in
      Others-trans i m x m'
        (subst (Others i m) (sym put) (
          Others-insert i at (remove i (tree_at at m)) m
            (λ j n. lookup-remove_other i j (tree_at at m) n)))
        (delete_all-Others i ks x m' e1)

  -- After the deletions there is the entry that was put, and no other.
  deleted :
      (i : TxnIndex) (key : K) (e : Option (Entry V)) (u u' : Updates K V) (m : Map K (EntryMap V))
      → delete_all u'.versioned i u'.prev_modified_keys ≡ some m
      → Puts i key e u u'
      → (lookup key u.prev_modified_keys ≡ none → entry_at u.versioned i key ≡ none)
      → entry_at m i key ≡ e
  deleted i key (some a) u u' m d (p, q) tracked =
      entry_at-delete_all_ne i u'.prev_modified_keys u'.versioned m key d q ∙ p
  deleted i key none u u' m d (p, q) tracked =
      entry_at-delete_all i u'.prev_modified_keys u'.versioned m key d
        (elim (Option-cases (lookup key u'.prev_modified_keys)) [
          | inl absent ↦ inr (p ∙ tracked (sym q ∙ absent))
          | inr (x, here) ↦ inl here
        ])

  -- The store after the updates and the deletions of an execution.
  pub Updated-delete_all :
      (i : TxnIndex) (f : K → Option (Entry V)) (u u' : Updates K V) (m : Map K (EntryMap V))
      → Updated i f u u'
      → delete_all u'.versioned i u'.prev_modified_keys ≡ some m
      → ((key : K) → lookup key u.prev_modified_keys ≡ none → entry_at u.versioned i key ≡ none)
      → ((key : K) → entry_at m i key ≡ f key) × Others i u.versioned m
  Updated-delete_all i f u u' m (p, o) d tracked = (
    λ key. deleted i key (f key) u u' m d (p key) (tracked key),
    Others-trans i u.versioned u'.versioned m o
        (delete_all-Others i u'.prev_modified_keys u'.versioned m d),
  )
