-- ===== src/MvHashMap/Nearest.antt =====
-- What the nearest reader above a write or an estimate sees.
use move_tutorial.MvHashMap.{estimate_entry}
use mathlib.Core.Path.{subst}
use move_tutorial.Prelude.{ℕ, ◌<◌, ◌≡◌, ◌∙◌, refl, sym, ap, arith, Option, none, some, ok, err, []}
use move_tutorial.Prelude.Map.{Key, Map, nat_key, lookup, insert}
use move_tutorial.Prelude.Map.Order.{IsSorted}
use move_tutorial.MvHashMap.{
  Entry, EntryMap, write, flag_done, flag_estimate, TransactionWrite, version, dependency,
  range_back, traverse, read, or_empty, tree_at, add_write, mark_estimate, estimate_in,
}
use move_tutorial.MvHashMap.Range.{range_back-insert_gt, Free, read-traverse}
use move_tutorial.MvHashMap.Visibility.{tree_at-insert_eq}

module _ {K V : Type 0} ⦃k : Key K⦄ where
  -- The read of a transaction above i, with no entry between, returns the version that i wrote.
  pub read-add_write :
      (w : TransactionWrite V) (m n : Map K (EntryMap V)) (key : K) (i x t : ℕ) (v : V)
      → IsSorted (tree_at key m)
      → i < t
      → Free i t (tree_at key m)
      → add_write m key (i, x) v ≡ some n
      → read w n key t ≡ some (ok (version (i, x) v))
  unfolding add_write traverse
  read-add_write w m n key i x t v s h free e =
      let entry : Entry V = record { flag = flag_done; cell = write x v } in
      let tree : EntryMap V = insert i entry (tree_at key m) in
      let put : n ≡ insert key tree m = ground arith in
      read-traverse w n key t
      ∙ ap (λ y. traverse w (range_back t (tree_at key y) []) none) put
      ∙ ap (λ y. traverse w (range_back t y []) none)
          (tree_at-insert_eq key key tree m ((k.beq_iff key key).1 refl))
      ∙ ap (λ es. traverse w es none) (range_back-insert_gt t i entry (tree_at key m) [] s h free)

  estimate_entry-read :
      (w : TransactionWrite V) (m n : Map K (EntryMap V)) (key : K) (i t : ℕ) (o : Option (Entry V))
      → IsSorted (tree_at key m)
      → i < t
      → Free i t (tree_at key m)
      → estimate_entry key m i (tree_at key m) o ≡ some n
      → read w n key t ≡ some (err (dependency i))
  unfolding traverse
  estimate_entry-read w m n key i t none s h free e = absurd (ground arith)
  estimate_entry-read w m n key i t (some f) s h free e =
      let entry : Entry V = record f { flag = flag_estimate } in
      let tree : EntryMap V = insert i entry (tree_at key m) in
      let put : n ≡ insert key tree m = ground arith in
      read-traverse w n key t
      ∙ ap (λ y. traverse w (range_back t (tree_at key y) []) none) put
      ∙ ap (λ y. traverse w (range_back t y []) none)
          (tree_at-insert_eq key key tree m ((k.beq_iff key key).1 refl))
      ∙ ap (λ es. traverse w es none) (range_back-insert_gt t i entry (tree_at key m) [] s h free)

  estimate_in-read :
      (w : TransactionWrite V) (m n : Map K (EntryMap V)) (key : K) (i t : ℕ)
      (o : Option (EntryMap V))
      → lookup key m ≡ o
      → IsSorted (tree_at key m)
      → i < t
      → Free i t (tree_at key m)
      → estimate_in key m i o ≡ some n
      → read w n key t ≡ some (err (dependency i))
  estimate_in-read w m n key i t none q s h free e = absurd (ground arith)
  estimate_in-read w m n key i t (some tree) q s h free e =
      let at : tree_at key m ≡ tree = ap or_empty q in
      estimate_entry-read w m n key i t (lookup i tree) s h free
        (subst (λ x. estimate_entry key m i x (lookup i tree) ≡ some n) (sym at) e)

  -- The read of a transaction above i, with no entry between, finds a dependency on i once i's
  -- entry is an estimate.
  pub read-mark_estimate :
      (w : TransactionWrite V) (m n : Map K (EntryMap V)) (key : K) (i t : ℕ)
      → IsSorted (tree_at key m)
      → i < t
      → Free i t (tree_at key m)
      → mark_estimate m key i ≡ some n
      → read w n key t ≡ some (err (dependency i))
  unfolding mark_estimate
  read-mark_estimate w m n key i t s h free e =
      estimate_in-read w m n key i t (lookup key m) refl s h free e
