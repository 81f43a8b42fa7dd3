-- ===== src/Executor/Tasks/Tracking/Contents.antt =====
-- What the entries of a transaction are after its writes, deltas and deletions.
use mathlib.Core.Path.{subst}
use move_tutorial.Prelude.{
  ◌≡◌, ◌≢◌, ◌∙◌, refl, sym, ap, arith, Bool-cases, inl, inr, Option, none, some, List, [], ◌∷◌,
  if◌then◌else◌,
}
use move_tutorial.Prelude.Options.{>>=-eq-some}
use move_tutorial.Prelude.Map.{
  Key, Map, nat_key, lookup, insert, remove, lookup-insert, lookup-remove,
}
use move_tutorial.Aggregator.Delta.{DeltaOp}
use move_tutorial.MvHashMap.{
  Entry, EntryMap, write, delta, flag_done, tree_at, add_write, add_delta,
}
use move_tutorial.Scheduler.{TxnIndex, Version}
use move_tutorial.Executor.{TransactionOutput, ExecutionStatus, success, abort, skip_rest}
use move_tutorial.Executor.Tasks.{Updates, touch, apply_writes, apply_deltas, apply_output}
use move_tutorial.Executor.Tasks.Tracking.Entries.{entry_at, entry_at-insert_ne, entry_at-insert_eq}

-- The first, if it is there.
abbrev pub over : {A : Type 0} → Option A → Option A → Option A
over (some a) b = some a
over none b = b

over-over : {A : Type 0} (a b c : Option A) → over a (over b c) ≡ over (over a b) c
over-over none b c = refl
over-over (some a) b c = refl

-- What is left of what was to be deleted, at a key that may have an entry now.
abbrev kept : {A U : Type 0} → Option A → Option U → Option U
kept (some a) p = none
kept none p = p

kept-kept : {A U : Type 0} (a b : Option A) (p : Option U) → kept a (kept b p) ≡ kept (over a b) p
kept-kept none b p = refl
kept-kept (some a) none p = refl
kept-kept (some a) (some b) p = refl

module _ {V : Type 0} where
  lookup-insert_self :
      (i : TxnIndex) (e : Entry V) (tree : EntryMap V) → lookup i (insert i e tree) ≡ some e
  lookup-insert_self i e tree = lookup-insert i i e tree ∙ ground arith

  lookup-insert_other :
      (i j : TxnIndex) (e : Entry V) (tree : EntryMap V)
      → j ≢ i
      → lookup j (insert i e tree) ≡ lookup j tree
  lookup-insert_other i j e tree n = lookup-insert i j e tree ∙ ground (arith, n)

  pub lookup-remove_other :
      (i j : TxnIndex) (tree : EntryMap V) → j ≢ i → lookup j (remove i tree) ≡ lookup j tree
  lookup-remove_other i j tree n = lookup-remove i j tree ∙ ground (arith, n)

module _ {K V : Type 0} ⦃k : Key K⦄ where
  -- The last write at a key, as an entry of the version; and the last delta.
  unfoldable pub written_entry : Version → List (K × V) → K → Option (Entry V)
  written_entry v [] key = none
  written_entry v ((at, x) ∷ writes) key =
      over (written_entry v writes key)
        (if k.beq at key then some (record { flag = flag_done; cell = write v.1 x }) else none)

  unfoldable pub delta_entry : List (K × DeltaOp) → K → Option (Entry V)
  delta_entry [] key = none
  delta_entry ((at, d) ∷ deltas) key =
      over (delta_entry deltas key)
        (if k.beq at key then some (record { flag = flag_done; cell = delta d }) else none)

  -- An entry is put, or the one that was there stays.
  abbrev pub Puts : TxnIndex → K → Option (Entry V) → Updates K V → Updates K V → Type 0
  Puts i key e u u' =
      (entry_at u'.versioned i key ≡ over e (entry_at u.versioned i key))
      × (lookup key u'.prev_modified_keys ≡ kept e (lookup key u.prev_modified_keys))

  Puts-trans :
      (i : TxnIndex) (key : K) (a b : Option (Entry V)) (u x u' : Updates K V)
      → Puts i key a u x
      → Puts i key b x u'
      → Puts i key (over b a) u u'
  Puts-trans i key a b u x u' (p, q) (p', q') = (
    p' ∙ ap (over b) p ∙ over-over b a (entry_at u.versioned i key),
    q' ∙ ap (kept b) q ∙ kept-kept b a (lookup key u.prev_modified_keys),
  )

  put_one :
      (i : TxnIndex) (at key : K) (e : Entry V) (u : Updates K V)
      → Puts i key (if k.beq at key then some e else none) u (record (touch u at) {
        versioned = insert at (insert i e (tree_at at u.versioned)) u.versioned;
      })
  put_one i at key e u = elim (Bool-cases (k.beq at key)) [
    | inl eq ↦ rw eq (
      entry_at-insert_eq u.versioned i at key (insert i e (tree_at at u.versioned)) eq
          ∙ lookup-insert_self i e (tree_at at u.versioned),
      lookup-remove at key u.prev_modified_keys ∙ rw eq refl,
    )
    | inr ne ↦ rw ne (
      entry_at-insert_ne u.versioned i at key (insert i e (tree_at at u.versioned)) ne,
      lookup-remove at key u.prev_modified_keys ∙ rw ne refl,
    )
  ]

  -- The entries of other transactions stay.
  abbrev pub Others : TxnIndex → Map K (EntryMap V) → Map K (EntryMap V) → Type 0
  Others i m m' = (j : TxnIndex) (key : K) → j ≢ i → entry_at m' j key ≡ entry_at m j key

  -- A tree is put in place of the one at `at`, and differs from it at `i` only.
  pub Others-insert :
      (i : TxnIndex) (at : K) (tree : EntryMap V) (m : Map K (EntryMap V))
      → ((j : TxnIndex) → j ≢ i → lookup j tree ≡ lookup j (tree_at at m))
      → Others i m (insert at tree m)
  Others-insert i at tree m same j key n = elim (Bool-cases (k.beq at key)) [
    | inl eq ↦
        entry_at-insert_eq m j at key tree eq
        ∙ same j n
        ∙ ap (λ x. lookup j (tree_at x m)) ((k.beq_iff at key).0 eq)
    | inr ne ↦ entry_at-insert_ne m j at key tree ne
  ]

  pub Others-trans :
      (i : TxnIndex) (m x m' : Map K (EntryMap V)) → Others i m x → Others i x m' → Others i m m'
  Others-trans i m x m' p q j key n = q j key n ∙ p j key n

  -- The updates that an execution makes, seen at a key and at other transactions.
  abbrev pub Updated : TxnIndex → (K → Option (Entry V)) → Updates K V → Updates K V → Type 0
  Updated i f u u' = ((key : K) → Puts i key (f key) u u') × Others i u.versioned u'.versioned

  update_one :
      (i : TxnIndex) (at : K) (e : Entry V) (u : Updates K V)
      → Updated i
          (λ key. if k.beq at key then some e else none)
          u
          (record (touch u at) {
            versioned = insert at (insert i e (tree_at at u.versioned)) u.versioned;
          })
  update_one i at e u = (
    λ key. put_one i at key e u,
    Others-insert i at (insert i e (tree_at at u.versioned)) u.versioned
        (λ j n. lookup-insert_other i j e (tree_at at u.versioned) n),
  )

  Updated-trans :
      (i : TxnIndex) (f g : K → Option (Entry V)) (u x u' : Updates K V)
      → Updated i f u x
      → Updated i g x u'
      → Updated i (λ key. over (g key) (f key)) u u'
  Updated-trans i f g u x u' (p, o) (q, o') = (
    λ key. Puts-trans i key (f key) (g key) u x u' (p key) (q key),
    Others-trans i u.versioned x.versioned u'.versioned o o',
  )

  apply_writes-Updated :
      (v : Version) (ws : List (K × V)) (u u' : Updates K V)
      → apply_writes v ws u ≡ some u'
      → Updated v.0 (written_entry v ws) u u'
  unfolding apply_writes add_write written_entry
  apply_writes-Updated v [] u u' e =
      let same : u ≡ u' = ground arith in
      subst (λ (x : Updates K V). Updated v.0 (λ key. none) u x) same
        (λ key. (refl, refl), λ j key n. refl)
  apply_writes-Updated v ((at, x) ∷ ws) u u' e =
      let (m, em, e1) = >>=-eq-some (add_write u.versioned at v x) _ e in
      let entry : Entry V = record { flag = flag_done; cell = write v.1 x } in
      let put : m ≡ insert at (insert v.0 entry (tree_at at u.versioned)) u.versioned =
        ground arith in
      Updated-trans v.0 (λ key. if k.beq at key then some entry else none) (written_entry v ws) u
        (record (touch u at) { versioned = m }) u'
        (subst
          (λ y.
            Updated v.0 (λ key. if k.beq at key then some entry else none) u
              (record (touch u at) { versioned = y }))
          (sym put) (update_one v.0 at entry u))
        (apply_writes-Updated v ws (record (touch u at) { versioned = m }) u' e1)

  apply_deltas-Updated :
      (i : TxnIndex) (ds : List (K × DeltaOp)) (u : Updates K V)
      → Updated i (delta_entry ds) u (apply_deltas i ds u)
  unfolding apply_deltas add_delta delta_entry
  apply_deltas-Updated i [] u = (λ key. (refl, refl), λ j key n. refl)
  apply_deltas-Updated i ((at, d) ∷ ds) u =
      let entry : Entry V = record { flag = flag_done; cell = delta d } in
      let x : Updates K V = record (touch u at) { versioned = add_delta u.versioned at i d } in
      Updated-trans i (λ key. if k.beq at key then some entry else none) (delta_entry ds) u x
        (apply_deltas i ds x) (update_one i at entry u) (apply_deltas-Updated i ds x)

  module _ {T : Type 0} (out : TransactionOutput K V T) where
    -- What an output leaves at a key: its last delta, else its last write.
    abbrev pub output_entry : Version → T → K → Option (Entry V)
    output_entry v o key =
        over (delta_entry (out.get_deltas o) key) (written_entry v (out.get_writes o) key)

    abbrev pub result_entry : {E : Type 0} → Version → ExecutionStatus T E → K → Option (Entry V)
    result_entry v (success o) key = output_entry v o key
    result_entry v (skip_rest o) key = output_entry v o key
    result_entry v (abort x) key = none

  pub apply_output-Updated :
      {T : Type 0} (out : TransactionOutput K V T) (v : Version) (o : T) (u u' : Updates K V)
      → apply_output out v o u ≡ some u'
      → Updated v.0 (output_entry out v o) u u'
  apply_output-Updated out v o u u' e =
      let (x, ex, e1) = >>=-eq-some (apply_writes v (out.get_writes o) u) _ e in
      let same : apply_deltas v.0 (out.get_deltas o) x ≡ u' = ground arith in
      subst (λ y. Updated v.0 (output_entry out v o) u y) same
        (Updated-trans v.0 (written_entry v (out.get_writes o)) (delta_entry (out.get_deltas o)) u x
          (apply_deltas v.0 (out.get_deltas o) x) (apply_writes-Updated v (out.get_writes o) u x ex)
          (apply_deltas-Updated v.0 (out.get_deltas o) x))
