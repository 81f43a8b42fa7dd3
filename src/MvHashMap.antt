-- ===== src/MvHashMap.antt =====
-- mvhashmap/src/lib.rs: the multi-version store of parallel execution. Each method takes the lock
-- of one access path, so each is one step of the model; `none` is a panic.
pub mod Serial
pub mod Range
pub mod Visibility
pub mod Nearest
pub mod Examples
use move_tutorial.Prelude.{PartialVmResult}
use move_tutorial.Prelude.{
  ℕ, Bool, true, false, ltb, ◌==◌, if◌then◌else◌, Option, none, some, Result, ok, err, List, [],
  ◌∷◌,
}
use move_tutorial.Prelude.Map.{Key, Map, nat_key, lookup, insert, remove}
use move_tutorial.Aggregator.Delta.{DeltaOp, apply_to, merge_onto}

abbrev pub TxnIndex : Type 0
TxnIndex = ℕ

abbrev pub Incarnation : Type 0
Incarnation = ℕ

abbrev pub Version : Type 0
Version = TxnIndex × Incarnation

abbrev pub flag_done : ℕ
flag_done = 0

abbrev pub flag_estimate : ℕ
flag_estimate = 1

pub data EntryCell (V : Type 0) : Type 0 where
  write : Incarnation → V → EntryCell V
  delta : DeltaOp → EntryCell V

pub record Entry (V : Type 0) : Type 0 where
  pub flag : ℕ
  pub cell : EntryCell V

pub data MvHashMapError : Type 0 where
  not_found : MvHashMapError
  unresolved : DeltaOp → MvHashMapError
  dependency : TxnIndex → MvHashMapError
  delta_application_failure : MvHashMapError

pub data MvHashMapOutput (V : Type 0) : Type 0 where
  resolved : ℕ → MvHashMapOutput V
  version : Version → V → MvHashMapOutput V

-- `TransactionWrite` and `bcs`: the bytes of a write, none for a deletion, and the number that they
-- encode, none if they encode no `u128`.
pub record TransactionWrite (V : Type 0) : Type 1 where
  pub Bytes : Type 0
  pub extract_raw_bytes : V → Option Bytes
  pub deserialize : Bytes → Option ℕ

abbrev pub EntryMap : Type 0 → Type 0
EntryMap V = Map TxnIndex (Entry V)

-- The incarnation of the entry that a write replaces must be lower.
abbrev pub lower_incarnation : {V : Type 0} → Option (Entry V) → Incarnation → Bool
lower_incarnation none incarnation = true
lower_incarnation (some e) incarnation = elim e.cell [
  | write i _ ↦ ltb i incarnation
  | delta _ ↦ true
]

abbrev pub or_empty : {V : Type 0} → Option (EntryMap V) → EntryMap V
or_empty none = []
or_empty (some tree) = tree

module _ {K V : Type 0} ⦃k : Key K⦄ where
  -- `self.data.entry(key).or_insert(BTreeMap::new())`.
  abbrev pub tree_at : K → Map K (EntryMap V) → EntryMap V
  tree_at key maps = or_empty (lookup key maps)

  unfoldable pub add_write : Map K (EntryMap V) → K → Version → V → Option (Map K (EntryMap V))
  add_write m key (txn_idx, incarnation) v =
      let tree = tree_at key m in
      let entry : Entry V = record { flag = flag_done; cell = write incarnation v } in
      if lower_incarnation (lookup txn_idx tree) incarnation
      then some (insert key (insert txn_idx entry tree) m)
      else none

  unfoldable pub add_delta : Map K (EntryMap V) → K → TxnIndex → DeltaOp → Map K (EntryMap V)
  add_delta m key txn_idx d =
      insert key (insert txn_idx (record { flag = flag_done; cell = delta d }) (tree_at key m)) m

  abbrev pub estimate_entry :
      K
      → Map K (EntryMap V)
      → TxnIndex
      → EntryMap V
      → Option (Entry V)
      → Option (Map K (EntryMap V))
  estimate_entry key m txn_idx tree none = none
  estimate_entry key m txn_idx tree (some e) =
      some (insert key (insert txn_idx (record e { flag = flag_estimate }) tree) m)

  abbrev pub estimate_in :
      K → Map K (EntryMap V) → TxnIndex → Option (EntryMap V) → Option (Map K (EntryMap V))
  estimate_in key m txn_idx none = none
  estimate_in key m txn_idx (some tree) = estimate_entry key m txn_idx tree (lookup txn_idx tree)

  unfoldable pub mark_estimate : Map K (EntryMap V) → K → TxnIndex → Option (Map K (EntryMap V))
  mark_estimate m key txn_idx = estimate_in key m txn_idx (lookup key m)

  unfoldable pub delete : Map K (EntryMap V) → K → TxnIndex → Option (Map K (EntryMap V))
  delete m key txn_idx = elim (lookup key m) [
    | none ↦ none
    | some tree ↦ some (insert key (remove txn_idx tree) m)
  ]

  -- The tree, and the map without it.
  unfoldable pub entry_map_for_key :
      Map K (EntryMap V) → K → Option (EntryMap V) × Map K (EntryMap V)
  entry_map_for_key m key = (lookup key m, remove key m)

abbrev pub ReadResult : Type 0 → Type 0
ReadResult V = Option (Result MvHashMapError (MvHashMapOutput V))

module _ {V : Type 0} where
  -- `tree.range(0..txn_idx)`, from the end.
  unfoldable pub range_back :
      TxnIndex → EntryMap V → List (TxnIndex × Entry V) → List (TxnIndex × Entry V)
  range_back t [] later = later
  range_back t ((i, e) ∷ m) later = range_back t m (if ltb i t then (i, e) ∷ later else later)

  module _ (w : TransactionWrite V) where
    -- `AggregatorValue::from_write`: none is a panic, `some none` a deletion.
    unfoldable pub from_write : V → Option (Option ℕ)
    from_write v = elim (w.extract_raw_bytes v) [
      | none ↦ some none
      | some bytes ↦ elim (w.deserialize bytes) [ none ↦ none | some n ↦ some (some n) ]
    ]

    -- `map_err(…).map(…)` on the result of `apply_to`.
    abbrev pub apply_result : PartialVmResult ℕ → Result MvHashMapError (MvHashMapOutput V)
    apply_result (ok r) = ok (resolved r)
    apply_result (err _) = err delta_application_failure

    -- A write under deltas: the last argument is what it holds.
    abbrev pub resolve_write : DeltaOp → Version → V → Option (Option ℕ) → ReadResult V
    resolve_write accumulator at v none = none
    resolve_write accumulator at v (some none) = some (ok (version at v))
    resolve_write accumulator at v (some (some n)) = some (apply_result (apply_to accumulator n))

    -- The `?` after `merge_onto`.
    abbrev pub proceed : (Option DeltaOp → ReadResult V) → PartialVmResult DeltaOp → ReadResult V
    proceed next (ok merged) = next (some merged)
    proceed next (err _) = some (err delta_application_failure)

    -- The `match` of the loop; `next` is the rest of the traversal.
    abbrev pub visit :
        (Option DeltaOp → ReadResult V) → TxnIndex → EntryCell V → Option DeltaOp → ReadResult V
    visit next idx (write incarnation v) none = some (ok (version (idx, incarnation) v))
    visit next idx (write incarnation v) (some accumulator) =
        resolve_write accumulator (idx, incarnation) v (from_write v)
    visit next idx (delta d) (some accumulator) = proceed next (merge_onto accumulator d)
    visit next idx (delta d) none = next (some d)

    unfoldable pub traverse : List (TxnIndex × Entry V) → Option DeltaOp → ReadResult V
    traverse [] (some accumulator) = some (err (unresolved accumulator))
    traverse [] none = some (err not_found)
    traverse ((idx, entry) ∷ rest) accumulator =
        let visited = visit (traverse rest) idx entry.cell accumulator in
        if entry.flag == flag_estimate then some (err (dependency idx)) else visited

abbrev pub read_tree :
    {V : Type 0} → TransactionWrite V → Option (EntryMap V) → TxnIndex → ReadResult V
read_tree w none txn_idx = some (err not_found)
read_tree w (some tree) txn_idx = traverse w (range_back txn_idx tree []) none

-- `read`: the loop over the entries below `txn_idx`, the last one first.
unfoldable pub read :
    {K V : Type 0} ⦃k : Key K⦄
    → TransactionWrite V
    → Map K (EntryMap V)
    → K
    → TxnIndex
    → ReadResult V
unfolding range_back traverse from_write
read w m key txn_idx = read_tree w (lookup key m) txn_idx
