-- ===== src/Executor/Resolver.antt =====
-- parallel-executor/src/output_delta_resolver.rs: the numbers that take the place of the deltas once
-- all transactions have run. The number stands for the write of its bytes; `none` is a panic.
pub mod Rows
pub mod Contents
pub mod Values
use move_tutorial.Prelude.{
  ℕ, ◌≡◌, Bool, ltb, if◌then◌else◌, Option, none, some, Result, ok, err, to_option, List, [], ◌∷◌,
  ◌++◌, get_elem?, set, replicate,
}
use move_tutorial.Prelude.Options.{◌>>=◌}
use move_tutorial.Prelude.Map.{Key, Map}
use move_tutorial.Aggregator.Delta.{DeltaOp, apply_to}
use move_tutorial.MvHashMap.{
  TxnIndex, Entry, EntryMap, EntryCell, write, delta, TransactionWrite, from_write,
  entry_map_for_key,
}

-- `ret[idx].push(…)`.
abbrev pub push_at {ℓ} : {A : Type ℓ} → List (List A) → ℕ → A → Option (List (List A))
push_at ret idx a = do row ← get_elem? ret idx; some (set ret idx (row ++ a ∷ []))

module _ {K V : Type 0} (w : TransactionWrite V) (key : K) where
  -- The `match` on a cell; `next` is the rest of the loop.
  abbrev pub resolve_cell :
      (Option ℕ → List (List (K × ℕ)) → Option (List (List (K × ℕ))))
      → TxnIndex
      → EntryCell V
      → Option ℕ
      → List (List (K × ℕ))
      → Option (List (List (K × ℕ)))
  resolve_cell next idx (write _ v) latest ret = do value ← from_write w v; next value ret
  resolve_cell next idx (delta d) latest ret = do
    base ← latest
    value ← to_option (apply_to d base)
    ret' ← push_at ret idx (key, value)
    next (some value) ret'

  -- The loop over the entries of a key, the first one first.
  unfoldable pub resolve_entries :
      EntryMap V → Option ℕ → List (List (K × ℕ)) → Option (List (List (K × ℕ)))
  resolve_entries [] latest ret = some ret
  resolve_entries ((idx, entry) ∷ rest) latest ret =
      resolve_cell (resolve_entries rest) idx entry.cell latest ret

-- What storage holds: an error counts as nothing.
abbrev pub storage_value :
    {V E : Type 0} (w : TransactionWrite V) → Result E (Option w.Bytes) → Option (Option ℕ)
storage_value w (err _) = some none
storage_value w (ok none) = some none
storage_value w (ok (some bytes)) = w.deserialize bytes >>= λ value. some (some value)

module _ {K V E : Type 0} ⦃k : Key K⦄ (w : TransactionWrite V) where
  unfoldable pub resolve_keys :
      Map K (EntryMap V)
      → List (K × Result E (Option w.Bytes))
      → List (List (K × ℕ))
      → Option (List (List (K × ℕ)))
  unfolding resolve_entries entry_map_for_key
  resolve_keys m [] ret = some ret
  resolve_keys m ((key, storage_val) ∷ keys) ret = do
    latest ← storage_value w storage_val
    let taken = entry_map_for_key m key
    entries ← taken.0
    ret' ← resolve_entries w key entries latest ret
    resolve_keys taken.1 keys ret'

  unfoldable pub resolve :
      Map K (EntryMap V) → List (K × Result E (Option w.Bytes)) → ℕ → Option (List (List (K × ℕ)))
  unfolding resolve_keys
  resolve m aggregator_keys block_size = resolve_keys m aggregator_keys (replicate block_size [])
