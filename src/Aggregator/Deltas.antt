-- ===== src/Aggregator/Deltas.antt =====
-- `DeltaChangeSet` of aptos-aggregator/src/delta_change_set.rs.
use move_tutorial.Prelude.{Bool, Option, List, [], ◌∷◌, length, ◌==◌}
use move_tutorial.Prelude.Map.{Key, Map, lookup, insert, remove}
use move_tutorial.Prelude.Map.Order.{IsSorted, insert-IsSorted, remove-IsSorted}
use move_tutorial.Aggregator.Delta.{DeltaOp}

abbrev pub DeltaChangeSet : Type 0 → Type 0
DeltaChangeSet K = Map K DeltaOp

module _ {K : Type 0} where
  abbrev pub no_deltas : DeltaChangeSet K
  no_deltas = []

  abbrev pub is_empty : DeltaChangeSet K → Bool
  is_empty self = length self == 0

module _ {K : Type 0} ⦃k : Key K⦄ where
  -- The methods `insert` and `remove`.
  unfoldable pub insert_delta : K → DeltaOp → DeltaChangeSet K → DeltaChangeSet K
  insert_delta key op self = insert key op self

  unfoldable remove_delta : K → DeltaChangeSet K → Option DeltaOp × DeltaChangeSet K
  remove_delta key self = (lookup key self, remove key self)

  -- `collect`, onto what is collected.
  unfoldable pub collect_deltas : List (K × DeltaOp) → DeltaChangeSet K → DeltaChangeSet K
  unfolding insert_delta
  collect_deltas [] self = self
  collect_deltas ((key, op) ∷ deltas) self = collect_deltas deltas (insert_delta key op self)

  -- The method `new`.
  unfoldable pub new_deltas : List (K × DeltaOp) → DeltaChangeSet K
  unfolding collect_deltas
  new_deltas deltas = collect_deltas deltas no_deltas

  insert_delta-IsSorted :
      (key : K) (op : DeltaOp) (self : DeltaChangeSet K)
      → IsSorted self
      → IsSorted (insert_delta key op self)
  unfolding insert_delta
  insert_delta-IsSorted key op self s = insert-IsSorted key op self s

  remove_delta-IsSorted :
      (key : K) (self : DeltaChangeSet K) → IsSorted self → IsSorted (remove_delta key self).1
  unfolding remove_delta
  remove_delta-IsSorted key self s = remove-IsSorted key self s

  collect_deltas-IsSorted :
      (deltas : List (K × DeltaOp)) (self : DeltaChangeSet K)
      → IsSorted self
      → IsSorted (collect_deltas deltas self)
  unfolding collect_deltas
  collect_deltas-IsSorted [] self s = s
  collect_deltas-IsSorted ((key, op) ∷ deltas) self s =
      collect_deltas-IsSorted deltas (insert_delta key op self)
        (insert_delta-IsSorted key op self s)

  pub new_deltas-IsSorted : (deltas : List (K × DeltaOp)) → IsSorted (new_deltas deltas)
  unfolding new_deltas
  new_deltas-IsSorted deltas = collect_deltas-IsSorted deltas no_deltas tt
