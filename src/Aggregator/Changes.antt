-- ===== src/Aggregator/Changes.antt =====
-- `AggregatorChangeSet` of framework/src/natives/aggregator_natives/context.rs: what the
-- aggregators of a session do to storage, and how two sessions are squashed into one.
pub mod Export
pub mod Effects
use move_tutorial.Prelude.{
  ℕ, Option, none, some, Result, ok, err, PartialVmError, Failure, panic, lift, expect, ◌>>=◌, List,
  [], ◌∷◌, bind_option, to_option,
}
use move_tutorial.Prelude.Map.{Map, lookup, insert}
use move_tutorial.Aggregator.Delta
use move_tutorial.Aggregator.Delta.{DeltaOp, DeltaUpdate, plus, minus, apply_to, merge_onto}
use move_tutorial.Aggregator.Extension.{
  Aggregator, AggregatorState, known_data, positive_delta, negative_delta, History,
}
use move_tutorial.Aggregator.Registry.{AggregatorId, IdSet, AggregatorData, id_key}

pub data AggregatorChange : Type 0 where
  write : ℕ → AggregatorChange
  merge : DeltaOp → AggregatorChange
  delete : AggregatorChange

abbrev pub AggregatorChangeSet : Type 0
AggregatorChangeSet = Map AggregatorId AggregatorChange

abbrev pub delta_change : Aggregator → DeltaUpdate → Result Failure AggregatorChange
delta_change a update = do
  history ← expect a.history
  ok (merge (Delta.new update a.limit history.max_positive history.min_negative))

abbrev pub change_in : AggregatorState → Aggregator → Result Failure AggregatorChange
change_in known_data a = ok (write a.value)
change_in positive_delta a = delta_change a (plus a.value)
change_in negative_delta a = delta_change a (minus a.value)

-- The `match` in the loop of `into_change_set`.
unfoldable pub change_of : Aggregator → Result Failure AggregatorChange
change_of a = change_in a.state a

unfoldable pub insert_changes :
    Map AggregatorId Aggregator → AggregatorChangeSet → Result Failure AggregatorChangeSet
unfolding change_of
insert_changes [] changes = ok changes
insert_changes ((id, a) ∷ rest) changes = do
  change ← change_of a
  insert_changes rest (insert id change changes)

unfoldable pub insert_deletes : IdSet → AggregatorChangeSet → AggregatorChangeSet
insert_deletes [] changes = changes
insert_deletes ((id, _) ∷ rest) changes = insert_deletes rest (insert id delete changes)

unfoldable pub into_change_set : AggregatorData → Result Failure AggregatorChangeSet
unfolding insert_changes insert_deletes
into_change_set d = do
  changes ← insert_changes d.aggregators []
  ok (insert_deletes d.destroyed_aggregators changes)

-- The `match` of `squash`: the entry, then the change of the other session.
unfoldable pub squash_change : AggregatorChange → AggregatorChange → Result Failure AggregatorChange
squash_change delete other = err panic
squash_change entry (write value) = ok (write value)
squash_change entry delete = ok delete
squash_change (write value) (merge delta) = do v ← lift (apply_to delta value); ok (write v)
squash_change (merge delta1) (merge delta2) = do d ← lift (merge_onto delta2 delta1); ok (merge d)

unfoldable pub squash_entry :
    Option AggregatorChange → AggregatorChange → Result Failure AggregatorChange
unfolding squash_change
squash_entry none other = ok other
squash_entry (some entry) other = squash_change entry other

-- The conversion of an error to a `VMStatus` is left out.
unfoldable pub squash :
    AggregatorChangeSet → AggregatorChangeSet → Result Failure AggregatorChangeSet
unfolding squash_entry
squash changes [] = ok changes
squash changes ((id, other) ∷ rest) = do
  change ← squash_entry (lookup id changes) other
  squash (insert id change changes) rest
