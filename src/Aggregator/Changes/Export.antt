-- ===== src/Aggregator/Changes/Export.antt =====
-- What `into_change_set` makes of the aggregators of a session.
use move_tutorial.Prelude.{
  ◌≡◌, refl, arith, inl, inr, Option, none, some, ok, Result-cases, to_option, bind_option, [], ◌∷◌,
}
use move_tutorial.Prelude.Map.{Map, lookup, insert, lookup-insert}
use move_tutorial.Prelude.Map.Order.{IsSorted, lookup_of_Above}
use move_tutorial.Aggregator.Extension.{Aggregator}
use move_tutorial.Aggregator.Registry.{AggregatorId, IdSet, AggregatorData, id_key, id_beq_iff}
use move_tutorial.Aggregator.Changes.{
  AggregatorChange, AggregatorChangeSet, delete, change_of, insert_changes, insert_deletes,
  into_change_set,
}

-- The entry that an aggregator leaves, over what was there.
abbrev entry_or : Option Aggregator → Option AggregatorChange → Option AggregatorChange
entry_or none old = old
entry_or (some a) old = to_option (change_of a)

lookup-insert_changes :
    (id : AggregatorId) (m : Map AggregatorId Aggregator) (acc res : AggregatorChangeSet)
    → IsSorted m
    → insert_changes m acc ≡ ok res
    → lookup id res ≡ entry_or (lookup id m) (lookup id acc)
unfolding insert_changes lookup
lookup-insert_changes id [] acc res s e = ground arith
lookup-insert_changes id ((j, a) ∷ m) acc res s e = elim (Result-cases (change_of a)) [
  | inl (c, ec) ↦
      let ih = lookup-insert_changes id m (insert j c acc) res s.1 (rw ec at e) in
      ground (arith, ih, ec, lookup-insert j id c acc, lookup_of_Above j m s.0, id_beq_iff j id)
  | inr (x, ex) ↦ cc (rw ex at e)
]

lookup-insert_deletes :
    (id : AggregatorId) (s : IdSet) (acc : AggregatorChangeSet)
    → lookup id (insert_deletes s acc)
      ≡ elim (lookup id s) [ some _ ↦ some delete | none ↦ lookup id acc ]
unfolding insert_deletes lookup
lookup-insert_deletes id [] acc = refl
lookup-insert_deletes id ((j, u) ∷ s) acc =
    ground (arith, lookup-insert_deletes id s (insert j delete acc), lookup-insert j id delete acc)

-- After the deltas and writes of a session are collected, an id has a deletion if the session
-- destroyed an aggregator from outside, else the change of the aggregator that the session holds
-- under the id, else nothing.
pub lookup-into_change_set :
    (id : AggregatorId) (d : AggregatorData) (changes : AggregatorChangeSet)
    → IsSorted d.aggregators
    → into_change_set d ≡ ok changes
    → lookup id changes ≡ elim (lookup id d.destroyed_aggregators) [
      | some _ ↦ some delete
      | none ↦ bind_option (lookup id d.aggregators) (λ a. to_option (change_of a))
    ]
unfolding into_change_set lookup
lookup-into_change_set id d changes s e = elim (Result-cases (insert_changes d.aggregators [])) [
  | inl (c, ec) ↦ ground (
    arith,
    ec,
    rw ec at e,
    lookup-insert_changes id d.aggregators [] c s ec,
    lookup-insert_deletes id d.destroyed_aggregators c,
  )
  | inr (x, ex) ↦ cc (rw ex at e)
]
