-- ===== src/Aggregator/Registry/Laws.antt =====
-- Creating and destroying aggregators.
use move_tutorial.Prelude.{ℕ, ◌≡◌, arith, none}
use move_tutorial.Prelude.Map.{lookup, lookup-insert, remove-insert, remove_of_none}
use move_tutorial.Aggregator.Registry.{
  AggregatorId, AggregatorData, id_key, id_beq_iff, create_new_aggregator, remove_aggregator,
  created,
}

-- An aggregator that is created under an unused id and destroyed in the same transaction leaves
-- the transaction's data exactly as it was.
pub remove-create :
    (d : AggregatorData) (id : AggregatorId) (limit : ℕ)
    → lookup id d.aggregators ≡ none
    → lookup id d.new_aggregators ≡ none
    → remove_aggregator (create_new_aggregator d id limit) id ≡ d
unfolding remove_aggregator create_new_aggregator
remove-create d id limit ha hn = ground (
  arith,
  id_beq_iff id id,
  lookup-insert id id tt d.new_aggregators,
  remove-insert id tt d.new_aggregators,
  remove-insert id (created limit) d.aggregators,
  remove_of_none id d.aggregators ha,
  remove_of_none id d.new_aggregators hn,
)
