-- ===== src/Aggregator/Registry.antt =====
-- `AggregatorData` of aptos-aggregator/src/aggregator_extension.rs: the aggregators of one
-- transaction, with those that it created and those that it destroyed.
pub mod Laws
use move_tutorial.Prelude.{
  ℕ, ◌≡◌, ◌↔◌, Bool, true, false, ◌&&◌, ◌||◌, ltb, ◌==◌, arith, Option, none, some, Result, ok, err,
  Failure, panic, List, [], ◌∷◌, length, ◌>>=◌, if◌then◌else◌,
}
use move_tutorial.Prelude.Map.{Key, Map, lookup, insert, remove}
use move_tutorial.Aggregator.Extension.{Aggregator, known_data, positive_delta, new_history}

-- Account addresses, which are 256-bit numbers compared as such.
abbrev pub Address : Type 0
Address = ℕ

pub record AggregatorId : Type 0 where
  pub handle : Address
  pub key : Address

-- The derived order: by handle, then by key.
abbrev pub id_beq : AggregatorId → AggregatorId → Bool
id_beq a b = a.handle == b.handle && a.key == b.key

abbrev pub id_before : AggregatorId → AggregatorId → Bool
id_before a b = ltb a.handle b.handle || (a.handle == b.handle && ltb a.key b.key)

pub id_beq_iff : (a b : AggregatorId) → (id_beq a b ≡ true) ↔ (a ≡ b)
id_beq_iff a b = (λ e. ground arith, λ e. ground arith)

pub id_before_trans :
    (a b c : AggregatorId) → id_before a b ≡ true → id_before b c ≡ true → id_before a c ≡ true
id_before_trans a b c h k = ground arith

pub id_before_irrefl : (a : AggregatorId) → id_before a a ≡ false
id_before_irrefl a = ground arith

pub id_before_total :
    (a b : AggregatorId) → id_before a b ≡ false → id_beq a b ≡ false → id_before b a ≡ true
id_before_total a b h k = ground arith

instance abbrev pub id_key : Key AggregatorId
id_key = record {
  beq = id_beq;
  beq_iff = id_beq_iff;
  before = id_before;
  before_trans = id_before_trans;
  before_irrefl = id_before_irrefl;
  before_total = id_before_total;
}

-- A set is a map to `Unit`.
abbrev pub IdSet : Type 0
IdSet = Map AggregatorId (Unit {0})

pub record AggregatorData : Type 0 where
  pub new_aggregators : IdSet
  pub destroyed_aggregators : IdSet
  pub aggregators : Map AggregatorId Aggregator

-- `AggregatorData::default()`.
abbrev pub no_aggregators : AggregatorData
no_aggregators = record { new_aggregators = []; destroyed_aggregators = []; aggregators = [] }

abbrev pub initial : ℕ → Aggregator
initial limit = record {
  value = 0;
  state = positive_delta;
  limit = limit;
  history = some new_history;
}

abbrev pub or_insert :
    AggregatorData → AggregatorId → ℕ → Option Aggregator → Aggregator × AggregatorData
or_insert d id limit (some a) = (a, d)
or_insert d id limit none =
    (initial limit, record d { aggregators = insert id (initial limit) d.aggregators })

-- `entry(id).or_insert_with(…)`, then the reference: the aggregator and the data that holds it.
unfoldable pub get_aggregator : AggregatorData → AggregatorId → ℕ → Aggregator × AggregatorData
get_aggregator d id limit = or_insert d id limit (lookup id d.aggregators)

-- A write through the reference that `get_aggregator` returned.
unfoldable pub put_aggregator : AggregatorData → AggregatorId → Aggregator → AggregatorData
put_aggregator d id a = record d { aggregators = insert id a d.aggregators }

unfoldable pub num_aggregators : AggregatorData → ℕ
num_aggregators d = length d.aggregators

abbrev pub created : ℕ → Aggregator
created limit = record { value = 0; state = known_data; limit = limit; history = none }

unfoldable pub create_new_aggregator : AggregatorData → AggregatorId → ℕ → AggregatorData
create_new_aggregator d id limit = record d {
  aggregators = insert id (created limit) d.aggregators;
  new_aggregators = insert id tt d.new_aggregators;
}

unfoldable pub remove_aggregator : AggregatorData → AggregatorId → AggregatorData
remove_aggregator d id = elim (lookup id d.new_aggregators) [
  | some _ ↦ record d {
    aggregators = remove id d.aggregators;
    new_aggregators = remove id d.new_aggregators;
  }
  | none ↦ record d {
    aggregators = remove id d.aggregators;
    destroyed_aggregators = insert id tt d.destroyed_aggregators;
  }
]
