-- ===== src/Aggregator/Natives.antt =====
-- The native functions of framework/src/natives/aggregator_natives (aggregator.rs and
-- aggregator_factory.rs), from the point where the Move arguments have been read. An error of the
-- virtual machine leaves the data as the calls before it left it, so the data comes back beside it.
pub mod Sound
pub mod Session
pub mod Keys
use move_tutorial.Prelude.{ℕ, ◌%◌, ◌^◌, Option, none, some, Result, ok, err, Failure, raised, ◌>>=◌}
use move_tutorial.Aggregator.Extension.{
  Aggregator, Storage, add, sub, read_and_materialize, extension_error,
}
use move_tutorial.Aggregator.Registry.{
  Address, AggregatorId, AggregatorData, get_aggregator, put_aggregator, num_aggregators,
  create_new_aggregator, remove_aggregator,
}

abbrev pub store_back :
    AggregatorData
    → AggregatorId
    → Result Failure Aggregator
    → Result Failure (Unit {0}) × AggregatorData
store_back d id (ok a) = (ok tt, put_aggregator d id a)
store_back d id (err e) = (err e, d)

unfoldable pub native_add :
    AggregatorData → AggregatorId → ℕ → ℕ → Result Failure (Unit {0}) × AggregatorData
unfolding get_aggregator put_aggregator
native_add d id limit value =
    let (a, d') = get_aggregator d id limit in store_back d' id (add a value)

unfoldable pub native_sub :
    AggregatorData → AggregatorId → ℕ → ℕ → Result Failure (Unit {0}) × AggregatorData
unfolding get_aggregator put_aggregator
native_sub d id limit value =
    let (a, d') = get_aggregator d id limit in store_back d' id (sub a value)

abbrev pub store_read :
    AggregatorData
    → AggregatorId
    → Result Failure (ℕ × Aggregator)
    → Result Failure ℕ × AggregatorData
store_read d id (ok (v, a)) = (ok v, put_aggregator d id a)
store_read d id (err e) = (err e, d)

unfoldable pub native_read :
    Storage AggregatorId → AggregatorData → AggregatorId → ℕ → Result Failure ℕ × AggregatorData
unfolding get_aggregator put_aggregator read_and_materialize
native_read storage d id limit =
    let (a, d') = get_aggregator d id limit in store_read d' id (read_and_materialize storage a id)

unfoldable pub native_destroy : AggregatorData → AggregatorId → AggregatorData
unfolding remove_aggregator
native_destroy d id = remove_aggregator d id

abbrev pub create_keyed :
    AggregatorData → Address → ℕ → Option Address → Result Failure AggregatorId × AggregatorData
create_keyed d handle limit none = (err (raised extension_error), d)
create_keyed d handle limit (some key) =
    let id : AggregatorId = record { handle = handle; key = key } in
    (ok id, create_new_aggregator d id limit)

-- `key_of n` is the address made of the hash of the transaction's hash and the number n, a `u32`;
-- `none` if the hash does not have the length of an address.
unfoldable pub native_new_aggregator :
    (ℕ → Option Address)
    → AggregatorData
    → Address
    → ℕ
    → Result Failure AggregatorId × AggregatorData
unfolding num_aggregators create_new_aggregator
native_new_aggregator key_of d handle limit =
    create_keyed d handle limit (key_of (num_aggregators d % 2 ^ 32))
