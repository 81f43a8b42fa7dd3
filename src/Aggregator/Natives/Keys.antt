-- ===== src/Aggregator/Natives/Keys.antt =====
-- The keys that framework/src/natives/aggregator_natives/aggregator_factory.rs gives.
use move_tutorial.Aggregator.Natives.{create_keyed}
use move_tutorial.Prelude.{true, false, refl}
use move_tutorial.Prelude.{ℕ, ◌%◌, ◌^◌, ◌≡◌, ◌∙◌, ap, arith, Option, none, some, ok, length}
use move_tutorial.Prelude.Map.{Map, lookup, insert, remove, lookup-insert}
use move_tutorial.Prelude.Map.Order.{IsSorted, insert-IsSorted}
use move_tutorial.Prelude.Map.Size.{
  length-insert_of_none, length-insert_of_some, length-remove_of_some,
}
use move_tutorial.Aggregator.Extension.{Aggregator}
use move_tutorial.Aggregator.Registry.{
  Address, AggregatorId, AggregatorData, created, id_key, id_beq, id_beq_iff, put_aggregator,
  create_new_aggregator, num_aggregators,
}
use move_tutorial.Aggregator.Natives.{native_destroy, native_new_aggregator}

id_beq_refl : (id : AggregatorId) → id_beq id id ≡ true
id_beq_refl id = ground arith

module _ (m : Map AggregatorId Aggregator) (x id : AggregatorId) (b c a : Aggregator)
    (s : IsSorted m) (old : lookup x m ≡ some c) (unused : lookup id m ≡ none) where
  x-ne-id : id_beq id x ≡ false
  x-ne-id = ground (arith, id_beq_iff id x)

  -- Creating one, writing to it and destroying another leaves as many as there were.
  length-swap : length (remove x (insert id a (insert id b m))) ≡ length m
  length-swap = omega (
    arith,
    length-remove_of_some x c (insert id a (insert id b m))
        (insert-IsSorted id a (insert id b m) (insert-IsSorted id b m s))
        (rw lookup-insert (rw x-ne-id (rw lookup-insert (rw x-ne-id old)))),
    length-insert_of_some id a b (insert id b m) (insert-IsSorted id b m s)
        (rw lookup-insert (rw (id_beq_refl id) refl)),
    length-insert_of_none id b m unused,
  )

new_eq :
    (key_of : ℕ → Option Address) (d : AggregatorData) (handle key l : ℕ)
    → key_of (num_aggregators d % 2 ^ 32) ≡ some key
    → native_new_aggregator key_of d handle l ≡ (
      ok (record { handle = handle; key = key }),
      create_new_aggregator d (record { handle = handle; key = key }) l,
    )
unfolding native_new_aggregator
new_eq key_of d handle key l e = ap (create_keyed d handle l) e

new_id :
    (key_of : ℕ → Option Address) (d : AggregatorData) (handle key l : ℕ)
    → key_of (num_aggregators d % 2 ^ 32) ≡ some key
    → let id : AggregatorId = record { handle = handle; key = key } in
      ((native_new_aggregator key_of d handle l).0 ≡ ok id)
      × (lookup id (native_new_aggregator key_of d handle l).1.aggregators ≡ some (created l))
unfolding create_new_aggregator
new_id key_of d handle key l e =
    let id : AggregatorId = record { handle = handle; key = key } in
    rw (new_eq key_of d handle key l e) (refl, rw lookup-insert (rw (id_beq_refl id) refl))

aggregators-destroy :
    (d : AggregatorData) (x : AggregatorId)
    → (native_destroy d x).aggregators ≡ remove x d.aggregators
unfolding native_destroy
aggregators-destroy d x = ground arith

aggregators-destroy_put :
    (key_of : ℕ → Option Address) (d : AggregatorData) (x : AggregatorId) (a : Aggregator)
    (handle key l : ℕ)
    → key_of (num_aggregators d % 2 ^ 32) ≡ some key
    → let id : AggregatorId = record { handle = handle; key = key } in
      (native_destroy
        (put_aggregator (native_new_aggregator key_of d handle l).1 id a)
        x).aggregators
      ≡ remove x (insert id a (insert id (created l) d.aggregators))
unfolding put_aggregator create_new_aggregator
aggregators-destroy_put key_of d x a handle key l e =
    aggregators-destroy _ x ∙ rw (new_eq key_of d handle key l e) refl

-- A transaction holds the aggregator x; it creates one, with a key not in use, and gives it some
-- state; then it destroys x and creates another under the same handle. The second creation returns
-- the id of the first again, and a zero takes the place of the state.
pub create-destroy-create :
    (key_of : ℕ → Option Address) (d : AggregatorData) (x : AggregatorId) (c a : Aggregator)
    (handle key l l' : ℕ)
    → let id : AggregatorId = record { handle = handle; key = key } in
      let d1 = (native_new_aggregator key_of d handle l).1 in
      let d2 = native_destroy (put_aggregator d1 id a) x in
      IsSorted d.aggregators
      → lookup x d.aggregators ≡ some c
      → lookup id d.aggregators ≡ none
      → key_of (num_aggregators d % 2 ^ 32) ≡ some key
      → ((native_new_aggregator key_of d2 handle l').0 ≡ ok id)
        × (lookup id (native_new_aggregator key_of d2 handle l').1.aggregators ≡ some (created l'))
unfolding num_aggregators
create-destroy-create key_of d x c a handle key l l' s old unused ek =
    let id : AggregatorId = record { handle = handle; key = key } in
    let d2 = native_destroy (put_aggregator (native_new_aggregator key_of d handle l).1 id a) x in
    let same : num_aggregators d2 ≡ num_aggregators d =
      ap length (aggregators-destroy_put key_of d x a handle key l ek)
      ∙ length-swap d.aggregators x id (created l) c a s old unused in
    new_id key_of d2 handle key l' (ap (λ n. key_of (n % 2 ^ 32)) same ∙ ek)
