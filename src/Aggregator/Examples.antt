-- ===== src/Aggregator/Examples.antt =====
-- Tests of the aggregator modules on concrete inputs, some of them those of the source's unit
-- tests, and the theorems at concrete inputs.
mod ChangeSets
use move_tutorial.Prelude.{
  ℕ, ◌+◌, ◌≡◌, ◌↔◌, refl, arith, Option, none, some, ok, err, List, [], ◌∷◌, to_option, bind_option,
}
use move_tutorial.Prelude.Map.{lookup, insert, remove}
use move_tutorial.Aggregator.Delta.{
  DeltaOp, plus, delta_add, delta_sub, apply_to, merge_onto, abort_error, esub_underflow,
  eadd_overflow,
}
use move_tutorial.Aggregator.Delta.Apply.{Applies, apply_to_iff}
use move_tutorial.Aggregator.Delta.Merge.{IsCovered, merge_onto-apply_to, merge_onto-IsCovered}
use move_tutorial.Aggregator.Extension.{Storage, add, sub}
use move_tutorial.Aggregator.Extension.Refinement.{
  Change, adds, subs, changes, counter, after, read_value, fresh, known, changes-counter,
  known-counter,
}
use move_tutorial.Aggregator.Registry.{
  Address, AggregatorId, AggregatorData, id_key, no_aggregators, created, create_new_aggregator,
  remove_aggregator, put_aggregator, num_aggregators,
}
use move_tutorial.Aggregator.Registry.Laws.{remove-create}
use move_tutorial.Aggregator.Natives.{native_add, native_sub, native_destroy, native_new_aggregator}
use move_tutorial.Aggregator.Natives.Session.{
  Call, calls_add, calls_sub, calls_destroy, calls_new, session, into_change_set-total,
}
use move_tutorial.Aggregator.Natives.Keys.{create-destroy-create}
use move_tutorial.Aggregator.Changes.{
  AggregatorChange, AggregatorChangeSet, write, merge, change_of, squash_change, into_change_set,
}
use move_tutorial.Aggregator.Changes.Export.{lookup-into_change_set}
use move_tutorial.Aggregator.Changes.Effects.{
  effect, exported, exported-counter, squash_change-effect,
}

-- `test_delta_merge_sub`: -20 onto -30 and onto +30.
abbrev minus_twenty : DeltaOp
minus_twenty = delta_sub 20 100

abbrev plus_thirty : DeltaOp
plus_thirty = delta_add 30 100

abbrev plus_ten : DeltaOp
plus_ten = record { max_positive = 30; min_negative = 0; limit = 100; update = plus 10 }

merge_sub : merge_onto minus_twenty plus_thirty ≡ ok plus_ten
unfolding merge_onto
merge_sub = refl

apply_too_low : apply_to minus_twenty 19 ≡ err (abort_error esub_underflow)
unfolding apply_to
apply_too_low = refl

apply_too_high : apply_to plus_thirty 71 ≡ err (abort_error eadd_overflow)
unfolding apply_to
apply_too_high = refl

apply_to_iff_example : (apply_to plus_thirty 70 ≡ ok 100) ↔ Applies plus_thirty 70 100
apply_to_iff_example = apply_to_iff plus_thirty 70 100 (omega arith)

merge_onto-apply_to_example :
    bind_option (to_option (merge_onto minus_twenty plus_thirty)) (λ m. to_option (apply_to m 70))
    ≡ bind_option (to_option (apply_to plus_thirty 70)) (λ s. to_option (apply_to minus_twenty s))
merge_onto-apply_to_example =
    merge_onto-apply_to minus_twenty plus_thirty 70 refl (omega arith) (omega arith)

merge_onto-IsCovered_example : IsCovered plus_ten × (plus_ten.limit ≡ minus_twenty.limit)
merge_onto-IsCovered_example =
    merge_onto-IsCovered minus_twenty plus_thirty plus_ten refl (omega arith) (omega arith)
      (omega arith) merge_sub

-- Up by 60, down by 80, up by 30: a counter that starts at 30 and ends at 40.
abbrev up_and_down : List Change
up_and_down = adds 60 ∷ subs 80 ∷ adds 30 ∷ []

counter_run : counter 100 up_and_down 30 ≡ some 40
unfolding counter
counter_run = refl

-- From 10 it would fall below zero on the way.
counter_fails : counter 100 up_and_down 10 ≡ none
unfolding counter
counter_fails = refl

changes-counter_example : after (read_value 30) up_and_down (fresh 100) ≡ counter 100 up_and_down 30
changes-counter_example = changes-counter 100 30 up_and_down (omega arith) (omega arith)

known-counter_example :
    to_option (changes up_and_down (known 100 30))
    ≡ bind_option (counter 100 up_and_down 30) (λ m. some (known 100 m))
known-counter_example = known-counter 100 30 up_and_down (omega arith) (omega arith)

exported-counter_example : after (exported 30) up_and_down (fresh 100) ≡ counter 100 up_and_down 30
exported-counter_example = exported-counter 100 30 up_and_down (omega arith) (omega arith)

-- A transaction adds 30, a later one takes 20 away.
squash_change-effect_example :
    (c : AggregatorChange) × (squash_change (merge plus_thirty) (merge minus_twenty) ≡ ok c)
    × (effect c 50 ≡ some (some 60))
unfolding effect apply_to
squash_change-effect_example =
    squash_change-effect 100 50 80 (merge plus_thirty) (merge minus_twenty) (some 60) (omega arith)
      (omega arith, refl) (omega arith, refl) refl refl

abbrev storage : Storage AggregatorId
storage = record {
  Bytes = ℕ;
  ResolveError = Unit;
  resolve_table_entry = λ id. ok (some 50);
  deserialize = λ n. some n;
}

-- A hash with no collisions.
abbrev key_of : ℕ → Option Address
key_of n = some (100 + n)

abbrev id_of : Address → AggregatorId
id_of key = record { handle = 1; key = key }

-- A delta on a stored aggregator, and one that is created and destroyed.
abbrev calls : List Call
calls =
    calls_add (id_of 7) 100 30
    ∷ calls_sub (id_of 7) 100 20
    ∷ calls_new 1 100
    ∷ calls_destroy (id_of 101)
    ∷ []

session_export :
    into_change_set (session storage key_of no_aggregators calls)
    ≡ ok ((id_of 7, merge plus_ten) ∷ [])
unfolding into_change_set session native_add native_sub native_new_aggregator native_destroy lookup
    insert remove add sub
session_export = refl

into_change_set-total_example :
    (changes : AggregatorChangeSet) × (into_change_set (session storage key_of no_aggregators calls)
      ≡ ok changes)
into_change_set-total_example = into_change_set-total storage key_of calls

-- Holds the aggregator 7, which another transaction created.
abbrev with_seven : AggregatorData
with_seven = record no_aggregators { aggregators = (id_of 7, created 100) ∷ [] }

lookup-into_change_set_example : lookup (id_of 7) ((id_of 7, write 0) ∷ []) ≡ some (write 0)
unfolding into_change_set change_of lookup insert
lookup-into_change_set_example =
    lookup-into_change_set (id_of 7) with_seven ((id_of 7, write 0) ∷ []) (tt, tt) refl

remove-create_example :
    remove_aggregator (create_new_aggregator with_seven (id_of 8) 100) (id_of 8) ≡ with_seven
unfolding lookup
remove-create_example = remove-create with_seven (id_of 8) 100 refl refl

create-destroy-create_example :
    let d1 = (native_new_aggregator key_of with_seven 1 100).1 in
    let d2 = native_destroy (put_aggregator d1 (id_of 101) (known 100 5)) (id_of 7) in
    ((native_new_aggregator key_of d2 1 200).0 ≡ ok (id_of 101))
    × (lookup (id_of 101) (native_new_aggregator key_of d2 1 200).1.aggregators
        ≡ some (created 200))
unfolding lookup num_aggregators
create-destroy-create_example =
    create-destroy-create key_of with_seven (id_of 7) (created 100) (known 100 5) 1 101 100 200
      (tt, tt) refl refl refl
