-- ===== src/Aggregator/Examples/ChangeSets.antt =====
-- Tests of the change sets and outputs with deltas of aptos-aggregator/src/transaction.rs on concrete
-- inputs, and the theorems at concrete inputs.
use move_tutorial.Prelude.{
  ℕ, ◌≡◌, refl, arith, Bool, true, false, Option, none, some, ok, err, [], ◌∷◌, ◌++◌, length,
  if◌then◌else◌, ◌==◌, StatusCode, aborted,
}
use move_tutorial.Prelude.Map.{Map, nat_key, lookup, insert, remove}
use move_tutorial.Aggregator.Delta.{DeltaOp, delta_add, delta_sub, apply_to}
use move_tutorial.Aggregator.Deltas.{new_deltas, collect_deltas, insert_delta, new_deltas-IsSorted}
use move_tutorial.Aggregator.Squash.{
  WriteOp, creation, modification, deletion, ChangeSet, ChangeSetExt, Encoding, new_change_set,
  squash_change_set, squash_ext, squash_writes, squash_write, squash_deltas, squash_delta,
  squash_delta_change_set, cannot_be_squashed,
}
use move_tutorial.Aggregator.Squash.Stored.{stored, update, applied, Fit, FitsBase}
use move_tutorial.Aggregator.Squash.Writes.{squash_change_set-applied}
use move_tutorial.Aggregator.Squash.Disjoint.{Apart, squash_ext-HasApart}
use move_tutorial.Aggregator.Output.{
  Platform, TransactionOutput, TransactionOutputExt, StateView, materialize_deltas,
  try_into_write_op, try_into_write_set_mut, into_transaction_output, output_with_delta_writes,
  merge_delta_writes,
}
use move_tutorial.Aggregator.Output.Paths.{
  CountsWrites, into_transaction_output-output_with_delta_writes,
}

-- Values are numbers, and every change set is accepted.
abbrev numbers : Encoding ℕ ℕ ℕ
numbers = record { from_bytes = some; to_bytes = some; accepts = λ cs v. true }

-- Key 1 holds 10.
abbrev base : ℕ → Option ℕ
base i = if i == 1 then some 10 else none

abbrev earlier : ChangeSetExt ℕ ℕ ℕ
earlier = record {
  delta_change_set = (3, delta_add 10 100) ∷ [];
  change_set = record { write_set = (1, modification 11) ∷ (2, creation 20) ∷ []; events = 7 ∷ [] };
  gas_feature_version = 4;
}

abbrev later_writes : ChangeSet ℕ ℕ ℕ
later_writes = record {
  write_set = (1, deletion) ∷ (2, modification 21) ∷ (3, creation 30) ∷ [];
  events = 8 ∷ [];
}

abbrev later : ChangeSetExt ℕ ℕ ℕ
later = record {
  delta_change_set = (2, delta_sub 1 100) ∷ (4, delta_add 5 100) ∷ [];
  change_set = later_writes;
  gas_feature_version = 4;
}

abbrev squashed : ChangeSetExt ℕ ℕ ℕ
squashed = record {
  delta_change_set = (4, delta_add 5 100) ∷ [];
  change_set = record {
    write_set = (1, deletion) ∷ (2, creation 20) ∷ (3, creation 30) ∷ [];
    events = 7 ∷ 8 ∷ [];
  };
  gas_feature_version = 4;
}

squash_run : squash_ext numbers earlier later ≡ ok squashed
unfolding squash_ext squash_change_set squash_writes squash_write squash_delta_change_set
    squash_deltas squash_delta lookup insert remove apply_to
squash_run = refl

-- The first creates key 2, and so does the second.
squash_refused : squash_ext numbers earlier earlier ≡ err cannot_be_squashed
unfolding squash_ext squash_change_set squash_writes squash_write lookup insert
squash_refused = refl

earlier-FitsBase : FitsBase base earlier.change_set.write_set
unfolding FitsBase lookup
earlier-FitsBase i w e = ground arith

squash_change_set-applied_example :
    (out : Map ℕ DeltaOp × Map ℕ (WriteOp ℕ)) × (squash_change_set numbers earlier later_writes
      ≡ new_change_set numbers out.0
          (record { write_set = out.1; events = (7 ∷ []) ++ (8 ∷ []) })
          4)
    × FitsBase base out.1
    × ((i : ℕ)
        → stored base out.1 i
          ≡ applied later_writes.write_set (stored base earlier.change_set.write_set) i)
unfolding Fit stored update lookup
squash_change_set-applied_example =
    squash_change_set-applied numbers base earlier later_writes earlier-FitsBase
      (refl, (refl, (refl, tt)))

earlier-Apart : Apart (earlier.delta_change_set, earlier.change_set.write_set)
unfolding Apart lookup
earlier-Apart i w e = ground arith

squash_ext-HasApart_example : Apart (squashed.delta_change_set, squashed.change_set.write_set)
squash_ext-HasApart_example =
    squash_ext-HasApart numbers earlier later squashed earlier-Apart squash_run

abbrev platform : Platform ℕ ℕ
platform = record {
  VmStatus = StatusCode;
  error = λ c. c;
  finish = λ e. aborted;
  from_bytes = some;
  to_bytes = some;
  WriteSetMut = Map ℕ (WriteOp ℕ);
  new_set = λ l. l;
  len = length;
  squash = λ a b. some (a ++ b);
  WriteSet = Map ℕ (WriteOp ℕ);
  into_mut = λ a. a;
  freeze = some;
  TransactionStatus = Bool;
  is_discarded = λ b. b;
}

abbrev with_delta : TransactionOutputExt platform ℕ
with_delta = record {
  delta_change_set = new_deltas ((1, delta_add 5 100) ∷ []);
  output = record { write_set = (0, creation 1) ∷ []; events = []; gas_used = 9; status = false };
}

abbrev view : StateView ℕ ℕ
view i = some (base i)

abbrev without_delta : TransactionOutput platform ℕ
without_delta = record {
  write_set = (0, creation 1) ∷ (1, modification 15) ∷ [];
  events = [];
  gas_used = 9;
  status = false;
}

output_run :
    output_with_delta_writes platform with_delta ((1, modification 15) ∷ []) ≡ ok without_delta
unfolding output_with_delta_writes merge_delta_writes new_deltas collect_deltas insert_delta insert
output_run = refl

platform-CountsWrites : CountsWrites platform
unfolding CountsWrites
platform-CountsWrites l s = refl

into_transaction_output-output_with_delta_writes_example :
    into_transaction_output platform with_delta view
    ≡ output_with_delta_writes platform with_delta ((1, modification 15) ∷ [])
unfolding try_into_write_set_mut materialize_deltas try_into_write_op apply_to new_deltas
    collect_deltas insert_delta insert
into_transaction_output-output_with_delta_writes_example =
    into_transaction_output-output_with_delta_writes platform with_delta view
      ((1, modification 15) ∷ []) platform-CountsWrites
      (new_deltas-IsSorted {K = ℕ} ((1, delta_add 5 100) ∷ [])) refl
