-- ===== src/Aggregator/Natives/Session.antt =====
-- Sessions: any calls of the native functions, failing or not, one after the other.
use move_tutorial.Aggregator.Changes.{insert_deletes}
use move_tutorial.Aggregator.Natives.{create_keyed}
use move_tutorial.Aggregator.Registry.{or_insert}
use move_tutorial.Aggregator.Natives.{store_back, store_read}
use move_tutorial.Prelude.{◌%◌, ◌^◌}
use move_tutorial.Prelude.{
  ℕ, ◌≡◌, refl, arith, Option, none, some, Option-cases, Result, ok, err, Failure, List, [], ◌∷◌,
  inl, inr,
}
use move_tutorial.Prelude.Map.{Map, lookup, insert}
use move_tutorial.Prelude.Map.Order.{IsSorted, insert-IsSorted, remove-IsSorted}
use move_tutorial.Prelude.Map.Values.{
  AllValues, AllValues-insert, AllValues-remove, AllValues-lookup,
}
use move_tutorial.Aggregator.Extension.{
  Aggregator, AggregatorState, History, known_data, positive_delta, negative_delta, Storage, add,
  sub, read_and_materialize,
}
use move_tutorial.Aggregator.Registry.{
  AggregatorId, AggregatorData, id_key, initial, created, get_aggregator, put_aggregator,
  num_aggregators, create_new_aggregator, remove_aggregator, Address, no_aggregators,
}
use move_tutorial.Aggregator.Natives.{
  native_add, native_sub, native_read, native_destroy, native_new_aggregator,
}
use move_tutorial.Aggregator.Natives.Sound.{
  IsSound, Remembers, add-Remembers, sub-Remembers, read-Remembers,
}
use move_tutorial.Aggregator.Changes.{
  AggregatorChangeSet, AggregatorChange, change_of, insert_changes, into_change_set,
}

pub data Call : Type 0 where
  calls_add calls_sub : AggregatorId → ℕ → ℕ → Call
  calls_read : AggregatorId → ℕ → Call
  calls_destroy : AggregatorId → Call
  calls_new : Address → ℕ → Call

module _ (storage : Storage AggregatorId) (key_of : ℕ → Option Address) where
  -- The data after a call.
  abbrev pub call : AggregatorData → Call → AggregatorData
  call d (calls_add id limit v) = (native_add d id limit v).1
  call d (calls_sub id limit v) = (native_sub d id limit v).1
  call d (calls_read id limit) = (native_read storage d id limit).1
  call d (calls_destroy id) = native_destroy d id
  call d (calls_new handle limit) = (native_new_aggregator key_of d handle limit).1

  unfoldable pub session : AggregatorData → List Call → AggregatorData
  session d [] = d
  session d (c ∷ cs) = session (call d c) cs

pub record IsWell (d : AggregatorData) : Type 0 where
  pub sorted : IsSorted d.aggregators
  pub sound : AllValues IsSound d.aggregators

put-IsWell :
    (d : AggregatorData) (id : AggregatorId) (a : Aggregator)
    → IsSound a
    → IsWell d
    → IsWell (put_aggregator d id a)
unfolding put_aggregator
put-IsWell d id a s w = record {
  sorted = insert-IsSorted id a d.aggregators w.sorted;
  sound = AllValues-insert IsSound id a d.aggregators s w.sound;
}

initial-IsSound : (l : ℕ) → IsSound (initial l)
initial-IsSound l = omega arith

or_insert-IsWell :
    (d : AggregatorData) (id : AggregatorId) (l : ℕ) (o : Option Aggregator)
    → lookup id d.aggregators ≡ o
    → IsWell d
    → IsWell (or_insert d id l o).1 × IsSound (or_insert d id l o).0
or_insert-IsWell d id l none e w = (
  record {
    sorted = insert-IsSorted id (initial l) d.aggregators w.sorted;
    sound = AllValues-insert IsSound id (initial l) d.aggregators (initial-IsSound l) w.sound;
  },
  initial-IsSound l,
)
or_insert-IsWell d id l (some a) e w = (w, AllValues-lookup IsSound id a d.aggregators w.sound e)

get-IsWell :
    (d : AggregatorData) (id : AggregatorId) (l : ℕ)
    → IsWell d
    → IsWell (get_aggregator d id l).1 × IsSound (get_aggregator d id l).0
unfolding get_aggregator
get-IsWell d id l w = or_insert-IsWell d id l (lookup id d.aggregators) refl w

store_back-IsWell :
    (d : AggregatorData) (id : AggregatorId) (r : Result Failure Aggregator)
    → ((b : Aggregator) → r ≡ ok b → IsSound b)
    → IsWell d
    → IsWell (store_back d id r).1
store_back-IsWell d id (ok b) s w = put-IsWell d id b (s b refl) w
store_back-IsWell d id (err e) s w = w

store_read-IsWell :
    (d : AggregatorData) (id : AggregatorId) (r : Result Failure (ℕ × Aggregator))
    → ((n : ℕ) (b : Aggregator) → r ≡ ok (n, b) → IsSound b)
    → IsWell d
    → IsWell (store_read d id r).1
store_read-IsWell d id (ok (n, b)) s w = put-IsWell d id b (s n b refl) w
store_read-IsWell d id (err e) s w = w

create-IsWell :
    (d : AggregatorData) (id : AggregatorId) (l : ℕ)
    → IsWell d
    → IsWell (create_new_aggregator d id l)
unfolding create_new_aggregator
create-IsWell d id l w = record {
  sorted = insert-IsSorted id (created l) d.aggregators w.sorted;
  sound = AllValues-insert IsSound id (created l) d.aggregators refl w.sound;
}

create_keyed-IsWell :
    (d : AggregatorData) (handle : Address) (l : ℕ) (o : Option Address)
    → IsWell d
    → IsWell (create_keyed d handle l o).1
create_keyed-IsWell d handle l none w = w
create_keyed-IsWell d handle l (some key) w =
    create-IsWell d (record { handle = handle; key = key }) l w

remove-IsWell :
    (d : AggregatorData) (id : AggregatorId) → IsWell d → IsWell (remove_aggregator d id)
unfolding remove_aggregator
remove-IsWell d id w =
    let sorted = remove-IsSorted id d.aggregators w.sorted in
    let sound = AllValues-remove IsSound id d.aggregators w.sound in
    elim (Option-cases (lookup id d.new_aggregators)) [
      | inl e ↦ rw (e, remove_aggregator) (record { sorted = sorted; sound = sound })
      | inr (u, e) ↦ rw (e, remove_aggregator) (record { sorted = sorted; sound = sound })
    ]

module _ (storage : Storage AggregatorId) (key_of : ℕ → Option Address) where
  call-IsWell : (d : AggregatorData) (c : Call) → IsWell d → IsWell (call storage key_of d c)
  unfolding native_add native_sub native_read native_destroy native_new_aggregator
  call-IsWell d (calls_add id l v) w =
      let (a, d') = get_aggregator d id l in
      let (w', s) = get-IsWell d id l w in
      store_back-IsWell d' id (add a v) (λ b. add-Remembers a.limit a.value v a.state a.history b s)
        w'
  call-IsWell d (calls_sub id l v) w =
      let (a, d') = get_aggregator d id l in
      let (w', s) = get-IsWell d id l w in
      store_back-IsWell d' id (sub a v) (λ b. sub-Remembers a.limit a.value v a.state a.history b s)
        w'
  call-IsWell d (calls_read id l) w =
      let (a, d') = get_aggregator d id l in
      let (w', s) = get-IsWell d id l w in
      store_read-IsWell d' id (read_and_materialize storage a id)
        (λ n b. read-Remembers storage id a.limit a.value n a.state a.history b s) w'
  call-IsWell d (calls_destroy id) w = remove-IsWell d id w
  call-IsWell d (calls_new handle l) w =
      create_keyed-IsWell d handle l (key_of (num_aggregators d % 2 ^ 32)) w

  session-IsWell :
      (d : AggregatorData) (cs : List Call) → IsWell d → IsWell (session storage key_of d cs)
  unfolding session
  session-IsWell d [] w = w
  session-IsWell d (c ∷ cs) w = session-IsWell (call storage key_of d c) cs (call-IsWell d c w)

change_of-total :
    (v l : ℕ) (s : AggregatorState) (h : Option History)
    → Remembers s v h
    → (c : AggregatorChange) × (change_of (record { value = v; state = s; limit = l; history = h })
        ≡ ok c)
unfolding change_of
change_of-total v l known_data h r = (_, refl)
change_of-total v l positive_delta none r = elim r [ ]
change_of-total v l positive_delta (some h) r = (_, refl)
change_of-total v l negative_delta none r = elim r [ ]
change_of-total v l negative_delta (some h) r = (_, refl)

insert_changes-total :
    (m : Map AggregatorId Aggregator) (acc : AggregatorChangeSet)
    → AllValues IsSound m
    → (res : AggregatorChangeSet) × (insert_changes m acc ≡ ok res)
unfolding insert_changes
insert_changes-total [] acc s = (acc, refl)
insert_changes-total ((id, a) ∷ m) acc s =
    let (c, e) = change_of-total a.value a.limit a.state a.history s.0 in
    let (res, f) = insert_changes-total m (insert id c acc) s.1 in (res, rw e f)

-- Whatever natives a session calls, with whatever arguments, storage and keys, its aggregators can
-- be exported: the history that the export unwraps is there, and nothing panics.
pub into_change_set-total :
    (storage : Storage AggregatorId) (key_of : ℕ → Option Address) (cs : List Call)
    → (changes : AggregatorChangeSet) × (into_change_set (session storage key_of no_aggregators cs)
        ≡ ok changes)
unfolding into_change_set
into_change_set-total storage key_of cs =
    let d = session storage key_of no_aggregators cs in
    let w : IsWell d =
      session-IsWell storage key_of no_aggregators cs (record { sorted = tt; sound = tt }) in
    let (res, e) = insert_changes-total d.aggregators [] w.sound in
    (insert_deletes d.destroyed_aggregators res, rw e)
