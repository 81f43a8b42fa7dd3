-- ===== src/MvHashMap/Examples.antt =====
-- Tests of the multi-version store on concrete inputs, and the theorems at concrete inputs.
use move_tutorial.Prelude.{ℕ, zero, suc, ◌<◌, ◌≡◌, inr, refl, arith, none, some, ok, err, [], ◌∷◌}
use move_tutorial.Prelude.Map.{Map, nat_key, lookup, insert}
use move_tutorial.Prelude.Map.Order.{IsSorted}
use move_tutorial.Aggregator.Delta.{delta_add, delta_sub, apply_to, merge_onto}
use move_tutorial.MvHashMap.{
  Entry, EntryMap, EntryCell, write, delta, flag_done, flag_estimate, TransactionWrite, resolved,
  version, not_found, dependency, add_write, mark_estimate, read, range_back, tree_at, traverse,
  from_write,
}
use move_tutorial.MvHashMap.Serial.{serial, Agrees}
use move_tutorial.MvHashMap.Serial.Agreement.{entries_below, read-Agrees}
use move_tutorial.MvHashMap.Visibility.{adds_write, read-update}
use move_tutorial.MvHashMap.Nearest.{read-add_write, read-mark_estimate}

-- Values are numbers that encode themselves; zero is a deletion.
abbrev pub numbers : TransactionWrite ℕ
numbers = record {
  Bytes = ℕ;
  extract_raw_bytes = λ v. elim v [ zero ↦ none | suc n ↦ some (suc n) ];
  deserialize = λ n. some n;
}

abbrev entry : ℕ → EntryCell ℕ → ℕ × Entry ℕ
entry i c = (i, record { flag = flag_done; cell = c })

-- At path 9: transaction 2 writes 10, 4 adds 5, 6 takes 3.
abbrev tree : EntryMap ℕ
tree =
    entry 2 (write 0 10)
    ∷ entry 4 (delta (delta_add 5 100))
    ∷ entry 6 (delta (delta_sub 3 100))
    ∷ []

abbrev store : Map ℕ (EntryMap ℕ)
store = (9, tree) ∷ []

read_sum : read numbers store 9 8 ≡ some (ok (resolved 12))
unfolding read lookup range_back traverse from_write merge_onto apply_to
read_sum = refl

read_version : read numbers store 9 3 ≡ some (ok (version (2, 0) 10))
unfolding read lookup range_back traverse
read_version = refl

read_nothing : read numbers store 9 2 ≡ some (err not_found)
unfolding read lookup range_back traverse
read_nothing = refl

read-Agrees_example :
    Agrees numbers (read numbers store 9 8) (serial numbers (entries_below store 9 8))
unfolding lookup range_back
read-Agrees_example =
    read-Agrees numbers store 9 8 100 (omega arith)
      ((omega arith, refl), ((omega arith, refl), (tt, tt)))

abbrev with_seven : EntryMap ℕ
with_seven =
    entry 2 (write 0 10)
    ∷ entry 4 (delta (delta_add 5 100))
    ∷ entry 6 (delta (delta_sub 3 100))
    ∷ entry 7 (write 1 50)
    ∷ []

abbrev stored_seven : Map ℕ (EntryMap ℕ)
stored_seven = (9, with_seven) ∷ []

read-update_example : read numbers stored_seven 9 7 ≡ read numbers store 9 7
unfolding add_write lookup insert
read-update_example =
    read-update numbers store stored_seven 9 9 (adds_write 7 1 50) 7 refl (inr (omega arith))

sorted : IsSorted (tree_at 9 store)
unfolding lookup
sorted = ((refl, (refl, tt)), ((refl, tt), (tt, tt)))

free_above : (i : ℕ) → i ≡ 6 → (j : ℕ) → i < j → j < 20 → lookup j tree ≡ none
unfolding lookup
free_above i e j h k = ground arith

read-add_write_example : read numbers stored_seven 9 20 ≡ some (ok (version (7, 1) 50))
unfolding add_write lookup insert
read-add_write_example =
    read-add_write numbers store stored_seven 9 7 1 20 50 sorted (omega arith)
      (λ j h k. free_above 6 refl j (omega arith) k) refl

abbrev with_estimate : EntryMap ℕ
with_estimate =
    entry 2 (write 0 10)
    ∷ entry 4 (delta (delta_add 5 100))
    ∷ (6, record { flag = flag_estimate; cell = delta (delta_sub 3 100) })
    ∷ []

abbrev stored_estimate : Map ℕ (EntryMap ℕ)
stored_estimate = (9, with_estimate) ∷ []

read-mark_estimate_example : read numbers stored_estimate 9 20 ≡ some (err (dependency 6))
unfolding mark_estimate lookup insert
read-mark_estimate_example =
    read-mark_estimate numbers store stored_estimate 9 6 20 sorted (omega arith) (free_above 6 refl)
      refl
