-- ===== src/Gas/Examples.antt =====
-- Concrete values, gas parameters and meters: runs of the gas model of aptos-gas.
use move_tutorial.Gas.Meter.Effect.Values.{AreComparable}
use move_tutorial.Gas.Sizes.{abstract_value_size_stack_and_heap}
use move_tutorial.Gas.Sizes.Pack.{heap_size-pack}
use move_tutorial.Gas.Transaction.{calculate_storage_gas}
use move_tutorial.Gas.Transaction.WriteSet.{calculate_storage_gas-sum}
use move_tutorial.Gas.Meter.Charges.{ModuleId}
use move_tutorial.Gas.Meter.TableMark.{native_after_table}
use move_tutorial.Gas.Meter.Memory.{perform_all-Undoes, pop_copy}
use move_tutorial.Gas.Meter.Budget.Sequences.{perform_all-total, perform_all-granted}
use move_tutorial.Gas.Meter.Budget.{total_gas}
use move_tutorial.Gas.Meter.Exhausted.{EndsWell, perform_all-EndsWell}
use move_tutorial.Gas.Meter.Kept.{IsAfter, perform_all-IsAfter}
use move_tutorial.Prelude.{
  ℕ, ◌+◌, ◌≡◌, refl, true, false, some, List, [], ◌∷◌, ok, err, panic, arith,
}
use move_tutorial.Gas.Algebra.{saturating, saturating-IsSaturating}
use move_tutorial.Gas.Views.{Shape, u64, vec_u8, struct_, ref_, nil, cons, shape_view, IsShaped}
use move_tutorial.Gas.Schedule.{initial, collect}
use move_tutorial.Gas.Params.{
  AptosGasParameters, NativeGasParameters, aptos_on_chain, natives_on_chain, initial_natives,
}
use move_tutorial.Gas.Params.Misc
use move_tutorial.Gas.Params.Txn
use move_tutorial.Gas.Params.Instr.Table
use move_tutorial.Gas.Params.Roundtrip.{mapped_natives, aptos-roundtrip}
use move_tutorial.Gas.Sizes.{
  fold_sizes, abstract_stack_size, abstract_heap_size, abstract_value_size_dereferenced,
}
use move_tutorial.Gas.Transaction.{
  StateKey, StorageGasParameters, WriteOp, creation, modification, deletion,
}
use move_tutorial.Gas.Meter.{AptosGasMeter, new, external_balance}
use move_tutorial.Gas.Meter.Charges
use move_tutorial.Gas.Meter.Values
use move_tutorial.Gas.Meter.Requests.{
  perform, perform_all, Request, copy_loc, pop, ld_const, pack, eq, call, call_generic,
  native_before_execution,
}
use move_tutorial.Gas.Meter.Effect.{IsValid}
use move_tutorial.Gas.Meter.Refinement.{perform-settle}
use move_tutorial.Gas.Meter.Start.{new-balance}

abbrev price : ℕ
price = 100

abbrev params : AptosGasParameters NativeGasParameters
params = record {
  misc = record { abs_val = initial Misc.table };
  instr = initial Table.table;
  txn = initial (Txn.table price);
  natives = initial_natives false;
}

-- All amounts of the natives are one, also those at paths that no row has.
abbrev ones : AptosGasParameters NativeGasParameters
ones = record params {
  natives = record { move_stdlib = λ x. 1; aptos_framework = λ x. 1; table = λ x. 1 };
}

-- The amounts of the vector natives have no row, and come back as zero.
unmapped : (mapped_natives false ones.natives).move_stdlib "vector.length.base" ≡ 0
unmapped = refl

aptos-roundtrip_example :
    let c = aptos_on_chain price (natives_on_chain false) in
    c.from (collect (c.to ones))
    ≡ some (record ones { natives = mapped_natives false ones.natives })
aptos-roundtrip_example = aptos-roundtrip price false ones

abbrev storage : StorageGasParameters
storage = record {
  per_item_read = 300000;
  per_item_create = 5000000;
  per_item_write = 300000;
  per_byte_read = 300;
  per_byte_create = 5000;
  per_byte_write = 5000;
}

abbrev meter : AptosGasMeter NativeGasParameters
meter = record {
  feature_version = 3;
  gas_params = params;
  storage_gas_params = some storage;
  balance = 10000000;
  memory_quota = 10000000;
  is_call_table = false;
}

new_test : new 3 params (some storage) 1000 ≡ some meter
unfolding new
new_test = refl

abbrev shape_of : Shape → Shape
shape_of x = x

shown : IsShaped shape_view shape_of
shown = record { visit_eq = λ v vis s. refl }

meter-IsValid : IsValid meter
meter-IsValid = record {
  configured = omega arith;
  balance_u64 = omega arith;
  quota_u64 = omega arith;
}

abbrev bytes : Shape
bytes = vec_u8 (7 ∷ 8 ∷ 9 ∷ [])

abbrev point : Shape
point = struct_ (cons bytes (cons (u64 5) nil))

new-balance_example : (external_balance meter ≡ 1000) × IsValid meter
new-balance_example =
    new-balance saturating-IsSaturating 3 params (some storage) 1000 meter (omega arith)
      (omega arith) new_test

-- 80 * 20 of base and 4 * 20 for each of the 43 units, of which 3 are on the heap.
perform-settle_example :
    perform 1 (copy_loc bytes) meter
    ≡ (ok tt, record meter { balance = 9994960; memory_quota = 9999997 })
perform-settle_example =
    perform-settle saturating-IsSaturating shown 1 meter meter-IsValid (copy_loc bytes) tt

abbrev session : List (Request Shape)
session = ld_const 3 ∷ pack false (bytes ∷ u64 5 ∷ []) ∷ eq point point ∷ []

session_test :
    perform_all 1 session meter
    ≡ (ok tt, record meter { balance = 9957220; memory_quota = 10000086 })
unfolding perform_all perform Charges.charge_ld_const Values.charge_pack Values.charge_eq fold_sizes
    abstract_stack_size abstract_heap_size abstract_value_size_dereferenced
session_test = refl

session_comparable : AreComparable shape_of session
session_comparable = (tt, (tt, (((tt, (tt, tt)), (tt, (tt, tt))), tt)))

-- A structure that holds a reference cannot be compared.
abbrev panicking : List (Request Shape)
panicking = copy_loc bytes ∷ eq (struct_ (cons (ref_ false (u64 1)) nil)) (u64 1) ∷ pop bytes ∷ []

panics : (perform_all 1 panicking meter).0 ≡ err panic
unfolding perform_all perform Values.charge_copy_loc Values.charge_eq abstract_stack_size
    abstract_heap_size abstract_value_size_stack_and_heap abstract_value_size_dereferenced
panics = refl

perform_all-IsAfter_example :
    IsAfter meter (perform_all 1 panicking meter).1 × IsValid (perform_all 1 panicking meter).1
perform_all-IsAfter_example =
    perform_all-IsAfter saturating-IsSaturating shown 1 panicking meter meter-IsValid

perform_all-EndsWell_example : EndsWell (perform_all 1 session meter)
perform_all-EndsWell_example =
    perform_all-EndsWell saturating-IsSaturating shown 1 session meter meter-IsValid
      session_comparable

abbrev after_session : AptosGasMeter NativeGasParameters
after_session = record meter { balance = 9957220; memory_quota = 10000086 }

perform_all-total_example : 9957220 + total_gas shape_of meter session ≡ 10000000
perform_all-total_example =
    perform_all-total saturating-IsSaturating shown 1 session meter after_session meter-IsValid
      session_comparable session_test

perform_all-granted_example :
    (m : AptosGasMeter NativeGasParameters) × (perform_all 1 session meter ≡ (ok tt, m))
perform_all-granted_example =
    perform_all-granted saturating-IsSaturating shown 1 session meter meter-IsValid
      session_comparable (omega arith) (omega arith)

-- A copy, dropped.
abbrev after_copy : AptosGasMeter NativeGasParameters
after_copy = record meter { balance = 9994160 }

copy_test : perform_all 1 (copy_loc bytes ∷ pop bytes ∷ []) meter ≡ (ok tt, after_copy)
unfolding perform_all perform Values.charge_copy_loc Values.charge_pop abstract_stack_size
    abstract_heap_size abstract_value_size_stack_and_heap
copy_test = refl

perform_all-Undoes_example : after_copy.memory_quota ≡ meter.memory_quota
perform_all-Undoes_example =
    perform_all-Undoes saturating-IsSaturating shown 1 (copy_loc bytes) (pop bytes) meter after_copy
      (pop_copy bytes) meter-IsValid copy_test

-- A table is read, and then a hash function without type arguments is called on three bytes.
abbrev table_module : ModuleId
table_module = record { address = 1; name = "table" }

abbrev after_native : AptosGasMeter NativeGasParameters
after_native = record meter { balance = 9950000; is_call_table = true }

abbrev table_then_native : List (Request Shape)
table_then_native =
    call_generic table_module 2 [] 1
    ∷ call (bytes ∷ []) 1
    ∷ native_before_execution (bytes ∷ [])
    ∷ []

native_test : perform_all 1 table_then_native meter ≡ (ok tt, after_native)
unfolding perform_all perform Values.charge_call_generic Values.charge_call
    Values.charge_native_function_before_execution
native_test = refl

native_after_table_example : after_native.memory_quota ≡ meter.memory_quota
native_after_table_example =
    native_after_table saturating-IsSaturating shown 1 table_module 2 1 1 [] (bytes ∷ [])
      (bytes ∷ []) meter after_native (refl, refl) meter-IsValid native_test

-- Keys are numbers, of 32 bytes.
instance abbrev number_key : StateKey ℕ
number_key = record { size = λ k. 32; encode = λ k. some (k ∷ []) }

abbrev encoded : ℕ → List ℕ
encoded k = k ∷ []

abbrev write_set : List (ℕ × WriteOp)
write_set = (1, creation (1 ∷ 2 ∷ [])) ∷ (2, modification (3 ∷ [])) ∷ (3, deletion) ∷ []

calculate_storage_gas-sum_example : calculate_storage_gas storage write_set 3 ≡ some 5300000
calculate_storage_gas-sum_example =
    calculate_storage_gas-sum saturating-IsSaturating encoded (λ k. refl) 3 storage write_set

heap_size-pack_example :
    (whole : ℕ) × (on_stack : ℕ) × (on_heap : ℕ) × (abstract_heap_size params.misc.abs_val point 3
      ≡ some whole)
    × (fold_sizes (λ v. abstract_stack_size params.misc.abs_val v 3) 0 (bytes ∷ u64 5 ∷ [])
        ≡ some on_stack)
    × (fold_sizes (λ v. abstract_heap_size params.misc.abs_val v 3) 0 (bytes ∷ u64 5 ∷ [])
        ≡ some on_heap)
    × (whole ≡ on_stack + on_heap)
heap_size-pack_example =
    heap_size-pack saturating-IsSaturating shown params.misc.abs_val 3 point (bytes ∷ u64 5 ∷ [])
      refl (omega arith)
