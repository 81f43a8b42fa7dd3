-- ===== src/Executor/LastInputOutput.antt =====
-- parallel-executor/src/txn_last_input_output.rs: what each transaction read and wrote when it was
-- last executed, and the modules that any execution read or wrote. `none` is a panic.
pub mod Race
use mathlib.Core.List.{filter_map}
use move_tutorial.Prelude.{
  ℕ, ◌≡◌, Bool, true, false, ◌&&◌, ◌==◌, ltb, if◌then◌else◌, Option, none, some, List, [], ◌∷◌,
  ◌++◌, map, length, get_elem?, set, replicate,
}
use move_tutorial.Prelude.Options.{◌>>=◌}
use move_tutorial.Prelude.Map.{Key, Map, lookup, insert}
use move_tutorial.Aggregator.Delta.{DeltaOp, DeltaUpdate, plus, minus}
use move_tutorial.Scheduler.{TxnIndex, Incarnation, Version}
use move_tutorial.Executor.{
  ExecutionStatus, success, abort, skip_rest, Error, ModulePath, TransactionOutput,
}

pub data ReadKind : Type 0 where
  version : TxnIndex → Incarnation → ReadKind
  resolved : ℕ → ReadKind
  unresolved : DeltaOp → ReadKind
  storage delta_application_failure : ReadKind

pub record ReadDescriptor (K : Type 0) : Type 0 where
  pub access_path : K
  pub kind : ReadKind

-- The derived equality of `DeltaUpdate`, `DeltaOp` and `ReadKind`.
abbrev pub update_beq : DeltaUpdate → DeltaUpdate → Bool
update_beq (plus a) (plus b) = a == b
update_beq (minus a) (minus b) = a == b
update_beq _ _ = false

abbrev pub delta_beq : DeltaOp → DeltaOp → Bool
delta_beq a b =
    a.max_positive == b.max_positive
    && (a.min_negative == b.min_negative && (a.limit == b.limit && update_beq a.update b.update))

abbrev pub kind_beq : ReadKind → ReadKind → Bool
kind_beq (version i n) (version j m) = i == j && n == m
kind_beq (resolved a) (resolved b) = a == b
kind_beq (unresolved a) (unresolved b) = delta_beq a b
kind_beq storage storage = true
kind_beq delta_application_failure delta_application_failure = true
kind_beq _ _ = false

module _ {K : Type 0} where
  abbrev pub validate_version : ReadDescriptor K → Version → Bool
  validate_version d (txn_idx, incarnation) = kind_beq d.kind (version txn_idx incarnation)

  abbrev pub validate_resolved : ReadDescriptor K → ℕ → Bool
  validate_resolved d value = kind_beq d.kind (resolved value)

  abbrev pub validate_unresolved : ReadDescriptor K → DeltaOp → Bool
  validate_unresolved d delta = kind_beq d.kind (unresolved delta)

  abbrev pub validate_storage : ReadDescriptor K → Bool
  validate_storage d = kind_beq d.kind storage

  abbrev pub validate_delta_application_failure : ReadDescriptor K → Bool
  validate_delta_application_failure d = kind_beq d.kind delta_application_failure

-- A set is a map to `Unit`.
abbrev pub Set : Type 0 → Type 0
Set A = Map A (Unit {0})

pub record TxnLastInputOutput (K T E P : Type 0) : Type 0 where
  pub inputs : List (Option (List (ReadDescriptor K)))
  pub outputs : List (Option (ExecutionStatus T (Error E)))
  pub module_writes : Set P
  pub module_reads : Set P
  pub module_read_write_intersection : Bool

abbrev pub new : {K T E P : Type 0} → ℕ → TxnLastInputOutput K T E P
new num_txns = record {
  inputs = replicate num_txns none;
  outputs = replicate num_txns none;
  module_writes = [];
  module_reads = [];
  module_read_write_intersection = false;
}

-- Whether a path was in `set_to_check`, and what `set_to_append` holds then.
unfoldable pub append_and_check : {P : Type 0} ⦃p : Key P⦄ → List P → Set P → Set P → Bool × Set P
append_and_check [] set_to_append set_to_check = (false, set_to_append)
append_and_check (path ∷ paths) set_to_append set_to_check =
    let appended = insert path tt set_to_append in
    let rest = append_and_check paths appended set_to_check in
    elim (lookup path set_to_check) [ some _ ↦ (true, appended) | none ↦ rest ]

-- A store at an index: out of range it panics.
abbrev pub store {ℓ} : {A : Type ℓ} → List (Option A) → ℕ → A → Option (List (Option A))
store xs i a = if ltb i (length xs) then some (set xs i (some a)) else none

abbrev pub read_modules : {K P : Type 0} → ModulePath K P → List (ReadDescriptor K) → List P
read_modules path input = filter_map (λ d. path.module_path d.access_path) input

module _ {K V T E P : Type 0} ⦃p : Key P⦄ (path : ModulePath K P)
    (out : TransactionOutput K V T) where
  abbrev pub written_modules : ExecutionStatus T (Error E) → List P
  written_modules (success output) = filter_map (λ w. path.module_path w.0) (out.get_writes output)
  written_modules (skip_rest output) =
      filter_map (λ w. path.module_path w.0) (out.get_writes output)
  written_modules (abort _) = []

  -- The branches of `||`: the written modules are looked at only if the read ones met no written
  -- one.
  abbrev pub check_written :
      TxnLastInputOutput K T E P → List P → Bool × Set P → TxnLastInputOutput K T E P
  check_written s written (true, reads) = record s {
    module_reads = reads;
    module_read_write_intersection = true;
  }
  check_written s written (false, reads) =
      let (meets, writes) = append_and_check written s.module_writes reads in
      record s {
        module_reads = reads;
        module_writes = writes;
        module_read_write_intersection = meets;
      }

  unfoldable pub check_modules :
      TxnLastInputOutput K T E P → List P → List P → TxnLastInputOutput K T E P
  unfolding append_and_check
  check_modules s read written =
      if s.module_read_write_intersection
      then s
      else check_written s written (append_and_check read s.module_reads s.module_writes)

  -- The method `record`.
  unfoldable pub record_execution :
      TxnLastInputOutput K T E P
      → TxnIndex
      → List (ReadDescriptor K)
      → ExecutionStatus T (Error E)
      → Option (TxnLastInputOutput K T E P)
  unfolding check_modules
  record_execution s txn_idx input output = do
    let s' = check_modules s (read_modules path input) (written_modules output)
    inputs ← store s'.inputs txn_idx input
    outputs ← store s'.outputs txn_idx output
    some (record s' { inputs = inputs; outputs = outputs })

-- `collect` into a set.
abbrev pub collect {ℓ} : {A : Type ℓ} {K : Type 0} ⦃k : Key K⦄ → List (K × A) → Set K → Set K
collect [] keys = keys
collect ((key, _) ∷ rest) keys = collect rest (insert key tt keys)

abbrev pub keys_of :
    {K V T E : Type 0} ⦃k : Key K⦄
    → TransactionOutput K V T
    → Option (ExecutionStatus T (Error E))
    → Set K
keys_of out none = []
keys_of out (some (abort _)) = []
keys_of out (some (success t)) = collect (out.get_deltas t) (collect (out.get_writes t) [])
keys_of out (some (skip_rest t)) = collect (out.get_deltas t) (collect (out.get_writes t) [])

unfoldable pub modified_keys :
    {K V T E P : Type 0} ⦃k : Key K⦄
    → TransactionOutput K V T
    → TxnLastInputOutput K T E P
    → TxnIndex
    → Option (Set K)
modified_keys out s txn_idx = do output ← get_elem? s.outputs txn_idx; some (keys_of out output)

-- The output, which must be there, and the state without it.
unfoldable pub take_output :
    {K T E P : Type 0}
    → TxnLastInputOutput K T E P
    → TxnIndex
    → Option (ExecutionStatus T (Error E) × TxnLastInputOutput K T E P)
take_output s txn_idx = do
  stored ← get_elem? s.outputs txn_idx
  output ← stored
  some (output, record s { outputs = set s.outputs txn_idx none })
