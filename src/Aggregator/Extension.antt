-- ===== src/Aggregator/Extension.antt =====
-- `Aggregator` of aptos-aggregator/src/aggregator_extension.rs: a sum that is known, or a delta
-- that remembers the largest and the smallest value it went through.
pub mod Refinement
use move_tutorial.Prelude.{
  ℕ, ◌≤◌, max, Bool, leb, if◌then◌else◌, Option, none, some, Result, ok, err, PartialVmError,
  PartialVmResult, vm_extension_error, Failure, raised, panic, lift, expect, ◌>>=◌, ◌>>◌,
}
use move_tutorial.Aggregator.Delta.{addition, subtraction}

-- `Data`, `PositiveDelta`, `NegativeDelta`.
pub data AggregatorState : Type 0 where
  known_data positive_delta negative_delta : AggregatorState

pub record History : Type 0 where
  pub max_positive : ℕ
  pub min_negative : ℕ

abbrev pub new_history : History
new_history = record { max_positive = 0; min_negative = 0 }

abbrev pub record_positive : History → ℕ → History
record_positive h value = record h { max_positive = max h.max_positive value }

abbrev pub record_negative : History → ℕ → History
record_negative h value = record h { min_negative = max h.min_negative value }

-- `value` and `limit` are `u128`.
pub record Aggregator : Type 0 where
  pub value : ℕ
  pub state : AggregatorState
  pub limit : ℕ
  pub history : Option History

abbrev pub record_in : AggregatorState → History → ℕ → Result Failure History
record_in positive_delta h value = ok (record_positive h value)
record_in negative_delta h value = ok (record_negative h value)
record_in known_data h value = err panic

-- The method `record`.
abbrev pub record_history : Aggregator → Result Failure Aggregator
record_history a = elim a.history [
  | none ↦ ok a
  | some h ↦ do h' ← record_in a.state h a.value; ok (record a { history = some h' })
]

abbrev pub add_in : AggregatorState → Aggregator → ℕ → Result Failure Aggregator
add_in known_data a value = do
  v ← lift (addition a.value value a.limit)
  ok (record a { value = v })
add_in positive_delta a value = do
  v ← lift (addition a.value value a.limit)
  record_history (record a { value = v })
add_in negative_delta a value =
    if leb a.value value
    then (do
      v ← lift (subtraction value a.value)
      record_history (record a { value = v; state = positive_delta }))
    else (do v ← lift (subtraction a.value value); record_history (record a { value = v }))

-- A call that fails leaves the aggregator as it was.
unfoldable pub add : Aggregator → ℕ → Result Failure Aggregator
unfolding addition subtraction
add a value = add_in a.state a value

abbrev pub sub_in : AggregatorState → Aggregator → ℕ → Result Failure Aggregator
sub_in known_data a value = do v ← lift (subtraction a.value value); ok (record a { value = v })
sub_in positive_delta a value =
    if leb value a.value
    then (do v ← lift (subtraction a.value value); record_history (record a { value = v }))
    else (do
      lift (subtraction a.limit value)
      v ← lift (subtraction value a.value)
      record_history (record a { value = v; state = negative_delta }))
sub_in negative_delta a value = do
  v ← lift (addition a.value value a.limit)
  record_history (record a { value = v })

unfoldable pub sub : Aggregator → ℕ → Result Failure Aggregator
unfolding addition subtraction
sub a value = sub_in a.state a value

abbrev pub extension_error : PartialVmError
extension_error = record { status = vm_extension_error; sub_status = none }

-- `match self.state` of `read_and_materialize`.
abbrev pub apply_delta : AggregatorState → Aggregator → ℕ → Result Failure ℕ
apply_delta positive_delta a stored = lift (addition stored a.value a.limit)
apply_delta negative_delta a stored = lift (subtraction stored a.value)
apply_delta known_data a stored = err panic

-- The closure of `read_and_materialize`: the value from storage is there.
unfoldable pub materialize : Aggregator → ℕ → Result Failure (ℕ × Aggregator)
unfolding addition subtraction
materialize a stored = do
  history ← expect a.history
  lift (addition stored history.max_positive a.limit)
  lift (subtraction stored history.min_negative)
  v ← apply_delta a.state a stored
  ok (v, record a { value = v; state = known_data; history = none })

-- What the table resolver and `bcs` do: an entry may be missing, the look-up may fail (`err`), and
-- bytes that hold no `u128` make `deserialize` panic (`none`).
pub record Storage (Ident : Type 0) : Type 1 where
  pub Bytes : Type 0
  pub ResolveError : Type 0
  pub resolve_table_entry : Ident → Result ResolveError (Option Bytes)
  pub deserialize : Bytes → Option ℕ

abbrev pub read_entry : {Ident : Type 0} (s : Storage Ident) → Ident → Result Failure ℕ
read_entry s id = elim (s.resolve_table_entry id) [
  | err e ↦ err (raised extension_error)
  | ok none ↦ err (raised extension_error)
  | ok (some bytes) ↦ expect (s.deserialize bytes)
]

abbrev pub read_in :
    {Ident : Type 0}
    → AggregatorState
    → Storage Ident
    → Aggregator
    → Ident
    → Result Failure (ℕ × Aggregator)
read_in known_data s a id = ok (a.value, a)
read_in positive_delta s a id = do stored ← read_entry s id; materialize a stored
read_in negative_delta s a id = do stored ← read_entry s id; materialize a stored

-- The value, and the aggregator that now knows it.
unfoldable pub read_and_materialize :
    {Ident : Type 0} → Storage Ident → Aggregator → Ident → Result Failure (ℕ × Aggregator)
read_and_materialize s a id = read_in a.state s a id
