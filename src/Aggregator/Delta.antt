-- ===== src/Aggregator/Delta.antt =====
-- `DeltaOp` of aptos-aggregator/src/delta_change_set.rs: a partial function on a `u128`, with the
-- extreme values that were seen while the delta was built.
pub mod Apply
pub mod Merge
use move_tutorial.Prelude.{
  ℕ, ◌-◌, max, Option, none, some, ◌||◌, ltb, leb, add_u128, if◌then◌else◌, Result, ok, err,
  PartialVmError, PartialVmResult, aborted, ◌>>=◌, ◌>>◌, unwrap_or,
}

-- When `addition` overflows the limit.
abbrev pub eadd_overflow : ℕ
eadd_overflow = 0x02_0001

-- When `subtraction` goes below zero.
abbrev pub esub_underflow : ℕ
esub_underflow = 0x02_0002

pub data DeltaUpdate : Type 0 where
  plus : ℕ → DeltaUpdate
  minus : ℕ → DeltaUpdate

-- Every number is a `u128`.
pub record DeltaOp : Type 0 where
  pub max_positive : ℕ
  pub min_negative : ℕ
  pub limit : ℕ
  pub update : DeltaUpdate

abbrev pub abort_error : ℕ → PartialVmError
abort_error code = record { status = aborted; sub_status = some code }

-- The second test is reached only if `limit` is not below `base`.
unfoldable pub addition : ℕ → ℕ → ℕ → PartialVmResult ℕ
addition base value limit =
    if ltb limit base || ltb (limit - base) value
    then err (abort_error eadd_overflow)
    else ok (add_u128 base value)

unfoldable pub subtraction : ℕ → ℕ → PartialVmResult ℕ
subtraction base value =
    if ltb base value then err (abort_error esub_underflow) else ok (base - value)

-- `DeltaOp::new`.
abbrev pub new : DeltaUpdate → ℕ → ℕ → ℕ → DeltaOp
new update limit max_positive min_negative = record {
  max_positive = max_positive;
  min_negative = min_negative;
  limit = limit;
  update = update;
}

abbrev pub delta_add : ℕ → ℕ → DeltaOp
delta_add v limit = new (plus v) limit v 0

abbrev pub delta_sub : ℕ → ℕ → DeltaOp
delta_sub v limit = new (minus v) limit 0 v

abbrev pub apply_update : DeltaUpdate → ℕ → ℕ → PartialVmResult ℕ
apply_update (plus value) limit base = addition base value limit
apply_update (minus value) limit base = subtraction base value

unfoldable pub apply_to : DeltaOp → ℕ → PartialVmResult ℕ
unfolding addition subtraction
apply_to d base = do
  addition base d.max_positive d.limit
  subtraction base d.min_negative
  apply_update d.update d.limit base

-- The first two arguments are those of `self`; the last is the update of `delta`.
abbrev pub shift_max : ℕ → ℕ → DeltaUpdate → PartialVmResult ℕ
shift_max max_positive limit (plus value) = addition value max_positive limit
shift_max max_positive limit (minus value) = ok (unwrap_or (subtraction max_positive value) 0)

unfoldable pub shifted_max_positive_by : DeltaOp → DeltaOp → PartialVmResult ℕ
unfolding addition subtraction
shifted_max_positive_by self delta = shift_max self.max_positive self.limit delta.update

abbrev pub shift_min : ℕ → ℕ → DeltaUpdate → PartialVmResult ℕ
shift_min min_negative limit (plus value) = ok (unwrap_or (subtraction min_negative value) 0)
shift_min min_negative limit (minus value) = addition value min_negative limit

unfoldable pub shifted_min_negative_by : DeltaOp → DeltaOp → PartialVmResult ℕ
unfolding addition subtraction
shifted_min_negative_by self delta = shift_min self.min_negative self.limit delta.update

-- `update_different_sign!`: +a and -b.
abbrev pub update_different_sign : ℕ → ℕ → PartialVmResult DeltaUpdate
update_different_sign a b =
    if leb b a
    then (do v ← subtraction a b; ok (plus v))
    else (do v ← subtraction b a; ok (minus v))

-- The nested match of `merge_onto`: the update of `previous_delta`, then that of `self`.
abbrev pub merge_updates : ℕ → DeltaUpdate → DeltaUpdate → PartialVmResult DeltaUpdate
merge_updates limit (plus prev) (plus self) = do v ← addition prev self limit; ok (plus v)
merge_updates limit (plus prev) (minus self) = update_different_sign prev self
merge_updates limit (minus prev) (plus self) = update_different_sign self prev
merge_updates limit (minus prev) (minus self) = do v ← addition prev self limit; ok (minus v)

-- The new value of `self`. Where the source fails it leaves `self` as it was.
unfoldable pub merge_onto : DeltaOp → DeltaOp → PartialVmResult DeltaOp
unfolding addition subtraction shifted_max_positive_by shifted_min_negative_by
merge_onto self previous = do
  shifted_max ← shifted_max_positive_by self previous
  shifted_min ← shifted_min_negative_by self previous
  update ← merge_updates self.limit previous.update self.update
  ok (record self {
    max_positive = max previous.max_positive shifted_max;
    min_negative = max previous.min_negative shifted_min;
    update = update;
  })
