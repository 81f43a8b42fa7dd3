-- ===== src/Gas/Sizes.antt =====
-- The abstract sizes of aptos-gas/src/misc.rs: how much memory a value takes on the stack and on the
-- heap, found by visitors.
pub mod Spec
pub mod Visits
pub mod Pack
pub mod Deref
use move_tutorial.Prelude.{
  ℕ, ◌-◌, Bool, true, false, List, [], ◌∷◌, length, Option, none, some, leb, ltb, ◌==◌,
  if◌then◌else◌,
}
use move_tutorial.Prelude.Options.{◌>>=◌}
use move_tutorial.Gas.Algebra.{GasAlgebra, ◌⊕◌, ◌⊗◌, or_zero}
use move_tutorial.Gas.Views.{ValueVisitor, ValueView}
use move_tutorial.Gas.Params.Misc.{AbstractValueSizeGasParameters}

-- `DerefVisitor`. Its state is none once the code has panicked, by the assertion in `visit_ref` or by
-- a depth that is below the offset.
pub record DerefVisitor (S : Type 0) : Type 0 where
  pub inner : S
  pub offset : ℕ

-- `depth - self.offset`.
abbrev pub sub_offset : ℕ → ℕ → Option ℕ
sub_offset depth offset = if ltb depth offset then none else some (depth - offset)

module _ {S : Type 0} where
  -- `DerefVisitor::new`.
  abbrev pub new_deref : S → DerefVisitor S
  new_deref inner = record { inner = inner; offset = 0 }

  -- `deref_visitor_delegate_simple`.
  abbrev pub delegate : (ℕ → S → S) → ℕ → Option (DerefVisitor S) → Option (DerefVisitor S)
  delegate f depth state = do
    self ← state
    depth' ← sub_offset depth self.offset
    some (record self { inner = f depth' self.inner })

  abbrev pub answered : Option (DerefVisitor S × Bool) → Option (DerefVisitor S) × Bool
  answered none = (none, false)
  answered (some (self, deeper)) = (some self, deeper)

  abbrev pub delegate_part :
      (ℕ → S → S × Bool) → ℕ → Option (DerefVisitor S) → Option (DerefVisitor S) × Bool
  delegate_part f depth state = answered (do
    self ← state
    depth' ← sub_offset depth self.offset
    let (inner, deeper) = f depth' self.inner
    some (record self { inner = inner }, deeper))

  abbrev pub deref_ref : ℕ → Option (DerefVisitor S) → Option (DerefVisitor S) × Bool
  deref_ref depth state =
      answered
        (do self ← state; if depth == 0 then some (record self { offset = 1 }, true) else none)

  abbrev pub deref_visitor : ValueVisitor S → ValueVisitor (Option (DerefVisitor S))
  deref_visitor v = record {
    visit_u8 = λ depth val. delegate (λ d. v.visit_u8 d val) depth;
    visit_u64 = λ depth val. delegate (λ d. v.visit_u64 d val) depth;
    visit_u128 = λ depth val. delegate (λ d. v.visit_u128 d val) depth;
    visit_bool = λ depth val. delegate (λ d. v.visit_bool d val) depth;
    visit_address = λ depth val. delegate (λ d. v.visit_address d val) depth;
    visit_vec_u8 = λ depth vals. delegate (λ d. v.visit_vec_u8 d vals) depth;
    visit_vec_u64 = λ depth vals. delegate (λ d. v.visit_vec_u64 d vals) depth;
    visit_vec_u128 = λ depth vals. delegate (λ d. v.visit_vec_u128 d vals) depth;
    visit_vec_bool = λ depth vals. delegate (λ d. v.visit_vec_bool d vals) depth;
    visit_vec_address = λ depth vals. delegate (λ d. v.visit_vec_address d vals) depth;
    visit_struct = λ depth len. delegate_part (λ d. v.visit_struct d len) depth;
    visit_vec = λ depth len. delegate_part (λ d. v.visit_vec d len) depth;
    visit_ref = λ depth is_global. deref_ref depth;
  }

module _ ⦃G : GasAlgebra⦄ (params : AbstractValueSizeGasParameters) (feature_version : ℕ) where
  -- The size of a vector that is packed, in the methods `visit_vec_u8` and the like.
  abbrev pub packed_vec : ℕ → ℕ → ℕ
  packed_vec per_item len =
      let size = per_item ⊗ len in if leb 3 feature_version then size ⊕ params.vector else size

  -- `AbstractValueSizeVisitor`: its state is the size so far.
  abbrev pub size_visitor : ValueVisitor ℕ
  size_visitor = record {
    visit_u8 = λ depth val size. size ⊕ params.u8;
    visit_u64 = λ depth val size. size ⊕ params.u64;
    visit_u128 = λ depth val size. size ⊕ params.u128;
    visit_bool = λ depth val size. size ⊕ params.bool;
    visit_address = λ depth val size. size ⊕ params.address;
    visit_struct = λ depth len size. (size ⊕ params.struct_, true);
    visit_vec = λ depth len size. (size ⊕ params.vector, true);
    visit_vec_u8 = λ depth vals size. size ⊕ packed_vec params.per_u8_packed (length vals);
    visit_vec_u64 = λ depth vals size. size ⊕ packed_vec params.per_u64_packed (length vals);
    visit_vec_u128 = λ depth vals size. size ⊕ packed_vec params.per_u128_packed (length vals);
    visit_vec_bool = λ depth vals size. size ⊕ packed_vec params.per_bool_packed (length vals);
    visit_vec_address =
        λ depth vals size. size ⊕ packed_vec params.per_address_packed (length vals);
    visit_ref = λ depth is_global size. (size ⊕ params.reference, false);
  }

  abbrev pub stack_vec : Option ℕ
  stack_vec = if ltb feature_version 3 then some 0 else some params.vector

  -- The visitor of `abstract_stack_size`: its state is the field `res`.
  abbrev pub stack_visitor : ValueVisitor (Option ℕ)
  stack_visitor = record {
    visit_u8 = λ depth val res. some params.u8;
    visit_u64 = λ depth val res. some params.u64;
    visit_u128 = λ depth val res. some params.u128;
    visit_bool = λ depth val res. some params.bool;
    visit_address = λ depth val res. some params.address;
    visit_struct = λ depth len res. (some params.struct_, false);
    visit_vec = λ depth len res. (some params.vector, false);
    visit_vec_u8 = λ depth vals res. stack_vec;
    visit_vec_u64 = λ depth vals res. stack_vec;
    visit_vec_u128 = λ depth vals res. stack_vec;
    visit_vec_bool = λ depth vals res. stack_vec;
    visit_vec_address = λ depth vals res. stack_vec;
    visit_ref = λ depth is_global res. (some params.reference, false);
  }

module _ ⦃G : GasAlgebra⦄ (params : AbstractValueSizeGasParameters) where
  -- The visitor of `abstract_packed_size`.
  abbrev pub packed_visitor : ValueVisitor (Option ℕ)
  packed_visitor = record {
    visit_u8 = λ depth val res. some (params.per_u8_packed ⊗ 1);
    visit_u64 = λ depth val res. some (params.per_u64_packed ⊗ 1);
    visit_u128 = λ depth val res. some (params.per_u128_packed ⊗ 1);
    visit_bool = λ depth val res. some (params.per_bool_packed ⊗ 1);
    visit_address = λ depth val res. some (params.per_address_packed ⊗ 1);
    visit_struct = λ depth len res. (some params.struct_, false);
    visit_vec = λ depth len res. (some params.vector, false);
    visit_vec_u8 = λ depth vals res. some params.vector;
    visit_vec_u64 = λ depth vals res. some params.vector;
    visit_vec_u128 = λ depth vals res. some params.vector;
    visit_vec_bool = λ depth vals res. some params.vector;
    visit_vec_address = λ depth vals res. some params.vector;
    visit_ref = λ depth is_global res. (some params.reference, false);
  }

-- A result of none is a panic: the value showed nothing to the visitor.
module _ {V : Type 0} ⦃G : GasAlgebra⦄ ⦃W : ValueView V⦄
    (params : AbstractValueSizeGasParameters) where
  unfoldable pub abstract_value_size : V → ℕ → ℕ
  abstract_value_size val feature_version = W.visit val (size_visitor params feature_version) 0

  unfoldable pub abstract_value_size_dereferenced : V → ℕ → Option ℕ
  abstract_value_size_dereferenced val feature_version = do
    visitor ← W.visit val (deref_visitor (size_visitor params feature_version)) (some (new_deref 0))
    some visitor.inner

  unfoldable pub abstract_stack_size : V → ℕ → Option ℕ
  abstract_stack_size val feature_version = W.visit val (stack_visitor params feature_version) none

  unfoldable pub abstract_packed_size : V → Option ℕ
  abstract_packed_size val = W.visit val (packed_visitor params) none

  unfoldable pub abstract_value_size_stack_and_heap : V → ℕ → Option (ℕ × ℕ)
  unfolding abstract_stack_size abstract_value_size
  abstract_value_size_stack_and_heap val feature_version = do
    stack_size ← abstract_stack_size val feature_version
    let abs_size = abstract_value_size val feature_version
    let heap_size = or_zero (G.checked_sub abs_size stack_size)
    some (stack_size, heap_size)

  unfoldable pub abstract_heap_size : V → ℕ → Option ℕ
  unfolding abstract_stack_size abstract_value_size
  abstract_heap_size val feature_version = do
    stack_size ← abstract_stack_size val feature_version
    let abs_size = abstract_value_size val feature_version
    some (or_zero (G.checked_sub abs_size stack_size))

-- `fold(AbstractValueSize::zero(), |acc, val| acc + size(val))`.
unfoldable pub fold_sizes : {V : Type 0} ⦃G : GasAlgebra⦄ → (V → Option ℕ) → ℕ → List V → Option ℕ
fold_sizes f acc [] = some acc
fold_sizes f acc (val ∷ vals) = do size ← f val; fold_sizes f (acc ⊕ size) vals
