-- ===== src/Gas/Sizes/Spec.antt =====
-- The abstract sizes of aptos-gas/src/misc.rs as sums over the parts of a value, without visitors.
use move_tutorial.Prelude.{ℕ, ◌+◌, ◌-◌, ◌*◌, ◌≤◌, length, leb, if◌then◌else◌, arith}
use move_tutorial.Gas.Algebra.{clamp}
use move_tutorial.Gas.Views.{
  Shape, Shapes, u8, u64, u128, address, bool, vec_u8, vec_u64, vec_u128, vec_address, vec_bool,
  struct_, vec, ref_, nil, cons,
}
use move_tutorial.Gas.Params.Misc.{AbstractValueSizeGasParameters}

module _ (p : AbstractValueSizeGasParameters) (version : ℕ) where
  -- The header of a packed vector counts from version 3 on.
  abbrev pub packed_total : ℕ → ℕ → ℕ
  packed_total per_item len = per_item * len + (if leb 3 version then p.vector else 0)

  -- The memory of a value with all of its parts; a reference ends it.
  abbrev mutual
    pub total : Shape → ℕ
    total (u8 n) = p.u8
    total (u64 n) = p.u64
    total (u128 n) = p.u128
    total (address a) = p.address
    total (bool b) = p.bool
    total (vec_u8 ns) = packed_total p.per_u8_packed (length ns)
    total (vec_u64 ns) = packed_total p.per_u64_packed (length ns)
    total (vec_u128 ns) = packed_total p.per_u128_packed (length ns)
    total (vec_address ns) = packed_total p.per_address_packed (length ns)
    total (vec_bool bs) = packed_total p.per_bool_packed (length bs)
    total (struct_ xs) = p.struct_ + total_all xs
    total (vec xs) = p.vector + total_all xs
    total (ref_ g x) = p.reference

    pub total_all : Shapes → ℕ
    total_all nil = 0
    total_all (cons x xs) = total x + total_all xs

  abbrev header : ℕ
  header = if leb 3 version then p.vector else 0

  -- The part of a value that lies on the stack.
  abbrev pub stack : Shape → ℕ
  stack (u8 n) = p.u8
  stack (u64 n) = p.u64
  stack (u128 n) = p.u128
  stack (address a) = p.address
  stack (bool b) = p.bool
  stack (vec_u8 ns) = header
  stack (vec_u64 ns) = header
  stack (vec_u128 ns) = header
  stack (vec_address ns) = header
  stack (vec_bool bs) = header
  stack (struct_ xs) = p.struct_
  stack (vec xs) = p.vector
  stack (ref_ g x) = p.reference

-- What a value takes beside its part on the stack, in numbers of 64 bits.
abbrev pub heap : AbstractValueSizeGasParameters → ℕ → Shape → ℕ
heap p version x = clamp (total p version x) - stack p version x

-- The place that a value takes as an element of a vector.
abbrev pub packed : AbstractValueSizeGasParameters → Shape → ℕ
packed p (u8 n) = clamp p.per_u8_packed
packed p (u64 n) = clamp p.per_u64_packed
packed p (u128 n) = clamp p.per_u128_packed
packed p (address a) = clamp p.per_address_packed
packed p (bool b) = clamp p.per_bool_packed
packed p (vec_u8 ns) = p.vector
packed p (vec_u64 ns) = p.vector
packed p (vec_u128 ns) = p.vector
packed p (vec_address ns) = p.vector
packed p (vec_bool bs) = p.vector
packed p (struct_ xs) = p.struct_
packed p (vec xs) = p.vector
packed p (ref_ g x) = p.reference

module _ (p : AbstractValueSizeGasParameters) (version : ℕ) where
  pub stack-le-total : (x : Shape) → stack p version x ≤ total p version x
  stack-le-total (u8 n) = omega arith
  stack-le-total (u64 n) = omega arith
  stack-le-total (u128 n) = omega arith
  stack-le-total (address a) = omega arith
  stack-le-total (bool b) = omega arith
  stack-le-total (vec_u8 ns) = ground arith
  stack-le-total (vec_u64 ns) = ground arith
  stack-le-total (vec_u128 ns) = ground arith
  stack-le-total (vec_address ns) = ground arith
  stack-le-total (vec_bool bs) = ground arith
  stack-le-total (struct_ xs) = omega arith
  stack-le-total (vec xs) = omega arith
  stack-le-total (ref_ g x) = omega arith
