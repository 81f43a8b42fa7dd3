-- ===== src/Gas/Transaction/WriteSet.antt =====
-- The gas of a write set in aptos-gas/src/transaction.rs, as a sum over its operations.
use native.Mathlib.Nat.{add-mul}
use move_tutorial.Prelude.{
  sum_by, ℕ, ◌+◌, ◌-◌, ◌*◌, ◌≤◌, ◌≡◌, refl, ap, ◌∙◌, some, List, [], ◌∷◌, length, ltb,
  if◌then◌else◌, arith, Bool-cases, inl, inr,
}
use move_tutorial.Gas.Algebra.{GasAlgebra, IsSaturating, clamp, u64_max, or_zero, ◌⊕◌, ◌⊗◌}
use move_tutorial.Gas.Algebra.Laws.{product, cut_sum}
use move_tutorial.Gas.Transaction.{
  StateKey, WriteOp, creation, modification, deletion, StorageGasParameters, StorageCounts,
  write_op_size, count_storage, count_all_storage, calculate_storage_gas, no_storage_counts,
}

module _ {K : Type 0} ⦃E : StateKey K⦄ (encoded : K → List ℕ) (version : ℕ) where
  -- The bytes of an item that are paid for: from version 3 on the first 1024 are free.
  abbrev pub op_bytes : K → List ℕ → ℕ
  op_bytes key value =
      if ltb 2 version
      then clamp (E.size key + length value) - 1024
      else clamp (length (encoded key) + length value)

  abbrev created : K × WriteOp → ℕ
  created (key, creation value) = 1
  created (key, modification value) = 0
  created (key, deletion) = 0

  abbrev written : K × WriteOp → ℕ
  written (key, creation value) = 0
  written (key, modification value) = 1
  written (key, deletion) = 0

  abbrev bytes_created : K × WriteOp → ℕ
  bytes_created (key, creation value) = op_bytes key value
  bytes_created (key, modification value) = 0
  bytes_created (key, deletion) = 0

  abbrev bytes_written : K × WriteOp → ℕ
  bytes_written (key, creation value) = 0
  bytes_written (key, modification value) = op_bytes key value
  bytes_written (key, deletion) = 0

  -- The price of one operation.
  abbrev pub op_gas : StorageGasParameters → K × WriteOp → ℕ
  op_gas p (key, creation value) = p.per_item_create + op_bytes key value * p.per_byte_create
  op_gas p (key, modification value) = p.per_item_write + op_bytes key value * p.per_byte_write
  op_gas p (key, deletion) = 0

  abbrev added : StorageCounts → List (K × WriteOp) → StorageCounts
  added c ops = record {
    num_items_create = clamp (c.num_items_create + sum_by created ops);
    num_items_write = clamp (c.num_items_write + sum_by written ops);
    num_bytes_create = clamp (c.num_bytes_create + sum_by bytes_created ops);
    num_bytes_write = clamp (c.num_bytes_write + sum_by bytes_written ops);
  }

abbrev counts : ℕ → ℕ → ℕ → ℕ → StorageCounts
counts a b c d = record {
  num_items_create = a;
  num_items_write = b;
  num_bytes_create = c;
  num_bytes_write = d;
}

counts_eq :
    (a a' b b' c c' d d' : ℕ)
    → a ≡ a'
    → b ≡ b'
    → c ≡ c'
    → d ≡ d'
    → counts a b c d ≡ counts a' b' c' d'
counts_eq a a' b b' c c' d d' e f g h = rw (e, f, g, h) refl

pub record IsU64 (c : StorageCounts) : Type 0 where
  pub items_create : c.num_items_create ≤ u64_max
  pub items_write : c.num_items_write ≤ u64_max
  pub bytes_create : c.num_bytes_create ≤ u64_max
  pub bytes_write : c.num_bytes_write ≤ u64_max

module _ {K : Type 0} ⦃G : GasAlgebra⦄ ⦃E : StateKey K⦄ (law : IsSaturating G)
    (encoded : K → List ℕ) (encodes : (k : K) → E.encode k ≡ some (encoded k)) (version : ℕ) where
  monus_or_zero : (a b : ℕ) → or_zero (G.checked_sub a b) ≡ a - b
  monus_or_zero a b = rw (law.checked_sub_eq a b) ground arith

  write_op_size-bytes :
      (key : K) (value : List ℕ)
      → write_op_size key value version ≡ some (op_bytes encoded version key value)
  unfolding write_op_size
  write_op_size-bytes key value = elim (Bool-cases (ltb 2 version)) [
    | inl e ↦ rw (e, law.plus_eq (E.size key) (length value)) (ap some (monus_or_zero _ 1024))
    | inr e ↦ rw (e, encodes key) (ap some (law.plus_eq (length (encoded key)) (length value)))
  ]

  count_all-added :
      (ops : List (K × WriteOp)) (c : StorageCounts)
      → IsU64 c
      → count_all_storage version ops c ≡ some (added encoded version c ops)
  unfolding count_all_storage count_storage
  count_all-added [] c h =
      let a = h.items_create in
      let b = h.items_write in
      let d = h.bytes_create in
      let e = h.bytes_write in
      ap some (counts_eq _ _ _ _ _ _ _ _ (omega arith) (omega arith) (omega arith) (omega arith))
  count_all-added ((key, creation value) ∷ ops) c h =
      let n = op_bytes encoded version key value in
      let c' =
        counts (clamp (c.num_items_create + 1)) c.num_items_write (clamp (c.num_bytes_create + n))
          c.num_bytes_write in
      let rest = count_all-added ops c' (record {
        items_create = omega arith;
        items_write = h.items_write;
        bytes_create = omega arith;
        bytes_write = h.bytes_write;
      }) in
      rw
        (
          write_op_size-bytes key value,
          law.plus_eq c.num_items_create 1,
          law.plus_eq c.num_bytes_create n,
        )
        (rest
          ∙ ap some
              (counts_eq _ _ _ _ _ _ _ _ (omega arith) (omega arith) (omega arith) (omega arith)))
  count_all-added ((key, modification value) ∷ ops) c h =
      let n = op_bytes encoded version key value in
      let c' =
        counts c.num_items_create (clamp (c.num_items_write + 1)) c.num_bytes_create
          (clamp (c.num_bytes_write + n)) in
      let rest = count_all-added ops c' (record {
        items_create = h.items_create;
        items_write = omega arith;
        bytes_create = h.bytes_create;
        bytes_write = omega arith;
      }) in
      rw
        (
          write_op_size-bytes key value,
          law.plus_eq c.num_items_write 1,
          law.plus_eq c.num_bytes_write n,
        )
        (rest
          ∙ ap some
              (counts_eq _ _ _ _ _ _ _ _ (omega arith) (omega arith) (omega arith) (omega arith)))
  count_all-added ((key, deletion) ∷ ops) c h =
      count_all-added ops c h
      ∙ ap some (counts_eq _ _ _ _ _ _ _ _ (omega arith) (omega arith) (omega arith) (omega arith))

  count_all-total :
      (ops : List (K × WriteOp))
      → count_all_storage version ops no_storage_counts
        ≡ some (
            counts
              (clamp (sum_by (created encoded version) ops))
              (clamp (sum_by (written encoded version) ops))
              (clamp (sum_by (bytes_created encoded version) ops))
              (clamp (sum_by (bytes_written encoded version) ops)))
  count_all-total ops =
      let start : IsU64 no_storage_counts = record {
        items_create = omega arith;
        items_write = omega arith;
        bytes_create = omega arith;
        bytes_write = omega arith;
      } in
      count_all-added ops no_storage_counts start
      ∙ ap some (counts_eq _ _ _ _ _ _ _ _ (omega arith) (omega arith) (omega arith) (omega arith))

  -- The four products of the totals are the sum of the prices.
  priced :
      (p : StorageGasParameters) (ops : List (K × WriteOp))
      → sum_by (created encoded version) ops * p.per_item_create
          + sum_by (written encoded version) ops * p.per_item_write
          + sum_by (bytes_created encoded version) ops * p.per_byte_create
          + sum_by (bytes_written encoded version) ops * p.per_byte_write
        ≡ sum_by (op_gas encoded version p) ops
  priced p [] = omega arith
  priced p ((key, creation value) ∷ ops) =
      let n = op_bytes encoded version key value in
      omega (
        arith,
        priced p ops,
        add-mul 1 (sum_by (created encoded version) ops) p.per_item_create,
        add-mul n (sum_by (bytes_created encoded version) ops) p.per_byte_create,
      )
  priced p ((key, modification value) ∷ ops) =
      let n = op_bytes encoded version key value in
      omega (
        arith,
        priced p ops,
        add-mul 1 (sum_by (written encoded version) ops) p.per_item_write,
        add-mul n (sum_by (bytes_written encoded version) ops) p.per_byte_write,
      )
  priced p ((key, deletion) ∷ ops) = omega (arith, priced p ops)

  sum_of_products :
      (a b c d p q r s : ℕ)
      → clamp a ⊗ p ⊕ clamp b ⊗ q ⊕ clamp c ⊗ r ⊕ clamp d ⊗ s
        ≡ clamp (a * p + b * q + c * r + d * s)
  sum_of_products a b c d p q r s =
      rw (product law a p, product law b q, product law c r, product law d s) rw
        (cut_sum law (a * p) (b * q), cut_sum law (a * p + b * q) (c * r))
        (cut_sum law (a * p + b * q + c * r) (d * s))

  -- The gas of a write set is the sum of the prices of its operations, cut at the largest number: an
  -- item and its bytes, at the price of a creation or of a modification, and nothing for a deletion.
  -- Every key can be encoded.
  pub calculate_storage_gas-sum :
      (p : StorageGasParameters) (ops : List (K × WriteOp))
      → calculate_storage_gas p ops version ≡ some (clamp (sum_by (op_gas encoded version p) ops))
  unfolding calculate_storage_gas
  calculate_storage_gas-sum p ops = rw (count_all-total ops) (
      ap some (
        sum_of_products _ _ _ _ p.per_item_create p.per_item_write p.per_byte_create
          p.per_byte_write
        ∙ ap clamp (priced p ops)))
