-- ===== src/Gas/Transaction/EarlyWriteSet.antt =====
-- The gas of a write set before the storage parameters, in
-- `TransactionGasParameters::calculate_write_set_gas` of aptos-gas/src/transaction.rs.
use native.Mathlib.Nat.{mul-add}
use move_tutorial.Prelude.{
  sum_by, ℕ, ◌+◌, ◌*◌, ◌≤◌, ◌≡◌, refl, ap, ◌∙◌, some, List, [], ◌∷◌, length, ltb, if◌then◌else◌,
  arith, Bool-cases, inl, inr,
}
use move_tutorial.Gas.Algebra.{GasAlgebra, IsSaturating, clamp, u64_max, ◌⊕◌, ◌⊗◌}
use move_tutorial.Gas.Algebra.Laws.{product_right, cut_sum}
use move_tutorial.Gas.Params.Txn.{TransactionGasParameters}
use move_tutorial.Gas.Transaction.{
  StateKey, WriteOp, creation, modification, deletion, TransactionCounts, count_value, key_bytes,
  count_transaction, count_all_transaction, calculate_write_set_gas, no_transaction_counts,
}

abbrev new_item : WriteOp → ℕ
new_item (creation value) = 1
new_item (modification value) = 0
new_item deletion = 0

abbrev value_bytes : WriteOp → ℕ
value_bytes (creation value) = length value
value_bytes (modification value) = length value
value_bytes deletion = 0

abbrev counts : ℕ → ℕ → ℕ → ℕ → TransactionCounts
counts a b c d = record { num_ops = a; num_new_items = b; num_bytes_key = c; num_bytes_val = d }

counts_eq :
    (a a' b b' c c' d d' : ℕ)
    → a ≡ a'
    → b ≡ b'
    → c ≡ c'
    → d ≡ d'
    → counts a b c d ≡ counts a' b' c' d'
counts_eq a a' b b' c c' d d' e f g h = rw (e, f, g, h) refl

record IsU64 (c : TransactionCounts) : Type 0 where
  pub ops : c.num_ops ≤ u64_max
  pub new_items : c.num_new_items ≤ u64_max
  pub bytes_key : c.num_bytes_key ≤ u64_max
  pub bytes_val : c.num_bytes_val ≤ u64_max

module _ {K : Type 0} (encoded : K → List ℕ) (p : TransactionGasParameters) where
  -- Keys are counted only where their bytes have a price.
  abbrev counted_key : K × WriteOp → ℕ
  counted_key (key, op) = if ltb 0 p.write_data_per_byte_in_key then length (encoded key) else 0

  abbrev one_op : K × WriteOp → ℕ
  one_op (key, op) = 1

  abbrev item : K × WriteOp → ℕ
  item (key, op) = new_item op

  abbrev value_size : K × WriteOp → ℕ
  value_size (key, op) = value_bytes op

  -- The price of one operation.
  abbrev pub early_op_gas : K × WriteOp → ℕ
  early_op_gas (key, op) =
      p.write_data_per_op
      + p.write_data_per_new_item * new_item op
      + p.write_data_per_byte_in_key * length (encoded key)
      + p.write_data_per_byte_in_val * value_bytes op

module _ {K : Type 0} ⦃G : GasAlgebra⦄ ⦃E : StateKey K⦄ (law : IsSaturating G)
    (encoded : K → List ℕ) (encodes : (k : K) → E.encode k ≡ some (encoded k))
    (p : TransactionGasParameters) where
  key_bytes-counted :
      (n : ℕ) (key : K) (op : WriteOp)
      → n ≤ u64_max
      → key_bytes p n key ≡ some (clamp (n + counted_key encoded p (key, op)))
  key_bytes-counted n key op h = elim (Bool-cases (ltb 0 p.write_data_per_byte_in_key)) [
    | inl e ↦ rw (e, encodes key) (ap some (law.plus_eq n (length (encoded key))))
    | inr e ↦ rw e (ap some (omega arith))
  ]

  count_value-eq :
      (c : TransactionCounts) (op : WriteOp)
      → IsU64 c
      → count_value c op
        ≡ counts c.num_ops
            (clamp (c.num_new_items + new_item op))
            c.num_bytes_key
            (clamp (c.num_bytes_val + value_bytes op))
  count_value-eq c (creation value) h =
      counts_eq _ _ _ _ _ _ _ _ refl (law.plus_eq c.num_new_items 1) refl
        (law.plus_eq c.num_bytes_val (length value))
  count_value-eq c (modification value) h =
      let n = h.new_items in
      counts_eq _ _ _ _ _ _ _ _ refl (omega arith) refl (law.plus_eq c.num_bytes_val (length value))
  count_value-eq c deletion h =
      let n = h.new_items in
      let b = h.bytes_val in counts_eq _ _ _ _ _ _ _ _ refl (omega arith) refl (omega arith)

  count_transaction-eq :
      (key : K) (op : WriteOp) (c : TransactionCounts)
      → IsU64 c
      → count_transaction p c (key, op)
        ≡ some (
            counts
              (clamp (c.num_ops + 1))
              (clamp (c.num_new_items + new_item op))
              (clamp (c.num_bytes_key + counted_key encoded p (key, op)))
              (clamp (c.num_bytes_val + value_bytes op)))
  unfolding count_transaction
  count_transaction-eq key op c h =
      let c' =
        counts (clamp (c.num_ops + 1)) c.num_new_items
          (clamp (c.num_bytes_key + counted_key encoded p (key, op))) c.num_bytes_val in
      let valid : IsU64 c' = record {
        ops = omega arith;
        new_items = h.new_items;
        bytes_key = omega arith;
        bytes_val = h.bytes_val;
      } in
      rw (key_bytes-counted c.num_bytes_key key op h.bytes_key, law.plus_eq c.num_ops 1)
        (ap some (count_value-eq c' op valid))

  count_all-added :
      (ops : List (K × WriteOp)) (c : TransactionCounts)
      → IsU64 c
      → count_all_transaction p ops c
        ≡ some (
            counts
              (clamp (c.num_ops + sum_by (one_op encoded p) ops))
              (clamp (c.num_new_items + sum_by (item encoded p) ops))
              (clamp (c.num_bytes_key + sum_by (counted_key encoded p) ops))
              (clamp (c.num_bytes_val + sum_by (value_size encoded p) ops)))
  unfolding count_all_transaction
  count_all-added [] c h =
      let a = h.ops in
      let b = h.new_items in
      let d = h.bytes_key in
      let e = h.bytes_val in
      ap some (counts_eq _ _ _ _ _ _ _ _ (omega arith) (omega arith) (omega arith) (omega arith))
  count_all-added ((key, op) ∷ ops) c h =
      let c' =
        counts (clamp (c.num_ops + 1)) (clamp (c.num_new_items + new_item op))
          (clamp (c.num_bytes_key + counted_key encoded p (key, op)))
          (clamp (c.num_bytes_val + value_bytes op)) in
      let valid : IsU64 c' = record {
        ops = omega arith;
        new_items = omega arith;
        bytes_key = omega arith;
        bytes_val = omega arith;
      } in
      rw (count_transaction-eq key op c h) (
        count_all-added ops c' valid
        ∙ ap some
            (counts_eq _ _ _ _ _ _ _ _ (omega arith) (omega arith) (omega arith) (omega arith)))

  count_all-total :
      (ops : List (K × WriteOp))
      → count_all_transaction p ops no_transaction_counts
        ≡ some (
            counts
              (clamp (sum_by (one_op encoded p) ops))
              (clamp (sum_by (item encoded p) ops))
              (clamp (sum_by (counted_key encoded p) ops))
              (clamp (sum_by (value_size encoded p) ops)))
  count_all-total ops =
      let start : IsU64 no_transaction_counts = record {
        ops = omega arith;
        new_items = omega arith;
        bytes_key = omega arith;
        bytes_val = omega arith;
      } in
      count_all-added ops no_transaction_counts start
      ∙ ap some (counts_eq _ _ _ _ _ _ _ _ (omega arith) (omega arith) (omega arith) (omega arith))

  -- Keys that are not counted cost nothing.
  key_price :
      (key : K) (op : WriteOp)
      → p.write_data_per_byte_in_key * counted_key encoded p (key, op)
        ≡ p.write_data_per_byte_in_key * length (encoded key)
  key_price key op = elim (Bool-cases (ltb 0 p.write_data_per_byte_in_key)) [
    | inl e ↦ rw e refl
    | inr e ↦ let z : p.write_data_per_byte_in_key ≡ 0 = ground arith in rw z omega arith
  ]

  priced :
      (ops : List (K × WriteOp))
      → p.write_data_per_op * sum_by (one_op encoded p) ops
          + p.write_data_per_new_item * sum_by (item encoded p) ops
          + (p.write_data_per_byte_in_key * sum_by (counted_key encoded p) ops
              + p.write_data_per_byte_in_val * sum_by (value_size encoded p) ops)
        ≡ sum_by (early_op_gas encoded p) ops
  priced [] = omega arith
  priced ((key, op) ∷ ops) = omega (
    arith,
    priced ops,
    key_price key op,
    mul-add p.write_data_per_op 1 (sum_by (one_op encoded p) ops),
    mul-add p.write_data_per_new_item (new_item op) (sum_by (item encoded p) ops),
    mul-add p.write_data_per_byte_in_key (counted_key encoded p (key, op))
        (sum_by (counted_key encoded p) ops),
    mul-add p.write_data_per_byte_in_val (value_bytes op) (sum_by (value_size encoded p) ops),
  )

  sum_of_products :
      (a b c d q r s t : ℕ)
      → q ⊗ clamp a ⊕ r ⊗ clamp b ⊕ (s ⊗ clamp c ⊕ t ⊗ clamp d)
        ≡ clamp (q * a + r * b + (s * c + t * d))
  sum_of_products a b c d q r s t =
      rw
        (product_right law q a, product_right law r b, product_right law s c, product_right law t d)
        rw (cut_sum law (q * a) (r * b), cut_sum law (s * c) (t * d))
        (cut_sum law (q * a + r * b) (s * c + t * d))

  -- Before the storage parameters, the gas of a write set is the sum of the prices of its operations,
  -- cut at the largest number: for each the operation itself, a new item, the bytes of the key and
  -- those of the value. Every key can be encoded.
  calculate_write_set_gas-sum :
      (ops : List (K × WriteOp))
      → calculate_write_set_gas p ops ≡ some (clamp (sum_by (early_op_gas encoded p) ops))
  unfolding calculate_write_set_gas
  calculate_write_set_gas-sum ops = rw (count_all-total ops) (
      ap some (
        sum_of_products _ _ _ _ p.write_data_per_op p.write_data_per_new_item
          p.write_data_per_byte_in_key p.write_data_per_byte_in_val
        ∙ ap clamp (priced ops)))
