-- ===== src/Executor/Resolver/Contents.antt =====
-- The number that a path holds, given what storage holds.
use move_tutorial.Prelude.{
  ℕ, ◌≡◌, ◌∙◌, refl, ap, arith, Option, none, some, ok, List, [], ◌∷◌, ◌++◌, to_option, bind_option,
}
use move_tutorial.Prelude.Map.{nat_key}
use move_tutorial.Aggregator.Delta.{DeltaOp, apply_to}
use move_tutorial.MvHashMap.{TransactionWrite, from_write}
use move_tutorial.MvHashMap.Serial.{
  apply_all, Content, absent, written, number, pending, failed, blocked, stuck, apply_one,
  apply_written, to_number,
}
use move_tutorial.MvHashMap.Serial.Deltas.{apply_all-append}

abbrev present : Option ℕ → Option (Option ℕ)
present none = none
present (some r) = some (some r)

-- Deltas applied to what storage holds.
abbrev pub number_of : Option ℕ → List DeltaOp → Option (Option ℕ)
number_of none ds = none
number_of (some x) ds = present (apply_all ds x)

present-eq : (o : Option ℕ) (x : ℕ) → present o ≡ some (some x) → o ≡ some x
present-eq none x e = absurd (ground arith)
present-eq (some y) x e = ground arith

apply_all-one : (d : DeltaOp) (x r : ℕ) → apply_to d x ≡ ok r → apply_all (d ∷ []) x ≡ some r
unfolding apply_all
apply_all-one d x r e = rw e refl

number_of-append :
    (base : Option ℕ) (ds : List DeltaOp) (d : DeltaOp) (x r : ℕ)
    → number_of base ds ≡ some (some x)
    → apply_to d x ≡ ok r
    → number_of base (ds ++ d ∷ []) ≡ some (some r)
number_of-append none ds d x r e a = absurd (ground arith)
number_of-append (some y) ds d x r e a = ap present (
    apply_all-append ds (d ∷ []) y
    ∙ ap (λ o. bind_option o (apply_all (d ∷ []))) (present-eq (apply_all ds y) x e)
    ∙ apply_all-one d x r a)

number_of-one :
    (base : Option ℕ) (d : DeltaOp) (x r : ℕ)
    → base ≡ some x
    → apply_to d x ≡ ok r
    → number_of base (d ∷ []) ≡ some (some r)
number_of-one none d x r e a = absurd (ground arith)
number_of-one (some y) d x r e a =
    let same : y ≡ x = ground arith in
    ap present (ap (apply_all (d ∷ [])) same ∙ apply_all-one d x r a)

module _ {V : Type 0} (w : TransactionWrite V) (base : Option ℕ) where
  -- The number that a path holds, if storage holds `base`: `some none` is no value.
  abbrev pub value_of : Content V → Option (Option ℕ)
  value_of absent = some base
  value_of (written i n v) = from_write w v
  value_of (number x) = some (some x)
  value_of (pending ds) = number_of base ds
  value_of failed = none
  value_of (blocked i) = none
  value_of stuck = none

  value_of-written :
      (d : DeltaOp) (x r : ℕ) (i n : ℕ) (v : V) (o : Option (Option ℕ))
      → o ≡ some (some x)
      → apply_to d x ≡ ok r
      → value_of (apply_written w d (written i n v) o) ≡ some (some r)
  value_of-written d x r i n v none e a = absurd (ground arith)
  value_of-written d x r i n v (some none) e a = absurd (ground arith)
  value_of-written d x r i n v (some (some y)) e a =
      let same : y ≡ x = ground arith in
      ap (λ z. value_of (to_number w (to_option (apply_to d z)))) same
      ∙ ap (λ z. value_of (to_number w (to_option z))) a

  pub value_of-delta :
      (c : Content V) (d : DeltaOp) (x r : ℕ)
      → value_of c ≡ some (some x)
      → apply_to d x ≡ ok r
      → value_of (apply_one w d c) ≡ some (some r)
  value_of-delta absent d x r e a = number_of-one base d x r (ground arith) a
  value_of-delta (written i n v) d x r e a = value_of-written d x r i n v (from_write w v) e a
  value_of-delta (number y) d x r e a =
      let same : y ≡ x = ground arith in
      ap (λ z. value_of (to_number w (to_option (apply_to d z)))) same
      ∙ ap (λ z. value_of (to_number w (to_option z))) a
  value_of-delta (pending ds) d x r e a = number_of-append base ds d x r e a
  value_of-delta failed d x r e a = absurd (ground arith)
  value_of-delta (blocked i) d x r e a = absurd (ground arith)
  value_of-delta stuck d x r e a = absurd (ground arith)
