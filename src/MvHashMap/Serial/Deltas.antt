-- ===== src/MvHashMap/Serial/Deltas.antt =====
-- Lists of deltas over what a path holds.
use move_tutorial.Prelude.{PartialVmResult}
use mathlib.Core.Path.{subst}
use mathlib.Core.List.{append-nil, append_assoc}
use move_tutorial.Prelude.{
  ℕ, ◌≡◌, ◌∙◌, refl, sym, ap, inl, inr, Option, none, some, ok, err, Result-cases, List, [], ◌∷◌,
  ◌++◌, to_option, bind_option,
}
use move_tutorial.Aggregator.Delta.{DeltaOp, apply_to}
use move_tutorial.MvHashMap.{TransactionWrite, from_write, apply_result}
use move_tutorial.MvHashMap.Serial.{
  apply_all, Content, absent, written, number, pending, failed, blocked, stuck, to_number,
  apply_written, apply_list, Fails, Agrees,
}

pub apply_all-append :
    (ds es : List DeltaOp) (base : ℕ)
    → apply_all (ds ++ es) base ≡ bind_option (apply_all ds base) (apply_all es)
unfolding apply_all
apply_all-append [] es base = refl
apply_all-append (d ∷ ds) es base = elim (Result-cases (apply_to d base)) [
  | inl (x, e) ↦ rw e (apply_all-append ds es x)
  | inr (x, e) ↦ rw e refl
]

pub bind-some {ℓ} : {A : Type ℓ} (o : Option A) → o ≡ bind_option o (λ a. some a)
bind-some none = refl
bind-some (some a) = refl

bind-none {ℓ} :
    {A B : Type ℓ} (o : Option A) (f : A → Option B)
    → ((a : A) → f a ≡ none)
    → bind_option o f ≡ none
bind-none none f h = refl
bind-none (some a) f h = h a

module _ {V : Type 0} (w : TransactionWrite V) where
  pub apply_list-pending :
      (ds es : List DeltaOp) → apply_list w ds (pending es) ≡ pending (es ++ ds)
  unfolding apply_list
  apply_list-pending [] es = rw append-nil
  apply_list-pending (d ∷ ds) es =
      apply_list-pending ds (es ++ d ∷ []) ∙ ap pending (append_assoc es (d ∷ []) ds)

  pub apply_list-blocked : (ds : List DeltaOp) (i : ℕ) → apply_list w ds (blocked i) ≡ blocked i
  unfolding apply_list
  apply_list-blocked [] i = refl
  apply_list-blocked (d ∷ ds) i = apply_list-blocked ds i

  pub apply_list-stuck : (ds : List DeltaOp) → apply_list w ds stuck ≡ stuck
  unfolding apply_list
  apply_list-stuck [] = refl
  apply_list-stuck (d ∷ ds) = apply_list-stuck ds

  pub apply_list-failed : (ds : List DeltaOp) → apply_list w ds failed ≡ failed
  unfolding apply_list
  apply_list-failed [] = refl
  apply_list-failed (d ∷ ds) = apply_list-failed ds

  pub apply_list-deletion :
      (ds : List DeltaOp) (i n : ℕ) (v : V)
      → from_write w v ≡ some none
      → apply_list w ds (written i n v) ≡ written i n v
  unfolding apply_list
  apply_list-deletion [] i n v h = refl
  apply_list-deletion (d ∷ ds) i n v h = rw h (apply_list-deletion ds i n v h)

  pub apply_list-number :
      (ds : List DeltaOp) (x : ℕ) → apply_list w ds (number x) ≡ to_number w (apply_all ds x)
  unfolding apply_list apply_all
  apply_list-number [] x = refl
  apply_list-number (d ∷ ds) x = elim (Result-cases (apply_to d x)) [
    | inl (y, e) ↦ rw e (apply_list-number ds y)
    | inr (y, e) ↦ rw e (apply_list-failed ds)
  ]

  pub apply_list-to_number :
      (ds : List DeltaOp) (o : Option ℕ)
      → apply_list w ds (to_number w o) ≡ to_number w (bind_option o (apply_all ds))
  apply_list-to_number ds none = apply_list-failed ds
  apply_list-to_number ds (some x) = apply_list-number ds x

  pub number-result :
      (r : PartialVmResult ℕ) (c : Content V)
      → c ≡ to_number w (to_option r)
      → Agrees w (some (apply_result w r)) c
  number-result (ok y) c h = h
  number-result (err y) c h = subst (λ z. Fails w z) (sym h) tt

  module _ (d : DeltaOp) (ds : List DeltaOp) where
    written-Fails :
        ((base : ℕ) → apply_all (d ∷ ds) base ≡ none)
        → (i n : ℕ) (v : V) (o : Option (Option ℕ)) → from_write w v ≡ o
        → Fails w (apply_list w ds (apply_written w d (written i n v) o))
    unfolding apply_all
    written-Fails h i n v none e = rw (apply_list-stuck ds) tt
    written-Fails h i n v (some none) e = rw (apply_list-deletion ds i n v e) e
    written-Fails h i n v (some (some x)) e =
        rw (apply_list-to_number ds (to_option (apply_to d x))) (rw (h x) tt)

    -- Deltas that fail at every value fail over any content but a deletion.
    pub all_fail :
        ((base : ℕ) → apply_all (d ∷ ds) base ≡ none)
        → (c : Content V) → Fails w (apply_list w (d ∷ ds) c)
    unfolding apply_list
    all_fail h absent = rw (apply_list-pending ds (d ∷ [])) h
    all_fail h (written i n v) = written-Fails h i n v (from_write w v) refl
    all_fail h (number x) = rw (apply_list-number (d ∷ ds) x) (rw (h x) tt)
    all_fail h (pending es) = rw (apply_list-pending (d ∷ ds) es) λ base.
        apply_all-append es (d ∷ ds) base ∙ bind-none (apply_all es base) (apply_all (d ∷ ds)) h
    all_fail h failed = rw (apply_list-failed ds) tt
    all_fail h (blocked i) = rw (apply_list-blocked ds i) tt
    all_fail h stuck = rw (apply_list-stuck ds) tt
