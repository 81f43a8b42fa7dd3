-- ===== src/Aggregator/Delta/Merge.antt =====
-- `merge_onto` of aptos-aggregator/src/delta_change_set.rs, and two deltas one after the other.
mod Cases
pub use Cases.{Covers, IsCovered}
use move_tutorial.Prelude.{inl, inr, sym, ◌∙◌}
use move_tutorial.Prelude.{ℕ, ◌+◌, ◌-◌, ◌≤◌, ◌<◌, ◌≡◌, ok, arith, u128_mod, err}
use move_tutorial.Prelude.{
  Result, PartialVmError, PartialVmResult, to_option, bind_option, Option, some, none, refl,
  option_ext, bind_option-eq-some, to_option-eq-some, Result-cases, ap,
}
use mathlib.Core.Path.{subst}
use move_tutorial.Aggregator.Delta.{DeltaUpdate, plus, minus, DeltaOp, merge_onto, apply_to}
use Cases.{Covers, IsCovered, between, split, join, blocked, covered, limit-merge}
use move_tutorial.Aggregator.Delta.Apply.{Moves, Applies, apply_to_iff}

module _ (d p : DeltaOp) (base : ℕ) where
  -- `p`, then `d`.
  abbrev in_turn : Option ℕ
  in_turn = bind_option (to_option (apply_to p base)) (λ s. to_option (apply_to d s))

  abbrev merged : Option ℕ
  merged = bind_option (to_option (merge_onto d p)) (λ m. to_option (apply_to m base))

module _ (d p : DeltaOp) (base r : ℕ) where
  in_turn-Applies :
      p.limit < u128_mod
      → d.limit < u128_mod
      → in_turn d p base ≡ some r
      → (s : ℕ) × Applies p base s × Applies d s r
  in_turn-Applies hp hd e =
      let (s, ep, ed) =
        bind_option-eq-some (to_option (apply_to p base)) (λ s. to_option (apply_to d s)) r e in
      (
        s,
        (apply_to_iff p base s hp).0 (to_option-eq-some (apply_to p base) s ep),
        (apply_to_iff d s r hd).0 (to_option-eq-some (apply_to d s) r ed),
      )

  Applies-in_turn :
      p.limit < u128_mod
      → d.limit < u128_mod
      → (s : ℕ) → Applies p base s
      → Applies d s r
      → in_turn d p base ≡ some r
  Applies-in_turn hp hd s a b =
      cc (ap to_option ((apply_to_iff p base s hp).1 a), ap to_option ((apply_to_iff d s r hd).1 b))

module _ (m1 n1 m2 n2 l base r : ℕ) (lt : l < u128_mod) (u w : DeltaUpdate)
    (c : Covers u m1 n1) where
  abbrev prev : DeltaOp
  prev = record { max_positive = m1; min_negative = n1; limit = l; update = u }

  abbrev self : DeltaOp
  self = record { max_positive = m2; min_negative = n2; limit = l; update = w }

  forth : merged self prev base ≡ some r → in_turn self prev base ≡ some r
  forth e =
      let (m, em, ea) =
        bind_option-eq-some (to_option (merge_onto self prev)) (λ m. to_option (apply_to m base)) r
          e in
      let merged_to = to_option-eq-some (merge_onto self prev) m em in
      let small : m.limit < u128_mod =
        omega (arith, limit-merge m1 n1 m2 n2 l lt u w m merged_to) in
      let applies = (apply_to_iff m base r small).0 (to_option-eq-some (apply_to m base) r ea) in
      let (first, second) = split m1 n1 m2 n2 l lt u w c m base r merged_to applies in
      Applies-in_turn self prev base r lt lt (between u base) first second

  back : in_turn self prev base ≡ some r → merged self prev base ≡ some r
  back e =
      let (s, first, second) = in_turn-Applies self prev base r lt lt e in
      elim (Result-cases (merge_onto self prev)) [
        | inl (m, em) ↦
            let small : m.limit < u128_mod = omega (arith, limit-merge m1 n1 m2 n2 l lt u w m em) in
            let applied =
              (apply_to_iff m base r small).1
                (join m1 n1 m2 n2 l lt u w m base s r em first second) in
            cc (ap to_option em, ap to_option applied)
        | inr (x, ex) ↦ absurd (blocked m1 n1 m2 n2 l lt u w x base s r ex first second)
      ]

same_limit-merge :
    (mx mn : ℕ) (p : DeltaOp) (base : ℕ) (w : DeltaUpdate)
    → IsCovered p
    → p.limit < u128_mod
    → let d : DeltaOp = record {
      max_positive = mx;
      min_negative = mn;
      limit = p.limit;
      update = w;
    } in
      merged d p base ≡ in_turn d p base
same_limit-merge mx mn p base w c small =
    option_ext _ _
      (λ r. forth p.max_positive p.min_negative mx mn p.limit base r small p.update w c)
      (λ r. back p.max_positive p.min_negative mx mn p.limit base r small p.update w c)

-- Take two deltas with one limit, in range, of which the earlier one, p, has seen its own update.
-- Merging d onto p and applying the result to a base gives the value r exactly when applying p to
-- the base and d to what comes out gives r: both give the same value, or both fail.
pub merge_onto-apply_to :
    (d p : DeltaOp) (base : ℕ)
    → p.limit ≡ d.limit
    → d.limit < u128_mod
    → IsCovered p
    → bind_option (to_option (merge_onto d p)) (λ m. to_option (apply_to m base))
      ≡ bind_option (to_option (apply_to p base)) (λ s. to_option (apply_to d s))
merge_onto-apply_to d p base same small c =
    subst (λ (x : DeltaOp). merged x p base ≡ in_turn x p base) (λ i. record d { limit = same i })
      (same_limit-merge d.max_positive d.min_negative p base d.update c (omega arith))

-- The merged delta has the limit of both.
pub merge_onto-limit :
    (d p m : DeltaOp)
    → p.limit ≡ d.limit
    → d.limit < u128_mod
    → merge_onto d p ≡ ok m
    → m.limit ≡ d.limit
merge_onto-limit d p m same small e =
    let at : merge_onto (record d { limit = p.limit }) p ≡ ok m =
      subst (λ (x : DeltaOp). merge_onto x p ≡ ok m) (λ i. record d { limit = sym same i }) e in
    limit-merge p.max_positive p.min_negative d.max_positive d.min_negative p.limit (omega arith)
      p.update d.update m at
    ∙ same

-- A merge of covered deltas is covered, and has their limit.
pub merge_onto-IsCovered :
    (d p m : DeltaOp)
    → p.limit ≡ d.limit
    → d.limit < u128_mod
    → IsCovered p
    → IsCovered d
    → merge_onto d p ≡ ok m
    → IsCovered m × (m.limit ≡ d.limit)
merge_onto-IsCovered d p m same small cp cd e =
    let at : merge_onto (record d { limit = p.limit }) p ≡ ok m =
      subst (λ (x : DeltaOp). merge_onto x p ≡ ok m) (λ i. record d { limit = sym same i }) e in
    let small' : p.limit < u128_mod = omega arith in
    (
      covered p.max_positive p.min_negative d.max_positive d.min_negative p.limit small' p.update
          d.update m cp cd at,
      limit-merge p.max_positive p.min_negative d.max_positive d.min_negative p.limit small'
            p.update d.update m at
          ∙ same,
    )
