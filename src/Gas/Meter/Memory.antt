-- ===== src/Gas/Meter/Memory.antt =====
-- The memory quota of the gas meter of aptos-gas/src/gas_meter.rs: what is used comes back.
use mathlib.Core.Path.{subst⁻¹}
use move_tutorial.Gas.Meter.Budget.Sequences.{resume_ok}
use move_tutorial.Prelude.{
  ◌⊎◌, ℕ, ◌+◌, ◌-◌, ◌≤◌, ◌≡◌, refl, ap, ◌∙◌, sym, Bool, true, false, some, List, [], ◌∷◌, leb, ltb,
  arith, Bool-cases, inl, inr, ok,
}
use move_tutorial.Gas.Algebra.{GasAlgebra, IsSaturating, clamp, u64_max}
use move_tutorial.Gas.Views.{Shape, ValueView, IsShaped}
use move_tutorial.Gas.Meter.{AptosGasMeter}
use move_tutorial.Gas.Meter.Requests.{
  Request, perform, perform_all, native_function, pop, copy_loc, read_ref,
  ld_const_after_deserialization, pack, unpack, vec_pack, vec_unpack, vec_push_back, vec_pop_back,
  drop_frame,
}
use move_tutorial.Gas.Meter.Effect.{Effect, effect, settle, pay, mark, IsValid}
use move_tutorial.Gas.Meter.Effect.Values.{IsComparable}
use move_tutorial.Gas.Meter.Refinement.{perform-settle}
use move_tutorial.Gas.Meter.Kept.{IsAfter, IsAfter-IsValid, perform-IsAfter, moved}

-- A request that makes a value, and the one that drops it.
pub data Undoes {V : Type 0} : Request V → Request V → Type 0 where
  pop_copy : (v : V) → Undoes (copy_loc v) (pop v)
  pop_read : (v : V) → Undoes (read_ref v) (pop v)
  pop_const : (v : V) → Undoes (ld_const_after_deserialization v) (pop v)
  unpack_pack : (b : Bool) (vs : List V) → Undoes (pack b vs) (unpack b vs)
  unpack_vec : (n : ℕ) (vs : List V) → Undoes (vec_pack vs) (vec_unpack n vs)
  pop_push : (v : V) → Undoes (vec_push_back v) (vec_pop_back (some v))
  drop_returned : (n : ℕ) (vs : List V) → Undoes (native_function n (some vs)) (drop_frame vs)

module _ {N : Type 0} where
  pay_quota :
      (gas : ℕ) (m m' : AptosGasMeter N)
      → pay gas m ≡ (ok tt, m')
      → m'.memory_quota ≡ m.memory_quota
  pay_quota gas m m' h = ground arith

  -- The quota after a charge that succeeds.
  settle_quota :
      (e : Effect) (m m' : AptosGasMeter N)
      → leb 3 m.feature_version ≡ true
      → settle e m ≡ (ok tt, m')
      → (m'.memory_quota ≡ clamp (m.memory_quota + e.released) - e.used)
        × (e.used ≤ clamp (m.memory_quota + e.released))
  settle_quota e m m' c h = elim (Bool-cases (ltb (clamp (m.memory_quota + e.released)) e.used)) [
    | inl d ↦ absurd (ground arith)
    | inr d ↦ (pay_quota e.gas _ m' (rw (c, d) at h), ground arith)
  ]

  settle_quota_early :
      (e : Effect) (m m' : AptosGasMeter N)
      → leb 3 m.feature_version ≡ false
      → settle e m ≡ (ok tt, m')
      → m'.memory_quota ≡ m.memory_quota
  settle_quota_early e m m' c h = pay_quota e.gas m m' (rw c at h)

-- What was used is what is released, or that was cut at the largest number.
abbrev Covers : ℕ → ℕ → Type 0
Covers used released = (used ≡ released) ⊎ (used ≡ clamp released)

covered :
    (q used released : ℕ)
    → q ≤ u64_max
    → used ≤ q
    → Covers used released
    → clamp (q - used + released) ≡ q
covered q used released h k (inl e) = omega arith
covered q used released h k (inr e) = omega arith

module _ {V : Type 0} (shape : V → Shape) where
  Undoes-IsComparable : (r s : Request V) → Undoes r s → IsComparable shape r × IsComparable shape s
  Undoes-IsComparable _ _ (pop_copy v) = (tt, tt)
  Undoes-IsComparable _ _ (pop_read v) = (tt, tt)
  Undoes-IsComparable _ _ (pop_const v) = (tt, tt)
  Undoes-IsComparable _ _ (unpack_pack b vs) = (tt, tt)
  Undoes-IsComparable _ _ (unpack_vec n vs) = (tt, tt)
  Undoes-IsComparable _ _ (pop_push v) = (tt, tt)
  Undoes-IsComparable _ _ (drop_returned n vs) = (tt, tt)

module _ {N V : Type 0} (shape : V → Shape) (m : AptosGasMeter N) where
  -- The two effects, the second on a meter that has moved.
  Undoes-effect :
      (r s : Request V) (b q : ℕ) (f : Bool)
      → Undoes r s
      → ((effect shape m r).released ≡ 0)
        × ((effect shape (moved m b q f) s).used ≡ 0)
        × Covers (effect shape m r).used (effect shape (moved m b q f) s).released
  Undoes-effect _ _ b q f (pop_copy v) = (refl, refl, inl refl)
  Undoes-effect _ _ b q f (pop_read v) = (refl, refl, inl refl)
  Undoes-effect _ _ b q f (pop_const v) = (refl, refl, inl refl)
  Undoes-effect _ _ b q f (unpack_pack c vs) = (refl, refl, inr refl)
  Undoes-effect _ _ b q f (unpack_vec n vs) = (refl, refl, inr refl)
  Undoes-effect _ _ b q f (pop_push v) = (refl, refl, inl refl)
  Undoes-effect _ _ b q f (drop_returned n vs) = (refl, refl, inr refl)

module _ {N V : Type 0} (core_code_address : ℕ) (m : AptosGasMeter N) where
  Undoes-mark :
      (r s : Request V)
      → Undoes r s
      → (mark core_code_address r m ≡ m) × (mark core_code_address s m ≡ m)
  Undoes-mark _ _ (pop_copy v) = (refl, refl)
  Undoes-mark _ _ (pop_read v) = (refl, refl)
  Undoes-mark _ _ (pop_const v) = (refl, refl)
  Undoes-mark _ _ (unpack_pack b vs) = (refl, refl)
  Undoes-mark _ _ (unpack_vec n vs) = (refl, refl)
  Undoes-mark _ _ (pop_push v) = (refl, refl)
  Undoes-mark _ _ (drop_returned n vs) = (refl, refl)

module _ {N : Type 0} where
  -- Two charges of which the second releases what the first used.
  settle_undone :
      (d e : Effect) (m m1 m2 : AptosGasMeter N)
      → m.memory_quota ≤ u64_max
      → m1.feature_version ≡ m.feature_version
      → (d.released ≡ 0) × (e.used ≡ 0) × Covers d.used e.released
      → settle d m ≡ (ok tt, m1)
      → settle e m1 ≡ (ok tt, m2)
      → m2.memory_quota ≡ m.memory_quota
  settle_undone d e m m1 m2 h v (dr, eu, c) s1 s2 = elim (Bool-cases (leb 3 m.feature_version)) [
    | inl f ↦
        let (q1, k1) = settle_quota d m m1 f s1 in
        let (q2, k2) = settle_quota e m1 m2 (ap (leb 3) v ∙ f) s2 in
        let q : clamp (m.memory_quota + 0) ≡ m.memory_quota = omega arith in
        let q1' : m1.memory_quota ≡ m.memory_quota - d.used = rw (dr, q) at q1 in
        let k1' : d.used ≤ m.memory_quota = rw (dr, q) at k1 in
        let back = covered m.memory_quota d.used e.released h k1' c in
        rw (q2, q1', back, eu) (omega arith)
    | inr f ↦ settle_quota_early e m1 m2 (ap (leb 3) v ∙ f) s2 ∙ settle_quota_early d m m1 f s1
  ]

module _ {N V : Type 0} ⦃G : GasAlgebra⦄ ⦃W : ValueView V⦄ {shape : V → Shape}
    (law : IsSaturating G) (shown : IsShaped W shape) (core_code_address : ℕ) where
  settled :
      (r : Request V) (m m' : AptosGasMeter N)
      → IsValid m
      → IsComparable shape r
      → mark core_code_address r m ≡ m
      → perform core_code_address r m ≡ (ok tt, m')
      → settle (effect shape m r) m ≡ (ok tt, m')
  settled r m m' v h k e =
      ap (settle (effect shape m r)) (sym k)
      ∙ sym (perform-settle law shown core_code_address m v r h)
      ∙ e

  -- When the virtual machine makes a value and then drops it, and the meter grants both, the memory
  -- quota is what it was: a copy, read or constant that is popped, a structure or vector that is
  -- packed and unpacked, an element pushed and popped, the results of a native that are dropped.
  pub perform_all-Undoes :
      (r s : Request V) (m m' : AptosGasMeter N)
      → Undoes r s
      → IsValid m
      → perform_all core_code_address (r ∷ s ∷ []) m ≡ (ok tt, m')
      → m'.memory_quota ≡ m.memory_quota
  unfolding perform_all
  perform_all-Undoes r s m m' u v e =
      let (hr, hs) = Undoes-IsComparable shape r s u in
      let (m1, first, rest) =
        resume_ok (perform_all core_code_address (s ∷ [])) (perform core_code_address r m) m' e in
      let (m2, second, last) =
        resume_ok (perform_all {V = V} core_code_address []) (perform core_code_address s m1) m'
          rest in
      let a : IsAfter m m1 =
        rw⁻¹ (ap (λ o. o.1) first) (perform-IsAfter law shown core_code_address r m v) in
      let effects = Undoes-effect shape m r s m1.balance m1.memory_quota m1.is_call_table u in
      let s1 = settled r m m1 v hr (Undoes-mark core_code_address m r s u).0 first in
      let s2 =
        settled s m1 m2 (IsAfter-IsValid m m1 v a) hs (Undoes-mark core_code_address m1 r s u).1
          second in
      let kept =
        subst⁻¹
          (λ x.
            ((effect shape m r).released ≡ 0)
            × ((effect shape x s).used ≡ 0)
            × Covers (effect shape m r).used (effect shape x s).released)
          a.moved_eq effects in
      sym (ap (λ o. o.1.memory_quota) last)
      ∙ settle_undone (effect shape m r) (effect shape m1 s) m m1 m2 v.quota_u64
          (ap (λ x. x.feature_version) a.moved_eq) kept s1 s2
