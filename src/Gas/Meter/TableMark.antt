-- ===== src/Gas/Meter/TableMark.antt =====
-- The field `is_call_table` of the gas meter of aptos-gas/src/gas_meter.rs, which a generic call sets
-- and a native function reads.
use text.Mathlib.Text.{◌==◌ as str_eq}
use move_tutorial.Prelude.{
  ℕ, ◌+◌, ◌-◌, ◌≤◌, ◌≡◌, refl, ap, ◌∙◌, sym, true, false, ◌&&◌, List, [], ◌∷◌, leb, ltb, arith,
  Bool-cases, inl, inr, ok, ◌==◌, ==_iff,
}
use move_tutorial.Gas.Algebra.{GasAlgebra, IsSaturating, clamp, u64_max}
use move_tutorial.Gas.Views.{Shape, ValueView, IsShaped}
use move_tutorial.Gas.Meter.{AptosGasMeter}
use move_tutorial.Gas.Meter.Charges.{ModuleId}
use move_tutorial.Gas.Meter.Requests.{
  perform, perform_all, call, call_generic, native_before_execution,
}
use move_tutorial.Gas.Meter.Effect.{Effect, effect, settle, pay, mark, IsValid}
use move_tutorial.Gas.Meter.Refinement.{perform-settle}
use move_tutorial.Gas.Meter.Budget.Sequences.{resume_ok}
use move_tutorial.Gas.Meter.Kept.{IsAfter, IsAfter-IsValid, perform-IsAfter}

-- The module of the tables.
abbrev pub IsTable : ℕ → ModuleId → Type 0
IsTable core_code_address id = (id.address ≡ core_code_address) × (str_eq id.name "table" ≡ true)

table_test :
    (core_code_address : ℕ) (id : ModuleId)
    → IsTable core_code_address id
    → (id.address == core_code_address && str_eq id.name "table") ≡ true
table_test core_code_address id (a, n) = rw ((==_iff id.address core_code_address).1 a, n) refl

-- What a charge of gas alone keeps.
pub record HasKept {N : Type 0} (m m' : AptosGasMeter N) : Type 0 where
  pub quota_eq : m'.memory_quota ≡ m.memory_quota
  pub mark_eq : m'.is_call_table ≡ m.is_call_table

module _ {N : Type 0} where
  pay_kept : (gas : ℕ) (m m' : AptosGasMeter N) → pay gas m ≡ (ok tt, m') → HasKept m m'
  pay_kept gas m m' h = record { quota_eq = ground arith; mark_eq = ground arith }

  gas_only_kept :
      (e : Effect) (m m' : AptosGasMeter N)
      → m.memory_quota ≤ u64_max
      → (e.released ≡ 0) × (e.used ≡ 0)
      → settle e m ≡ (ok tt, m')
      → HasKept m m'
  gas_only_kept e m m' h (r, u) s = elim (Bool-cases (leb 3 m.feature_version)) [
    | inl c ↦
        let q : clamp (m.memory_quota + 0) - 0 ≡ m.memory_quota = omega arith in
        let d : ltb (clamp (m.memory_quota + 0)) 0 ≡ false = ground arith in
        let paid = pay_kept e.gas _ m' (rw (c, r, u, d) at s) in
        record { quota_eq = paid.quota_eq ∙ q; mark_eq = paid.mark_eq }
    | inr c ↦ pay_kept e.gas m m' (rw c at s)
  ]

module _ {N V : Type 0} ⦃G : GasAlgebra⦄ ⦃W : ValueView V⦄ {shape : V → Shape}
    (law : IsSaturating G) (shown : IsShaped W shape) (core_code_address : ℕ) where
  -- A native function that is called without type arguments after a generic call of the table module
  -- is taken for one of that module: the memory of its arguments is not released, from version 3 on
  -- or before, although its own call does not name the table module.
  pub native_after_table :
      (id : ModuleId) (types locals locals' : ℕ) (args args' vs : List V) (m m' : AptosGasMeter N)
      → IsTable core_code_address id
      → IsValid m
      → perform_all core_code_address
          (call_generic id types args locals ∷ call args' locals' ∷ native_before_execution vs ∷ [])
          m
        ≡ (ok tt, m')
      → m'.memory_quota ≡ m.memory_quota
  unfolding perform_all
  native_after_table id types locals locals' args args' vs m m' t v e =
      let g = call_generic id types args locals in
      let n = native_before_execution vs in
      let marked = mark core_code_address g m in
      let (m1, first, rest) =
        resume_ok (perform_all core_code_address (call args' locals' ∷ n ∷ []))
          (perform core_code_address g m) m' e in
      let (m2, second, rest') =
        resume_ok (perform_all core_code_address (n ∷ []))
          (perform core_code_address (call args' locals') m1) m' rest in
      let (m3, third, last) =
        resume_ok (perform_all {V = V} core_code_address []) (perform core_code_address n m2) m'
          rest' in
      let a1 : IsAfter m m1 =
        rw⁻¹ (ap (λ o. o.1) first) (perform-IsAfter law shown core_code_address g m v) in
      let v1 = IsAfter-IsValid m m1 v a1 in
      let a2 : IsAfter m1 m2 =
        rw⁻¹ (ap (λ o. o.1) second)
          (perform-IsAfter law shown core_code_address (call args' locals') m1 v1) in
      let v2 = IsAfter-IsValid m1 m2 v1 a2 in
      let k1 : HasKept marked m1 =
        gas_only_kept (effect shape m g) marked m1 v.quota_u64 (refl, refl)
          (sym (perform-settle law shown core_code_address m v g tt) ∙ first) in
      let k2 =
        gas_only_kept (effect shape m1 (call args' locals')) m1 m2 v1.quota_u64 (refl, refl)
          (sym (perform-settle law shown core_code_address m1 v1 (call args' locals') tt)
            ∙ second) in
      let is_table : m2.is_call_table ≡ true =
        k2.mark_eq ∙ k1.mark_eq ∙ table_test core_code_address id t in
      let k3 =
        gas_only_kept (effect shape m2 n) m2 m3 v2.quota_u64 (rw is_table refl, refl)
          (sym (perform-settle law shown core_code_address m2 v2 n tt) ∙ third) in
      sym (ap (λ o. o.1.memory_quota) last) ∙ k3.quota_eq ∙ k2.quota_eq ∙ k1.quota_eq
