-- ===== src/Gas/Meter/Effect/Steps.antt =====
-- The steps that the methods of the gas meter are made of, as effects.
use move_tutorial.Gas.Meter.{resume}
use move_tutorial.Prelude.{
  ℕ, ◌+◌, ◌-◌, ◌≤◌, ◌≡◌, refl, sym, ap, ◌∙◌, true, false, leb, ltb, if◌then◌else◌, Result, ok, err,
  Failure, arith, Bool-cases, inl, inr, memory_limit_exceeded,
}
use move_tutorial.Gas.Algebra.{GasAlgebra, IsSaturating, clamp, u64_max}
use move_tutorial.Gas.Meter.{
  AptosGasMeter, Charge, charge, use_heap_memory, release_heap_memory, pure, vm_error, ◌>>=◌, ◌>>◌,
}
use move_tutorial.Gas.Meter.Effect.{Effect, pay, settle}

-- How a chain of charges goes on from the outcome of its first part.
pub >>=-ok :
    {N A B : Type 0} (c : Charge N A) (f : A → Charge N B) (m m' : AptosGasMeter N) (a : A)
    → c m ≡ (ok a, m')
    → (c >>= f) m ≡ f a m'
>>=-ok c f m m' a e = ap (resume f) e

pub >>=-err :
    {N A B : Type 0} (c : Charge N A) (f : A → Charge N B) (m m' : AptosGasMeter N) (x : Failure)
    → c m ≡ (err x, m')
    → (c >>= f) m ≡ (err x, m')
>>=-err c f m m' x e = ap (resume f) e

-- A chain is the same however it is bracketed.
resume_assoc :
    {N A B C : Type 0} (f : A → Charge N B) (g : B → Charge N C)
    → (o : Result Failure A × AptosGasMeter N) → resume g (resume f o) ≡ resume (λ a. f a >>= g) o
resume_assoc f g (ok a, m) = refl
resume_assoc f g (err e, m) = refl

pub >>=-assoc :
    {N A B C : Type 0} (c : Charge N A) (f : A → Charge N B) (g : B → Charge N C)
    (m : AptosGasMeter N)
    → ((c >>= f) >>= g) m ≡ (c >>= λ a. f a >>= g) m
>>=-assoc c f g m = resume_assoc f g (c m)

-- The meter after a release of memory.
abbrev pub freed : {N : Type 0} → ℕ → AptosGasMeter N → AptosGasMeter N
freed r m = record m {
  memory_quota = if leb 3 m.feature_version then clamp (m.memory_quota + r) else m.memory_quota;
}

clamp_zero : (q : ℕ) → q ≤ u64_max → clamp (q + 0) ≡ q
clamp_zero q h = omega arith

monus_zero : (q : ℕ) → q - 0 ≡ q
monus_zero q = omega arith

ltb_zero : (q : ℕ) → ltb q 0 ≡ false
ltb_zero q = ground arith

module _ {N : Type 0} ⦃G : GasAlgebra⦄ (law : IsSaturating G) where
  pub charge-pay : (c : ℕ) (m : AptosGasMeter N) → charge c m ≡ pay c m
  unfolding charge
  charge-pay c m = rw (law.checked_sub_eq m.balance c) ground arith

  settle-gas :
      (c : ℕ) (m : AptosGasMeter N)
      → m.memory_quota ≤ u64_max
      → settle (record { released = 0; used = 0; gas = c }) m ≡ pay c m
  settle-gas c m h = elim (Bool-cases (leb 3 m.feature_version)) [
    | inl e ↦
        rw (e, clamp_zero m.memory_quota h, ltb_zero m.memory_quota, monus_zero m.memory_quota) refl
    | inr e ↦ rw e refl
  ]

  pub charge-settle :
      (c : ℕ) (m : AptosGasMeter N)
      → m.memory_quota ≤ u64_max
      → charge c m ≡ settle (record { released = 0; used = 0; gas = c }) m
  charge-settle c m h = charge-pay c m ∙ sym (settle-gas c m h)

  use_enough :
      (u : ℕ) (m : AptosGasMeter N)
      → leb 3 m.feature_version ≡ true
      → leb u m.memory_quota ≡ true
      → use_heap_memory u m ≡ (ok tt, record m { memory_quota = m.memory_quota - u })
  unfolding use_heap_memory
  use_enough u m e f = rw (e, law.checked_sub_eq m.memory_quota u, f) refl

  use_short :
      (u : ℕ) (m : AptosGasMeter N)
      → leb 3 m.feature_version ≡ true
      → leb u m.memory_quota ≡ false
      → use_heap_memory u m ≡ (err (vm_error memory_limit_exceeded), record m { memory_quota = 0 })
  unfolding use_heap_memory
  use_short u m e f = rw (e, law.checked_sub_eq m.memory_quota u, f) refl

  use_free :
      (u : ℕ) (m : AptosGasMeter N)
      → leb 3 m.feature_version ≡ false
      → use_heap_memory u m ≡ (ok tt, m)
  unfolding use_heap_memory
  use_free u m e = rw e refl

  pub release_free :
      (r : ℕ) (m : AptosGasMeter N)
      → leb 3 m.feature_version ≡ false
      → release_heap_memory r m ≡ (ok tt, m)
  unfolding release_heap_memory
  release_free r m e = rw e refl

  pub release_counted :
      (r : ℕ) (m : AptosGasMeter N)
      → leb 3 m.feature_version ≡ true
      → release_heap_memory r m ≡ (ok tt, record m { memory_quota = clamp (m.memory_quota + r) })
  unfolding release_heap_memory
  release_counted r m e = rw (e, law.plus_eq m.memory_quota r) refl

  pay_zero : (m : AptosGasMeter N) → (ok tt, m) ≡ pay 0 m
  pay_zero m = rw (ltb_zero m.balance, monus_zero m.balance) refl

  -- Memory is used, and a continuation pays the gas.
  pub use_then :
      (u c : ℕ) (k : Charge N Unit) (m : AptosGasMeter N)
      → m.memory_quota ≤ u64_max
      → ((m' : AptosGasMeter N) → k m' ≡ pay c m')
      → (use_heap_memory u >> k) m ≡ settle (record { released = 0; used = u; gas = c }) m
  use_then u c k m h paid = elim (Bool-cases (leb 3 m.feature_version)) [
    | inl e ↦ elim (Bool-cases (leb u m.memory_quota)) [
      | inl f ↦
          let g : ltb m.memory_quota u ≡ false = ground arith in
          >>=-ok (use_heap_memory u) (λ _. k) m _ tt (use_enough u m e f)
          ∙ rw (e, clamp_zero m.memory_quota h, g)
              (paid (record m { memory_quota = m.memory_quota - u }))
      | inr f ↦
          let g : ltb m.memory_quota u ≡ true = ground arith in
          >>=-err (use_heap_memory u) (λ _. k) m _ _ (use_short u m e f)
          ∙ rw (e, clamp_zero m.memory_quota h, g) refl
    ]
    | inr e ↦ >>=-ok (use_heap_memory u) (λ _. k) m _ tt (use_free u m e) ∙ rw e (paid m)
  ]

  release_then :
      (r c : ℕ) (k : Charge N Unit) (m : AptosGasMeter N)
      → ((m' : AptosGasMeter N) → k m' ≡ pay c m')
      → (release_heap_memory r >> k) m ≡ settle (record { released = r; used = 0; gas = c }) m
  release_then r c k m paid = elim (Bool-cases (leb 3 m.feature_version)) [
    | inl e ↦
        >>=-ok (release_heap_memory r) (λ _. k) m _ tt (release_counted r m e)
        ∙ rw (e, ltb_zero (clamp (m.memory_quota + r)), monus_zero (clamp (m.memory_quota + r)))
            (paid (record m { memory_quota = clamp (m.memory_quota + r) }))
    | inr e ↦ >>=-ok (release_heap_memory r) (λ _. k) m _ tt (release_free r m e) ∙ rw e (paid m)
  ]

  pub use-settle :
      (u c : ℕ) (m : AptosGasMeter N)
      → m.memory_quota ≤ u64_max
      → (use_heap_memory u >> charge c) m ≡ settle (record { released = 0; used = u; gas = c }) m
  use-settle u c m h = use_then u c (charge c) m h (charge-pay c)

  pub release-settle :
      (r c : ℕ) (m : AptosGasMeter N)
      → (release_heap_memory r >> charge c) m
        ≡ settle (record { released = r; used = 0; gas = c }) m
  release-settle r c m = release_then r c (charge c) m (charge-pay c)

  ended : (o : Result Failure Unit × AptosGasMeter N) → resume (λ _. pure tt) o ≡ o
  ended (ok u, m) = refl
  ended (err e, m) = refl

  -- A last step that answers nothing may be followed by nothing.
  then_nothing : (k : Charge N Unit) (m : AptosGasMeter N) → (k >> pure tt) m ≡ k m
  then_nothing k m = ended (k m)

  pub use_only-settle :
      (u : ℕ) (m : AptosGasMeter N)
      → m.memory_quota ≤ u64_max
      → use_heap_memory u m ≡ settle (record { released = 0; used = u; gas = 0 }) m
  use_only-settle u m h =
      sym (then_nothing (use_heap_memory u) m) ∙ use_then u 0 (pure tt) m h pay_zero

  pub release_only-settle :
      (r : ℕ) (m : AptosGasMeter N)
      → release_heap_memory r m ≡ settle (record { released = r; used = 0; gas = 0 }) m
  release_only-settle r m =
      sym (then_nothing (release_heap_memory r) m) ∙ release_then r 0 (pure tt) m pay_zero

  pub nothing-settle :
      (m : AptosGasMeter N)
      → m.memory_quota ≤ u64_max
      → (ok tt, m) ≡ settle (record { released = 0; used = 0; gas = 0 }) m
  nothing-settle m h = pay_zero m ∙ sym (settle-gas 0 m h)

  -- What is released may have been cut at the largest number.
  pub settle_cut :
      (r c : ℕ) (m : AptosGasMeter N)
      → settle (record { released = clamp r; used = 0; gas = c }) m
        ≡ settle (record { released = r; used = 0; gas = c }) m
  settle_cut r c m =
      let e : clamp (m.memory_quota + clamp r) ≡ clamp (m.memory_quota + r) = omega arith in
      rw e refl

  pub release-freed : (r : ℕ) (m : AptosGasMeter N) → release_heap_memory r m ≡ (ok tt, freed r m)
  release-freed r m = elim (Bool-cases (leb 3 m.feature_version)) [
    | inl e ↦ release_counted r m e ∙ simp e refl
    | inr e ↦ release_free r m e ∙ simp e refl
  ]

  pub freed_twice :
      (a b c : ℕ) (m : AptosGasMeter N)
      → charge c (freed b (freed a m)) ≡ settle (record { released = a + b; used = 0; gas = c }) m
  freed_twice a b c m =
      charge-pay c (freed b (freed a m)) ∙ elim (Bool-cases (leb 3 m.feature_version)) [
        | inl e ↦
            let f : clamp (clamp (m.memory_quota + a) + b) ≡ clamp (m.memory_quota + (a + b)) =
              omega arith in
            rw
              (
                e,
                f,
                ltb_zero (clamp (m.memory_quota + (a + b))),
                monus_zero (clamp (m.memory_quota + (a + b))),
              )
              refl
        | inr e ↦ rw e refl
      ]

  -- Before version 3 memory is not looked at.
  pub settle_early :
      (e : Effect) (m : AptosGasMeter N)
      → leb 3 m.feature_version ≡ false
      → settle e m ≡ pay e.gas m
  settle_early e m h = rw h refl
