-- ===== src/Prelude/Map/Values.antt =====
-- A predicate on all values of a map.
use mathlib.Core.Path.{◌≡◌, subst}
use mathlib.Core.Logic.{inl, inr}
use mathlib.Core.Option.{some}
use mathlib.Core.List.{[], ◌∷◌}
use native.Mathlib.Omega.{arith}
use move_tutorial.Prelude.Tests.{Bool-cases}
use move_tutorial.Prelude.Map.{Key, Map, lookup, insert, remove}

module _ {ℓ κ μ} {K : Type ℓ} {V : Type κ} ⦃k : Key K⦄ (P : V → Type μ) where
  abbrev pub AllValues : Map K V → Type μ
  AllValues [] = Unit
  AllValues ((j, v) ∷ m) = P v × AllValues m

  pub AllValues-insert :
      (i : K) (v : V) (m : Map K V) → P v → AllValues m → AllValues (insert i v m)
  unfolding insert
  AllValues-insert i v [] p a = (p, tt)
  AllValues-insert i v ((j, w) ∷ m) p a = elim (Bool-cases (k.beq j i)) [
    | inl e ↦ rw e (p, a.1)
    | inr e ↦ elim (Bool-cases (k.before i j)) [
      | inl f ↦ rw e (rw f (p, a))
      | inr f ↦ rw e (rw f (a.0, AllValues-insert i v m p a.1))
    ]
  ]

  pub AllValues-remove : (i : K) (m : Map K V) → AllValues m → AllValues (remove i m)
  unfolding remove
  AllValues-remove i [] a = tt
  AllValues-remove i ((j, w) ∷ m) a = elim (Bool-cases (k.beq j i)) [
    | inl e ↦ rw e (AllValues-remove i m a.1)
    | inr e ↦ rw e (a.0, AllValues-remove i m a.1)
  ]

  pub AllValues-lookup : (i : K) (v : V) (m : Map K V) → AllValues m → lookup i m ≡ some v → P v
  unfolding lookup
  AllValues-lookup i v [] a e = absurd (ground arith)
  AllValues-lookup i v ((j, w) ∷ m) a e = elim (Bool-cases (k.beq j i)) [
    | inl f ↦ let q : w ≡ v = cc (rw f at e) in subst P q a.0
    | inr f ↦ AllValues-lookup i v m a.1 (rw f at e)
  ]
