-- ===== src/Prelude/Map/Order.antt =====
-- Maps whose keys ascend: what `insert` and `remove` keep.
use mathlib.Core.Logic.{inl, inr}
use move_tutorial.Prelude.Tests.{Bool-cases}
use mathlib.Core.Path.{◌≡◌, refl}
use mathlib.Core.Bool.{true, false}
use mathlib.Core.Option.{none}
use mathlib.Core.List.{[], ◌∷◌}
use native.Mathlib.Omega.{arith}
use move_tutorial.Prelude.Map.{Key, Map, lookup, insert, remove}

beq_sym {ℓ} : {K : Type ℓ} ⦃k : Key K⦄ (i j : K) → k.beq i j ≡ false → k.beq j i ≡ false
beq_sym ⦃k⦄ i j e = ground (arith, k.beq_iff i j, k.beq_iff j i)

module _ {ℓ κ} {K : Type ℓ} {V : Type κ} ⦃k : Key K⦄ where
  -- Every key of the map comes after `i`.
  abbrev pub Above : K → Map K V → Type ℓ
  Above i [] = Unit
  Above i ((j, v) ∷ m) = (k.before i j ≡ true) × Above i m

  abbrev pub IsSorted : Map K V → Type ℓ
  IsSorted [] = Unit
  IsSorted ((j, v) ∷ m) = Above j m × IsSorted m

  pub Above-trans : (i j : K) (m : Map K V) → k.before i j ≡ true → Above j m → Above i m
  Above-trans i j [] h a = tt
  Above-trans i j ((l, v) ∷ m) h a = (k.before_trans i j l h a.0, Above-trans i j m h a.1)

  pub lookup_of_Above : (i : K) (m : Map K V) → Above i m → lookup i m ≡ none
  unfolding lookup
  lookup_of_Above i [] a = refl
  lookup_of_Above i ((j, v) ∷ m) a =
      ground (arith, lookup_of_Above i m, k.beq_iff j i, k.before_irrefl i, a.0)

  pub Above-insert :
      (i j : K) (v : V) (m : Map K V) → k.before i j ≡ true → Above i m → Above i (insert j v m)
  unfolding insert
  Above-insert i j v [] h a = (h, tt)
  Above-insert i j v ((l, w) ∷ m) h a = elim (Bool-cases (k.beq l j)) [
    | inl e ↦ rw e (h, a.1)
    | inr e ↦ elim (Bool-cases (k.before j l)) [
      | inl f ↦ rw e (rw f (h, a))
      | inr f ↦ rw e (rw f (a.0, Above-insert i j v m h a.1))
    ]
  ]

  pub insert-IsSorted : (i : K) (v : V) (m : Map K V) → IsSorted m → IsSorted (insert i v m)
  unfolding insert
  insert-IsSorted i v [] s = (tt, tt)
  insert-IsSorted i v ((j, w) ∷ m) s = elim (Bool-cases (k.beq j i)) [
    | inl e ↦ rw e (rw ((k.beq_iff j i).0 e) at s)
    | inr e ↦ elim (Bool-cases (k.before i j)) [
      | inl f ↦ rw e (rw f ((f, Above-trans i j m f s.0), s))
      | inr f ↦ rw e (
          rw f (
            Above-insert j i v m (k.before_total i j f (beq_sym j i e)) s.0,
            insert-IsSorted i v m s.1,
          ))
    ]
  ]

  pub Above-remove : (i j : K) (m : Map K V) → Above i m → Above i (remove j m)
  unfolding remove
  Above-remove i j [] a = tt
  Above-remove i j ((l, w) ∷ m) a = elim (Bool-cases (k.beq l j)) [
    | inl e ↦ rw e (Above-remove i j m a.1)
    | inr e ↦ rw e (a.0, Above-remove i j m a.1)
  ]

  pub remove-IsSorted : (i : K) (m : Map K V) → IsSorted m → IsSorted (remove i m)
  unfolding remove
  remove-IsSorted i [] s = tt
  remove-IsSorted i ((j, w) ∷ m) s = elim (Bool-cases (k.beq j i)) [
    | inl e ↦ rw e (remove-IsSorted i m s.1)
    | inr e ↦ rw e (Above-remove j i m s.0, remove-IsSorted i m s.1)
  ]
