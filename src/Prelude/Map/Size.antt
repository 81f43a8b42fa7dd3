-- ===== src/Prelude/Map/Size.antt =====
-- The number of entries of a sorted map.
use Prim.Native.Nat.{suc}
use mathlib.Core.Path.{◌≡◌, refl, ap}
use mathlib.Core.Logic.{inl, inr}
use mathlib.Core.Option.{none, some}
use mathlib.Core.List.{[], ◌∷◌}
use native.Mathlib.Omega.{arith}
use move_tutorial.Prelude.Tests.{Bool-cases}
use move_tutorial.Prelude.Lists.{length}
use move_tutorial.Prelude.Map.{Key, Map, lookup, insert, remove, remove_of_none}
use move_tutorial.Prelude.Map.Order.{IsSorted, Above-trans, lookup_of_Above}

module _ {ℓ κ} {K : Type ℓ} {V : Type κ} ⦃k : Key K⦄ where
  pub length-insert_of_none :
      (i : K) (v : V) (m : Map K V) → lookup i m ≡ none → length (insert i v m) ≡ suc (length m)
  unfolding insert lookup
  length-insert_of_none i v [] h = refl
  length-insert_of_none i v ((j, w) ∷ m) h = ground (arith, length-insert_of_none i v m)

  pub length-insert_of_some :
      (i : K) (v w : V) (m : Map K V)
      → IsSorted m
      → lookup i m ≡ some w
      → length (insert i v m) ≡ length m
  unfolding insert lookup
  length-insert_of_some i v w [] s h = absurd (ground arith)
  length-insert_of_some i v w ((j, x) ∷ m) s h = elim (Bool-cases (k.beq j i)) [
    | inl e ↦ rw e refl
    | inr e ↦ elim (Bool-cases (k.before i j)) [
      | inl f ↦ absurd (cc (rw e at h, lookup_of_Above i m (Above-trans i j m f s.0)))
      | inr f ↦ rw e (rw f (ap suc (length-insert_of_some i v w m s.1 (rw e at h))))
    ]
  ]

  pub length-remove_of_some :
      (i : K) (w : V) (m : Map K V)
      → IsSorted m
      → lookup i m ≡ some w
      → suc (length (remove i m)) ≡ length m
  unfolding remove lookup
  length-remove_of_some i w [] s h = absurd (ground arith)
  length-remove_of_some i w ((j, x) ∷ m) s h = elim (Bool-cases (k.beq j i)) [
    | inl e ↦ ground (arith, e, k.beq_iff j i, remove_of_none j m (lookup_of_Above j m s.0))
    | inr e ↦ rw e (ap suc (length-remove_of_some i w m s.1 (rw e at h)))
  ]
