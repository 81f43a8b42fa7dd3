-- ===== src/Prelude/Map.antt =====
-- Ordered maps and sets as association lists sorted by key: `BTreeMap`, `BTreeSet`, and, where the
-- order is not looked at, `HashMap` and `DashMap`.
pub mod Order
pub mod Size
pub mod Values
use Prim.Native.Nat.{ℕ}
use mathlib.Core.Path.{◌≡◌, refl}
use mathlib.Core.Logic.{◌↔◌}
use mathlib.Core.Bool.{Bool, true, false}
use mathlib.Core.Option.{Option, none, some}
use mathlib.Core.List.{List, [], ◌∷◌}
use native.Mathlib.Omega.{arith}
use move_tutorial.Prelude.Tests.{ltb, ◌==◌, ==_iff, if◌then◌else◌}

-- A key type: `Ord` of the source, with the laws of a strict total order.
pub record Key {ℓ} (K : Type ℓ) : Type ℓ where
  pub beq : K → K → Bool
  pub beq_iff : (a b : K) → (beq a b ≡ true) ↔ (a ≡ b)
  pub before : K → K → Bool
  pub before_trans : (a b c : K) → before a b ≡ true → before b c ≡ true → before a c ≡ true
  pub before_irrefl : (a : K) → before a a ≡ false
  pub before_total : (a b : K) → before a b ≡ false → beq a b ≡ false → before b a ≡ true

pub ltb_trans : (a b c : ℕ) → ltb a b ≡ true → ltb b c ≡ true → ltb a c ≡ true
ltb_trans a b c h k = ground arith

pub ltb_irrefl : (a : ℕ) → ltb a a ≡ false
ltb_irrefl a = ground arith

pub ltb_total : (a b : ℕ) → ltb a b ≡ false → (a == b) ≡ false → ltb b a ≡ true
ltb_total a b h k = ground arith

instance abbrev pub nat_key : Key ℕ
nat_key = record {
  beq = ◌==◌;
  beq_iff = ==_iff;
  before = ltb;
  before_trans = ltb_trans;
  before_irrefl = ltb_irrefl;
  before_total = ltb_total;
}

abbrev pub Map {ℓ κ} : Type ℓ → Type κ → Type (ℓ ⊔ κ)
Map K V = List (K × V)

module _ {ℓ κ} {K : Type ℓ} {V : Type κ} ⦃k : Key K⦄ where
  unfoldable pub lookup : K → Map K V → Option V
  lookup i [] = none
  lookup i ((j, v) ∷ m) = if k.beq j i then some v else lookup i m

  unfoldable pub insert : K → V → Map K V → Map K V
  insert i v [] = (i, v) ∷ []
  insert i v ((j, w) ∷ m) =
      let rest = insert i v m in
      if k.beq j i then (i, v) ∷ m else if k.before i j then (i, v) ∷ (j, w) ∷ m else (j, w) ∷ rest

  unfoldable pub remove : K → Map K V → Map K V
  remove i [] = []
  remove i ((j, w) ∷ m) = let rest = remove i m in if k.beq j i then rest else (j, w) ∷ rest

  pub lookup-insert :
      (i j : K) (v : V) (m : Map K V)
      → lookup j (insert i v m) ≡ (if k.beq i j then some v else lookup j m)
  unfolding lookup insert
  lookup-insert i j v [] = refl
  lookup-insert i j v ((l, w) ∷ m) =
      ground (arith, k.beq_iff i j, k.beq_iff l i, k.beq_iff l j, lookup-insert i j v m)

  pub lookup-remove :
      (i j : K) (m : Map K V) → lookup j (remove i m) ≡ (if k.beq i j then none else lookup j m)
  unfolding lookup remove
  lookup-remove i j [] = ground arith
  lookup-remove i j ((l, w) ∷ m) =
      ground (arith, k.beq_iff i j, k.beq_iff l i, k.beq_iff l j, lookup-remove i j m)

  pub remove-insert : (i : K) (v : V) (m : Map K V) → remove i (insert i v m) ≡ remove i m
  unfolding remove insert
  remove-insert i v [] = ground (arith, k.beq_iff i i)
  remove-insert i v ((j, w) ∷ m) = ground (arith, k.beq_iff i i, k.beq_iff j i, remove-insert i v m)

  pub remove_of_none : (i : K) (m : Map K V) → lookup i m ≡ none → remove i m ≡ m
  unfolding remove lookup
  remove_of_none i [] h = refl
  remove_of_none i ((j, w) ∷ m) h = ground (arith, k.beq_iff j i, remove_of_none i m)
