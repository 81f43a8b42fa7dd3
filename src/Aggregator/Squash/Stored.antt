-- ===== src/Aggregator/Squash/Stored.antt =====
-- The writes of aptos-aggregator/src/transaction.rs as what they leave in the storage below them.
use move_tutorial.Prelude.{
  Bool, true, false, Option, none, some, [], ◌∷◌, if◌then◌else◌, ◌≡◌, refl, arith,
}
use move_tutorial.Prelude.Map.{Key, Map, lookup, insert, remove, lookup-insert, lookup-remove}
use move_tutorial.Aggregator.Squash.{WriteOp, creation, modification, deletion}

abbrev pub written : {B : Type 0} → WriteOp B → Option B
written (creation b) = some b
written (modification b) = some b
written deletion = none

abbrev pub left_by : {B : Type 0} → Option (WriteOp B) → Option B → Option B
left_by none o = o
left_by (some w) o = written w

abbrev pub fits : {B : Type 0} → WriteOp B → Option B → Bool
fits (creation b) none = true
fits (creation b) (some c) = false
fits (modification b) none = false
fits (modification b) (some c) = true
fits deletion none = false
fits deletion (some c) = true

pub creation-fits : {B : Type 0} (b : B) (o : Option B) → fits (creation b) o ≡ true → o ≡ none
creation-fits b none h = refl
creation-fits b (some o) h = absurd (ground arith)

pub created-fits :
    {B : Type 0} (b d : B) (o : Option B) → fits (creation b) o ≡ true → fits (creation d) o ≡ true
created-fits b d none h = h
created-fits b d (some o) h = h

pub modified-fits :
    {B : Type 0} (b d : B) (o : Option B)
    → fits (modification b) o ≡ true
    → fits (modification d) o ≡ true
modified-fits b d none h = h
modified-fits b d (some o) h = h

pub deleted-fits :
    {B : Type 0} (b : B) (o : Option B) → fits (modification b) o ≡ true → fits deletion o ≡ true
deleted-fits b none h = h
deleted-fits b (some o) h = h

pub restored-fits :
    {B : Type 0} (d : B) (o : Option B) → fits deletion o ≡ true → fits (modification d) o ≡ true
restored-fits d none h = h
restored-fits d (some o) h = h

module _ {K B : Type 0} ⦃k : Key K⦄ where
  -- What is stored after the writes.
  unfoldable pub stored : (K → Option B) → Map K (WriteOp B) → K → Option B
  stored base writes i = left_by (lookup i writes) (base i)

  unfoldable pub update : K → Option B → (K → Option B) → K → Option B
  update key o f i = if k.beq key i then o else f i

  -- The writes, one at a time.
  unfoldable pub applied : Map K (WriteOp B) → (K → Option B) → K → Option B
  applied [] f = f
  applied ((key, w) ∷ other) f = applied other (update key (written w) f)

  -- Each write creates what is not there, or changes what is.
  unfoldable pub Fit : Map K (WriteOp B) → (K → Option B) → Type 0
  Fit [] f = Unit
  Fit ((key, w) ∷ other) f = (fits w (f key) ≡ true) × Fit other (update key (written w) f)

  -- What the writes create is not in storage, and what they change is.
  unfoldable pub FitsBase : (K → Option B) → Map K (WriteOp B) → Type 0
  FitsBase base writes = (i : K) (w : WriteOp B) → lookup i writes ≡ some w → fits w (base i) ≡ true

  pub stored-insert :
      (base : K → Option B) (key : K) (v w : WriteOp B) (writes : Map K (WriteOp B))
      → written v ≡ written w
      → (i : K)
      → stored base (insert key v writes) i ≡ update key (written w) (stored base writes) i
  unfolding stored update
  stored-insert base key v w writes h i =
      ground (arith, k.beq_iff key i, lookup-insert key i v writes, h)

  pub stored-remove :
      (base : K → Option B) (key : K) (writes : Map K (WriteOp B))
      → base key ≡ none
      → (i : K) → stored base (remove key writes) i ≡ update key none (stored base writes) i
  unfolding stored update
  stored-remove base key writes h i = ground (arith, k.beq_iff key i, lookup-remove key i writes, h)

  pub FitsBase-insert :
      (base : K → Option B) (key : K) (v : WriteOp B) (writes : Map K (WriteOp B))
      → FitsBase base writes
      → fits v (base key) ≡ true
      → FitsBase base (insert key v writes)
  unfolding FitsBase
  FitsBase-insert base key v writes new fresh i w e =
      ground (arith, k.beq_iff key i, lookup-insert key i v writes, new i w, fresh, e)

  pub FitsBase-remove :
      (base : K → Option B) (key : K) (writes : Map K (WriteOp B))
      → FitsBase base writes
      → FitsBase base (remove key writes)
  unfolding FitsBase
  FitsBase-remove base key writes new i w e =
      ground (arith, k.beq_iff key i, lookup-remove key i writes, new i w, e)
