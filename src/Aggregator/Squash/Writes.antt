-- ===== src/Aggregator/Squash/Writes.antt =====
-- The squash of write sets in aptos-aggregator/src/transaction.rs.
use move_tutorial.Prelude.{
  true, Option, none, some, [], ◌∷◌, ◌++◌, Result, ok, ◌>>=◌, ◌≡◌, refl, sym, ap, ◌∙◌, arith,
}
use mathlib.Core.Path.{subst, fun_ext}
use move_tutorial.Prelude.Map.{Key, Map, lookup, insert, remove}
use move_tutorial.Aggregator.Delta.{DeltaOp}
use move_tutorial.Aggregator.Squash.{
  WriteOp, creation, modification, deletion, ChangeSet, squash_at, squash_write, squash_writes,
  SquashError, ChangeSetExt, Encoding, new_change_set, squash_change_set,
}
use move_tutorial.Aggregator.Squash.Stored.{
  written, left_by, stored, update, applied, fits, Fit, FitsBase, creation-fits, created-fits,
  modified-fits, deleted-fits, restored-fits, stored-insert, stored-remove, FitsBase-insert,
  FitsBase-remove,
}

module _ {K B : Type 0} ⦃k : Key K⦄ where
  -- One more write, with what it has to leave.
  abbrev Stepped :
      (K → Option B)
      → K
      → WriteOp B
      → Map K DeltaOp × Map K (WriteOp B)
      → Result SquashError (Map K DeltaOp × Map K (WriteOp B))
      → Type 0
  Stepped base key w (deltas, writes) r =
      (out : Map K DeltaOp × Map K (WriteOp B)) × (r ≡ ok out)
      × ((i : K) → stored base out.1 i ≡ update key (written w) (stored base writes) i)
      × FitsBase base out.1

  inserts :
      (base : K → Option B) (key : K) (v w : WriteOp B) (deltas : Map K DeltaOp)
      (writes : Map K (WriteOp B)) (ds : Map K DeltaOp)
      → written v ≡ written w
      → FitsBase base writes
      → fits v (base key) ≡ true
      → Stepped base key w (deltas, writes) (ok (ds, insert key v writes))
  inserts base key v w deltas writes ds h new fresh = (
    (ds, insert key v writes),
    refl,
    stored-insert base key v w writes h,
    FitsBase-insert base key v writes new fresh,
  )

  squash_at_lem :
      (base : K → Option B) (key : K) (w : WriteOp B) (deltas : Map K DeltaOp)
      (writes : Map K (WriteOp B)) (r : Option (WriteOp B))
      → lookup key writes ≡ r
      → FitsBase base writes
      → fits w (left_by r (base key)) ≡ true
      → Stepped base key w (deltas, writes) (squash_at key w r (deltas, writes))
  unfolding FitsBase
  squash_at_lem base key w deltas writes none e new h =
      inserts base key w w deltas writes (remove key deltas) refl new h
  squash_at_lem base key (creation d) deltas writes (some (creation b)) e new h =
      absurd (ground arith)
  squash_at_lem base key (modification d) deltas writes (some (creation b)) e new h =
      inserts base key (creation d) (modification d) deltas writes deltas refl new
        (created-fits b d (base key) (new key (creation b) e))
  squash_at_lem base key deletion deltas writes (some (creation b)) e new h = (
    (deltas, remove key writes),
    refl,
    stored-remove base key writes (creation-fits b (base key) (new key (creation b) e)),
    FitsBase-remove base key writes new,
  )
  squash_at_lem base key (creation d) deltas writes (some (modification b)) e new h =
      absurd (ground arith)
  squash_at_lem base key (modification d) deltas writes (some (modification b)) e new h =
      inserts base key (modification d) (modification d) deltas writes deltas refl new
        (modified-fits b d (base key) (new key (modification b) e))
  squash_at_lem base key deletion deltas writes (some (modification b)) e new h =
      inserts base key deletion deletion deltas writes deltas refl new
        (deleted-fits b (base key) (new key (modification b) e))
  squash_at_lem base key (creation d) deltas writes (some deletion) e new h =
      inserts base key (modification d) (creation d) deltas writes deltas refl new
        (restored-fits d (base key) (new key deletion e))
  squash_at_lem base key (modification d) deltas writes (some deletion) e new h =
      absurd (ground arith)
  squash_at_lem base key deletion deltas writes (some deletion) e new h = absurd (ground arith)

  squash_write_lem :
      (base : K → Option B) (key : K) (w : WriteOp B) (deltas : Map K DeltaOp)
      (writes : Map K (WriteOp B))
      → FitsBase base writes
      → fits w (stored base writes key) ≡ true
      → Stepped base key w (deltas, writes) (squash_write key w (deltas, writes))
  unfolding squash_write stored
  squash_write_lem base key w deltas writes new h =
      squash_at_lem base key w deltas writes (lookup key writes) refl new h

  squash_writes-applied :
      (base : K → Option B) (other : Map K (WriteOp B)) (deltas : Map K DeltaOp)
      (writes : Map K (WriteOp B))
      → FitsBase base writes
      → Fit other (stored base writes)
      → (out : Map K DeltaOp × Map K (WriteOp B)) × (squash_writes other (deltas, writes) ≡ ok out)
        × FitsBase base out.1
        × ((i : K) → stored base out.1 i ≡ applied other (stored base writes) i)
  unfolding squash_writes applied Fit
  squash_writes-applied base [] deltas writes new h = ((deltas, writes), refl, new, λ i. refl)
  squash_writes-applied base ((key, w) ∷ other) deltas writes new h =
      let next = squash_write_lem base key w deltas writes new h.0 in
      let same = fun_ext next.2 in
      let rest =
        squash_writes-applied base other next.0.0 next.0.1 next.3
          (subst (Fit other) (sym same) h.1) in
      (
        rest.0,
        ap (λ r. r >>= squash_writes other) next.1 ∙ rest.1,
        rest.2,
        λ i. rest.3 i ∙ ap (λ f. applied other f i) same,
      )

module _ {K B E : Type 0} ⦃k : Key K⦄ (c : Encoding K B E) where
  -- If the writes of the first change set create what is not in storage and change what is, and
  -- each write of the second fits what the writes before it leave, then none of the writes is
  -- refused: the result is built, by `ChangeSet::new`, from the events of both in order and from
  -- writes that again create what is not in storage and change what is, and that leave there what
  -- the writes of the first and then those of the second leave, one after the other.
  pub squash_change_set-applied :
      (base : K → Option B) (self : ChangeSetExt K B E) (other : ChangeSet K B E)
      → FitsBase base self.change_set.write_set
      → Fit other.write_set (stored base self.change_set.write_set)
      → (out : Map K DeltaOp × Map K (WriteOp B)) × (squash_change_set c self other
          ≡ new_change_set c out.0
              (record { write_set = out.1; events = self.change_set.events ++ other.events })
              self.gas_feature_version)
        × FitsBase base out.1
        × ((i : K)
            → stored base out.1 i
              ≡ applied other.write_set (stored base self.change_set.write_set) i)
  unfolding squash_change_set
  squash_change_set-applied base self other new h =
      let r =
        squash_writes-applied base other.write_set self.delta_change_set self.change_set.write_set
          new h in
      (
        r.0,
        ap
            (λ x. x >>= (λ out.
              new_change_set c out.0
                (record { write_set = out.1; events = self.change_set.events ++ other.events })
                self.gas_feature_version))
            r.1,
        r.2,
        r.3,
      )
