-- ===== src/Aggregator/Squash/Disjoint.antt =====
-- That no key has both a write and a delta, in `ChangeSetExt` of aptos-aggregator/src/transaction.rs.
use move_tutorial.Prelude.{
  ℕ, Option, none, some, [], ◌∷◌, ok, bind-eq-ok, Bool-cases, inl, inr, ◌≡◌, refl, arith,
}
use mathlib.Core.Path.{subst}
use move_tutorial.Prelude.Map.{Key, Map, lookup, insert, remove, lookup-insert, lookup-remove}
use move_tutorial.Aggregator.Delta.{DeltaOp}
use move_tutorial.Aggregator.Squash.{
  WriteOp, ChangeSet, ChangeSetExt, Encoding, new_change_set, merged, squash_delta_on, squash_delta,
  squash_delta_at, squash_deltas, squash_delta_change_set, squash_op, put_back, squash_at,
  squash_write, squash_writes, squash_change_set, squash_ext,
}

module _ {K B : Type 0} ⦃k : Key K⦄ where
  unfoldable pub Apart : Map K DeltaOp × Map K (WriteOp B) → Type 0
  Apart (deltas, writes) =
      (i : K) (w : WriteOp B) → lookup i writes ≡ some w → lookup i deltas ≡ none

  -- A write where there is no delta.
  Apart-insert_write :
      (key : K) (v : WriteOp B) (deltas : Map K DeltaOp) (writes : Map K (WriteOp B))
      → Apart (deltas, writes)
      → lookup key deltas ≡ none
      → Apart (deltas, insert key v writes)
  unfolding Apart
  Apart-insert_write key v deltas writes apart free i w e =
      ground (arith, k.beq_iff key i, lookup-insert key i v writes, apart i w, free, e)

  Apart-insert_delta :
      (key : K) (d : DeltaOp) (deltas : Map K DeltaOp) (writes : Map K (WriteOp B))
      → Apart (deltas, writes)
      → lookup key writes ≡ none
      → Apart (insert key d deltas, writes)
  unfolding Apart
  Apart-insert_delta key d deltas writes apart free i w e =
      ground (arith, k.beq_iff key i, lookup-insert key i d deltas, apart i w, free, e)

  Apart-remove_delta :
      (key : K) (deltas : Map K DeltaOp) (writes : Map K (WriteOp B))
      → Apart (deltas, writes)
      → Apart (remove key deltas, writes)
  unfolding Apart
  Apart-remove_delta key deltas writes apart i w e =
      ground (arith, k.beq_iff key i, lookup-remove key i deltas, apart i w, e)

  Apart-remove_write :
      (key : K) (deltas : Map K DeltaOp) (writes : Map K (WriteOp B))
      → Apart (deltas, writes)
      → Apart (deltas, remove key writes)
  unfolding Apart
  Apart-remove_write key deltas writes apart i w e =
      ground (arith, k.beq_iff key i, lookup-remove key i writes, apart i w, e)

  put_back-Apart :
      (key : K) (r : WriteOp B) (new : Option (Option (WriteOp B)))
      (state out : Map K DeltaOp × Map K (WriteOp B))
      → Apart state
      → lookup key state.1 ≡ some r
      → put_back key new state ≡ ok out
      → Apart out
  unfolding Apart
  put_back-Apart key r none state out apart e h = absurd (ground arith)
  put_back-Apart key r (some none) state out apart e h =
      let q : (state.0, remove key state.1) ≡ out = cc h in
      subst Apart q (Apart-remove_write key state.0 state.1 apart)
  put_back-Apart key r (some (some w)) state out apart e h =
      let q : (state.0, insert key w state.1) ≡ out = cc h in
      subst Apart q (Apart-insert_write key w state.0 state.1 apart (apart key r e))

  squash_at-Apart :
      (key : K) (op : WriteOp B) (r : Option (WriteOp B))
      (state out : Map K DeltaOp × Map K (WriteOp B))
      → Apart state
      → lookup key state.1 ≡ r
      → squash_at key op r state ≡ ok out
      → Apart out
  squash_at-Apart key op none state out apart e h =
      let q : (remove key state.0, insert key op state.1) ≡ out = cc h in
      subst Apart q (
        Apart-insert_write key op (remove key state.0) state.1
          (Apart-remove_delta key state.0 state.1 apart)
          (ground (arith, k.beq_iff key key, lookup-remove key key state.0)))
  squash_at-Apart key op (some r) state out apart e h =
      put_back-Apart key r (squash_op r op) state out apart e h

  squash_writes-Apart :
      (other : Map K (WriteOp B)) (state out : Map K DeltaOp × Map K (WriteOp B))
      → Apart state
      → squash_writes other state ≡ ok out
      → Apart out
  unfolding squash_writes squash_write
  squash_writes-Apart [] state out apart h = let q : state ≡ out = cc h in subst Apart q apart
  squash_writes-Apart ((key, op) ∷ other) state out apart h =
      let first = bind-eq-ok (squash_write key op state) _ out h in
      squash_writes-Apart other first.0 out
        (squash_at-Apart key op (lookup key state.1) state first.0 apart refl first.1) first.2

module _ {K B E : Type 0} ⦃k : Key K⦄ (c : Encoding K B E) where
  squash_delta_at-Apart :
      (key : K) (op : DeltaOp) (r : Option (WriteOp B))
      (state out : Map K DeltaOp × Map K (WriteOp B))
      → Apart state
      → lookup key state.1 ≡ r
      → squash_delta_at c key op r state ≡ ok out
      → Apart out
  unfolding Apart
  squash_delta_at-Apart key op none state out apart e h =
      let d = bind-eq-ok (merged op (lookup key state.0)) _ out h in
      let q : (insert key d.0 state.0, state.1) ≡ out = cc d.2 in
      subst Apart q (Apart-insert_delta key d.0 state.0 state.1 apart e)
  squash_delta_at-Apart key op (some r) state out apart e h =
      let w = bind-eq-ok (squash_delta_on c op r) _ out h in
      let q : (state.0, insert key w.0 state.1) ≡ out = cc w.2 in
      subst Apart q (Apart-insert_write key w.0 state.0 state.1 apart (apart key r e))

  squash_deltas-Apart :
      (other : Map K DeltaOp) (state out : Map K DeltaOp × Map K (WriteOp B))
      → Apart state
      → squash_deltas c other state ≡ ok out
      → Apart out
  unfolding squash_deltas squash_delta
  squash_deltas-Apart [] state out apart h = let q : state ≡ out = cc h in subst Apart q apart
  squash_deltas-Apart ((key, op) ∷ other) state out apart h =
      let first = bind-eq-ok (squash_delta c key op state) _ out h in
      squash_deltas-Apart other first.0 out
        (squash_delta_at-Apart key op (lookup key state.1) state first.0 apart refl first.1) first.2

  abbrev pub HasApart : ChangeSetExt K B E → Type 0
  HasApart e = Apart (e.delta_change_set, e.change_set.write_set)

  new_change_set-HasApart :
      (deltas : Map K DeltaOp) (change_set : ChangeSet K B E) (v : ℕ) (out : ChangeSetExt K B E)
      → Apart (deltas, change_set.write_set)
      → new_change_set c deltas change_set v ≡ ok out
      → HasApart out
  new_change_set-HasApart deltas change_set v out apart h =
      elim (Bool-cases (c.accepts change_set v)) [
        | inl e ↦
            let q : record {
              delta_change_set = deltas;
              change_set = change_set;
              gas_feature_version = v;
            }
                ≡ out =
              cc (rw e at h) in
            subst HasApart q apart
        | inr e ↦ absurd (cc (rw e at h))
      ]

  squash_change_set-HasApart :
      (self : ChangeSetExt K B E) (other : ChangeSet K B E) (out : ChangeSetExt K B E)
      → HasApart self
      → squash_change_set c self other ≡ ok out
      → HasApart out
  unfolding squash_change_set
  squash_change_set-HasApart self other out apart h =
      let r =
        bind-eq-ok
          (squash_writes other.write_set (self.delta_change_set, self.change_set.write_set)) _ out
          h in
      new_change_set-HasApart r.0.0 _ self.gas_feature_version out
        (squash_writes-Apart other.write_set (self.delta_change_set, self.change_set.write_set) r.0
          apart r.1)
        r.2

  squash_delta_change_set-HasApart :
      (self : ChangeSetExt K B E) (other : Map K DeltaOp) (out : ChangeSetExt K B E)
      → HasApart self
      → squash_delta_change_set c self other ≡ ok out
      → HasApart out
  unfolding squash_delta_change_set
  squash_delta_change_set-HasApart self other out apart h =
      let r =
        bind-eq-ok (squash_deltas c other (self.delta_change_set, self.change_set.write_set)) _ out
          h in
      new_change_set-HasApart r.0.0 _ self.gas_feature_version out
        (squash_deltas-Apart other (self.delta_change_set, self.change_set.write_set) r.0 apart r.1)
        r.2

  -- If no key has both a write and a delta in a change set, and squashing any other change set onto
  -- it succeeds, then no key has both a write and a delta in the result.
  pub squash_ext-HasApart :
      (self other out : ChangeSetExt K B E)
      → HasApart self
      → squash_ext c self other ≡ ok out
      → HasApart out
  unfolding squash_ext
  squash_ext-HasApart self other out apart h =
      let r = bind-eq-ok (squash_change_set c self other.change_set) _ out h in
      squash_delta_change_set-HasApart r.0 other.delta_change_set out
        (squash_change_set-HasApart self other.change_set r.0 apart r.1) r.2
