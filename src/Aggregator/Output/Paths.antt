-- ===== src/Aggregator/Output/Paths.antt =====
-- The two ways from an output with deltas to an output without, in
-- aptos-aggregator/src/transaction.rs.
use move_tutorial.Prelude.{bind-eq-ok, List, [], ◌∷◌, ok, ◌≡◌, sym, ap, suc, ◌∙◌, arith, length}
use mathlib.Core.Path.{subst}
use move_tutorial.Prelude.Map.{Key, Map}
use move_tutorial.Prelude.Map.Order.{IsSorted, Above}
use move_tutorial.Aggregator.Delta.{DeltaOp}
use move_tutorial.Aggregator.Squash.{WriteOp}
use move_tutorial.Aggregator.Output.{
  from_output, TransactionOutput, Platform, StateView, TransactionOutputExt, materialize_deltas,
  try_into_write_op, try_into_write_set_mut, into_transaction_output, output_with_delta_writes,
}

module _ {K B : Type 0} ⦃k : Key K⦄ (p : Platform K B) where
  -- A write set made of writes at distinct keys, in order, has that many.
  unfoldable pub CountsWrites : Type 0
  CountsWrites = (l : Map K (WriteOp B)) → IsSorted l → p.len (p.new_set l) ≡ length l

  materialize_deltas_cons :
      (key : K) (op : DeltaOp) (deltas : Map K DeltaOp) (view : StateView K B)
      (ws : List (K × WriteOp B))
      → materialize_deltas p ((key, op) ∷ deltas) view ≡ ok ws
      → (w : WriteOp B) × (rest : List (K × WriteOp B)) × (materialize_deltas p deltas view
          ≡ ok rest)
        × (ws ≡ (key, w) ∷ rest)
  unfolding materialize_deltas
  materialize_deltas_cons key op deltas view ws h =
      let first = bind-eq-ok (try_into_write_op p op view key) _ ws h in
      let rest = bind-eq-ok (materialize_deltas p deltas view) _ ws first.2 in
      (first.0, rest.0, rest.1, cc rest.2)

  materialize_deltas-Above :
      (i : K) (deltas : Map K DeltaOp) (view : StateView K B) (ws : List (K × WriteOp B))
      → Above i deltas
      → materialize_deltas p deltas view ≡ ok ws
      → Above i ws
  unfolding materialize_deltas
  materialize_deltas-Above i [] view ws a h = let e : [] ≡ ws = cc h in subst (Above i) e tt
  materialize_deltas-Above i ((key, op) ∷ deltas) view ws a h =
      let r = materialize_deltas_cons key op deltas view ws h in
      subst (Above i) (sym r.3) (a.0, materialize_deltas-Above i deltas view r.1 a.1 r.2)

  materialize_deltas-IsSorted :
      (deltas : Map K DeltaOp) (view : StateView K B) (ws : List (K × WriteOp B))
      → IsSorted deltas
      → materialize_deltas p deltas view ≡ ok ws
      → IsSorted ws
  unfolding materialize_deltas
  materialize_deltas-IsSorted [] view ws a h = let e : [] ≡ ws = cc h in subst IsSorted e tt
  materialize_deltas-IsSorted ((key, op) ∷ deltas) view ws a h =
      let r = materialize_deltas_cons key op deltas view ws h in
      subst IsSorted (sym r.3) (
        materialize_deltas-Above key deltas view r.1 a.0 r.2,
        materialize_deltas-IsSorted deltas view r.1 a.1 r.2,
      )

  length-materialize_deltas :
      (deltas : Map K DeltaOp) (view : StateView K B) (ws : List (K × WriteOp B))
      → materialize_deltas p deltas view ≡ ok ws
      → length ws ≡ length deltas
  unfolding materialize_deltas
  length-materialize_deltas [] view ws h = ground arith
  length-materialize_deltas ((key, op) ∷ deltas) view ws h =
      let r = materialize_deltas_cons key op deltas view ws h in
      ap length r.3 ∙ ap suc (length-materialize_deltas deltas view r.1 r.2)

  module _ {E : Type 0} where
    -- If a write set made of writes at ascending keys has as many writes, the deltas stand at
    -- ascending keys, and the deltas can be made writes on the state view, then the output with
    -- those writes is the output that `into_transaction_output` returns on that state view,
    -- panics of the merge included.
    pub into_transaction_output-output_with_delta_writes :
        (self : TransactionOutputExt p E) (view : StateView K B) (ws : p.WriteSetMut)
        → CountsWrites
        → IsSorted self.delta_change_set
        → try_into_write_set_mut p self.delta_change_set view ≡ ok ws
        → into_transaction_output p self view ≡ output_with_delta_writes p self ws
    unfolding into_transaction_output output_with_delta_writes try_into_write_set_mut CountsWrites
    into_transaction_output-output_with_delta_writes self view ws counts s h =
        let r = bind-eq-ok (materialize_deltas p self.delta_change_set view) _ ws h in
        let same : p.len ws ≡ length self.delta_change_set =
          ap p.len (cc r.2)
          ∙ counts r.0 (materialize_deltas-IsSorted self.delta_change_set view r.0 s r.1)
          ∙ length-materialize_deltas self.delta_change_set view r.0 r.1 in
        rw h (rw same (ground arith))

    -- An output without deltas is returned as it is.
    into_transaction_output-from_output :
        (output : TransactionOutput p E) (view : StateView K B)
        → into_transaction_output p (from_output p output) view ≡ ok output
    unfolding into_transaction_output from_output
    into_transaction_output-from_output output view = ground arith
