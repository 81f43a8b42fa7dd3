-- ===== src/Executor/Block/Commit.antt =====
-- The outputs of a block, compared with its transactions' statuses in their order.
use move_tutorial.Prelude.{
  ℕ, zero, suc, ◌+◌, ◌≡◌, ◌∙◌, refl, sym, ap, arith, false, Option, none, some, Result, ok, err,
  List, [], ◌∷◌, ◌++◌, map, length, get_elem?, set, replicate,
}
use move_tutorial.Prelude.Options.{◌>>=◌}
use move_tutorial.Executor.{ExecutionStatus, success, abort, skip_rest, Error, TransactionOutput}
use move_tutorial.Executor.LastInputOutput.{TxnLastInputOutput, take_output}
use move_tutorial.Executor.Block.{
  push_status, final_results, resize_with, finish, outputs_unless, block_outputs,
}

abbrev with_output : {E T : Type 0} → T → Result E (List T) → Result E (List T)
with_output t (ok ts) = ok (t ∷ ts)
with_output t (err e) = err e

-- The specification: the outputs in order, skipped ones after a `skip_rest`, or the first error.
abbrev pub commit :
    {K V T E : Type 0}
    → TransactionOutput K V T
    → List (ExecutionStatus T (Error E))
    → Result (Error E) (List T)
commit out [] = ok []
commit out (success t ∷ rest) = with_output t (commit out rest)
commit out (skip_rest t ∷ rest) = ok (t ∷ replicate (length rest) out.skip_output)
commit out (abort e ∷ rest) = err e

-- What the loop collects.
abbrev collected : {T E : Type 0} → List (ExecutionStatus T (Error E)) → List T × Option (Error E)
collected [] = ([], none)
collected (success t ∷ rest) = (t ∷ (collected rest).0, (collected rest).1)
collected (skip_rest t ∷ rest) = (t ∷ [], none)
collected (abort e ∷ rest) = ([], some e)

module _ {A : Type 0} where
  get_elem?-middle : (xs ys : List A) (a : A) → get_elem? (xs ++ a ∷ ys) (length xs) ≡ some a
  get_elem?-middle [] ys a = refl
  get_elem?-middle (x ∷ xs) ys a = get_elem?-middle xs ys a

  set-middle : (xs ys : List A) (a b : A) → set (xs ++ a ∷ ys) (length xs) b ≡ (xs ++ b ∷ []) ++ ys
  set-middle [] ys a b = refl
  set-middle (x ∷ xs) ys a b = ap (λ l. x ∷ l) (set-middle xs ys a b)

  length-snoc : (xs : List A) (a : A) → length (xs ++ a ∷ []) ≡ length xs + 1
  length-snoc [] a = refl
  length-snoc (x ∷ xs) a = omega (arith, length-snoc xs a)

resize_with-nil : {A : Type 0} (n : ℕ) (a : A) → resize_with [] n a ≡ replicate n a
resize_with-nil zero a = refl
resize_with-nil (suc n) a = ap (λ l. a ∷ l) (resize_with-nil n a)

module _ {K V T E : Type 0} (out : TransactionOutput K V T) where
  finish-cons :
      (t : T) (n : ℕ) (c : List T × Option (Error E))
      → finish out (suc n) (t ∷ c.0, c.1) ≡ with_output t (finish out n c)
  finish-cons t n (ts, none) = refl
  finish-cons t n (ts, some e) = refl

  finish-collected :
      (rest : List (ExecutionStatus T (Error E)))
      → finish out (length rest) (collected rest) ≡ commit out rest
  finish-collected [] = refl
  finish-collected (success t ∷ rest) =
      finish-cons t (length rest) (collected rest) ∙ ap (with_output t) (finish-collected rest)
  finish-collected (skip_rest t ∷ rest) =
      ap (λ l. ok (t ∷ l)) (resize_with-nil (length rest) out.skip_output)
  finish-collected (abort e ∷ rest) = refl

module _ {K T E P : Type 0} where
  take_output-at :
      (s : TxnLastInputOutput K T E P) (i : ℕ) (x : ExecutionStatus T (Error E))
      → get_elem? s.outputs i ≡ some (some x)
      → take_output s i ≡ some (x, record s { outputs = set s.outputs i none })
  unfolding take_output
  take_output-at s i x e =
      ap
        (λ o. o >>= λ stored.
          stored >>= λ output. some (output, record s { outputs = set s.outputs i none }))
        e

  final_results-collected :
      (rest : List (ExecutionStatus T (Error E)))
      (taken : List (Option (ExecutionStatus T (Error E)))) (s : TxnLastInputOutput K T E P)
      → s.outputs ≡ taken ++ map (λ x. some x) rest
      → final_results (length rest) (length taken) s ≡ some (collected rest)
  unfolding final_results
  final_results-collected [] taken s e = refl
  final_results-collected (x ∷ rest) taken s e =
      let u : TxnLastInputOutput K T E P = record s {
        outputs = set s.outputs (length taken) none;
      } in
      let here : take_output s (length taken) ≡ some (x, u) = take_output-at s (length taken) x (
        ap (λ l. get_elem? l (length taken)) e
        ∙ get_elem?-middle taken (map (λ y. some y) rest) (some x)) in
      let left : u.outputs ≡ (taken ++ none ∷ []) ++ map (λ y. some y) rest =
        ap (λ l. set l (length taken) none) e
        ∙ set-middle taken (map (λ y. some y) rest) (some x) none in
      let next : final_results (length rest) (length taken + 1) u ≡ some (collected rest) =
        ap (λ n. final_results (length rest) n u) (sym (length-snoc taken none))
        ∙ final_results-collected rest (taken ++ none ∷ []) u left in
      ap (λ o. o >>= push_status (final_results (length rest) (length taken + 1))) here
      ∙ pushed x rest u next
    where
      pushed :
          (x : ExecutionStatus T (Error E)) (rest : List (ExecutionStatus T (Error E)))
          (u : TxnLastInputOutput K T E P)
          → final_results (length rest) (length taken + 1) u ≡ some (collected rest)
          → push_status (final_results (length rest) (length taken + 1)) (x, u)
            ≡ some (collected (x ∷ rest))
      pushed (success t) rest u next = ap (λ o. o >>= λ c. some (t ∷ c.0, c.1)) next
      pushed (skip_rest t) rest u next = refl
      pushed (abort e) rest u next = refl

module _ {K V T E P : Type 0} (out : TransactionOutput K V T) where
  -- When every transaction of a block has recorded an output and no modules may race, then taking
  -- the outputs does not panic and gives what the statuses say in their order: the outputs up to the
  -- first that skips the rest, which is followed by skipped outputs for all others, or the error of
  -- the first transaction that aborts, if none before it skips.
  pub block_outputs-commit :
      (statuses : List (ExecutionStatus T (Error E))) (s : TxnLastInputOutput K T E P)
      → s.outputs ≡ map (λ x. some x) statuses
      → s.module_read_write_intersection ≡ false
      → block_outputs out (length statuses) s ≡ some (commit out statuses)
  unfolding block_outputs
  block_outputs-commit statuses s e calm =
      ap (λ b. outputs_unless out b (length statuses) s) calm
      ∙ ap (λ o. o >>= λ c. some (finish out (length statuses) c))
          (final_results-collected statuses [] s e)
      ∙ ap (λ r. some r) (finish-collected out statuses)
