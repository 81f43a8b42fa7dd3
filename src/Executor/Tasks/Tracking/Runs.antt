-- ===== src/Executor/Tasks/Tracking/Runs.antt =====
-- An execution taken apart: the steps of `execute` in parallel-executor/src/executor.rs, and what they
-- leave in the store and the record.
use mathlib.Core.Path.{subst}
use move_tutorial.Prelude.{
  refl, ℕ, ◌<◌, ◌≡◌, ◌∙◌, sym, ap, arith, false, Option, none, some, List, length, get_elem?, set,
  get_elem?-set_self,
}
use move_tutorial.Prelude.Options.{>>=-eq-some}
use move_tutorial.Prelude.Map.{Key, nat_key, lookup}
use move_tutorial.Scheduler.{TxnIndex, Version, SchedulerTask}
use move_tutorial.Scheduler.Tasks.{finish_execution}
use move_tutorial.Executor.{
  ExecutionStatus, success, abort, skip_rest, Error, user_error, ModulePath, TransactionOutput,
}
use move_tutorial.Executor.LastInputOutput.{
  ReadDescriptor, TxnLastInputOutput, Set, store, modified_keys, record_execution, check_modules,
  read_modules, written_modules,
}
use move_tutorial.Executor.Tasks.{Updates, Shared, apply_output, apply_updates, delete_all, execute}
use move_tutorial.Executor.Tasks.Tracking.Contents.{
  Updated, Others, output_entry, result_entry, apply_output-Updated,
}
use move_tutorial.Executor.Tasks.Tracking.Deletions.{Updated-delete_all}
use move_tutorial.Executor.Tasks.Tracking.Entries.{entry_at}

pub some_inj : {A : Type 0} (a b : A) → some a ≡ some b → a ≡ b
some_inj a b e = ground arith

store-at :
    {A : Type 0} (xs ys : List (Option A)) (i : ℕ) (a : A)
    → store xs i a ≡ some ys
    → get_elem? ys i ≡ some (some a)
store-at xs ys i a e =
    let within : i < length xs = ground arith in
    let to : set xs i (some a) ≡ ys = ground arith in
    ap (λ l. get_elem? l i) (sym to) ∙ get_elem?-set_self xs i (some a) within

-- The status that is recorded for a result.
abbrev pub status_of : {T E : Type 0} → ExecutionStatus T E → ExecutionStatus T (Error E)
status_of (success o) = success o
status_of (skip_rest o) = skip_rest o
status_of (abort x) = abort (user_error x)

-- The updates that `execute` starts with.
abbrev pub started : {K V T E P : Type 0} → Set K → Shared K V T E P → Updates K V
started prev s = record {
  prev_modified_keys = prev;
  updates_outside = false;
  versioned = s.versioned;
}

module _ {K V T E P : Type 0} ⦃k : Key K⦄ ⦃p : Key P⦄ (path : ModulePath K P)
    (out : TransactionOutput K V T) where
  apply_updates-Updated :
      (v : Version) (r : ExecutionStatus T E) (u : Updates K V)
      (a : Updates K V × ExecutionStatus T (Error E))
      → apply_updates path out v r u ≡ some a
      → Updated v.0 (result_entry out v r) u a.0 × (a.1 ≡ status_of r)
  apply_updates-Updated v (success o) u a e =
      let (x, ex, e1) = >>=-eq-some (apply_output out v o u) (λ y. some (y, success o)) e in
      let same = some_inj _ a e1 in
      (
        subst (λ y. Updated v.0 (output_entry out v o) u y.0) same
            (apply_output-Updated out v o u x ex),
        ap (λ y. y.1) (sym same),
      )
  apply_updates-Updated v (skip_rest o) u a e =
      let (x, ex, e1) = >>=-eq-some (apply_output out v o u) (λ y. some (y, skip_rest o)) e in
      let same = some_inj _ a e1 in
      (
        subst (λ y. Updated v.0 (output_entry out v o) u y.0) same
            (apply_output-Updated out v o u x ex),
        ap (λ y. y.1) (sym same),
      )
  apply_updates-Updated v (abort x) u a e =
      let same = some_inj _ a e in
      (
        subst (λ y. Updated v.0 (λ key. none) u y.0) same (λ key. (refl, refl), λ j key n. refl),
        ap (λ y. y.1) (sym same),
      )

  pub record_execution-at :
      (s t : TxnLastInputOutput K T E P) (i : TxnIndex) (input : List (ReadDescriptor K))
      (o : ExecutionStatus T (Error E))
      → record_execution path out s i input o ≡ some t
      → get_elem? t.outputs i ≡ some (some o)
  unfolding record_execution
  record_execution-at s t i input o e =
      let u = check_modules path out s (read_modules path input) (written_modules path out o) in
      let (is, ei, e1) = >>=-eq-some (store u.inputs i input) _ e in
      let (os, eo, e2) = >>=-eq-some (store u.outputs i o) _ e1 in
      let to : t.outputs ≡ os = ground arith in
      ap (λ l. get_elem? l i) to ∙ store-at u.outputs os i o eo

  -- An execution that did not panic, step by step.
  pub record Steps (s t : Shared K V T E P) (v : Version) (r : ExecutionStatus T E)
      (reads : List (ReadDescriptor K)) : Type 0 where
    pub prev : Set K
    pub applied : Updates K V × ExecutionStatus T (Error E)
    pub keys_before : modified_keys out s.last_input_output v.0 ≡ some prev
    pub updates : apply_updates path out v r (started prev s) ≡ some applied
    pub deletions :
        delete_all applied.0.versioned v.0 applied.0.prev_modified_keys ≡ some t.versioned
    pub record_made :
        record_execution path out s.last_input_output v.0 reads applied.1 ≡ some t.last_input_output

  pub execute-Steps :
      (s t : Shared K V T E P) (v : Version) (r : ExecutionStatus T E)
      (reads : List (ReadDescriptor K)) (task : SchedulerTask)
      → execute path out s v r reads ≡ some (task, t)
      → Steps s t v r reads
  unfolding execute
  execute-Steps s t v r reads task e =
      let (prev, ep, e1) = >>=-eq-some (modified_keys out s.last_input_output v.0) _ e in
      let (a, ea, e2) = >>=-eq-some (apply_updates path out v r (started prev s)) _ e1 in
      let (m, em, e3) = >>=-eq-some (delete_all a.0.versioned v.0 a.0.prev_modified_keys) _ e2 in
      let (l, el, e4) =
        >>=-eq-some (record_execution path out s.last_input_output v.0 reads a.1) _ e3 in
      let (f, ef, e5) =
        >>=-eq-some (finish_execution s.scheduler v.0 v.1 a.0.updates_outside) _ e4 in
      record {
        prev = prev;
        applied = a;
        keys_before = ep;
        updates = ea;
        deletions = em ∙ ap (λ x. some x.1.versioned) (some_inj _ _ e5);
        record_made = el ∙ ap (λ x. some x.1.last_input_output) (some_inj _ _ e5);
      }

  -- The entries and the record of a transaction that has been executed with a result.
  pub record Executed (s t : Shared K V T E P) (v : Version) (r : ExecutionStatus T E)
      : Type 0 where
    pub entries : (key : K) → entry_at t.versioned v.0 key ≡ result_entry out v r key
    pub others : Others v.0 s.versioned t.versioned
    pub outputs : get_elem? t.last_input_output.outputs v.0 ≡ some (some (status_of r))

  pub executed :
      (s t : Shared K V T E P) (v : Version) (r : ExecutionStatus T E)
      (reads : List (ReadDescriptor K)) (x : Steps s t v r reads)
      → ((key : K) → lookup key x.prev ≡ none → entry_at s.versioned v.0 key ≡ none)
      → Executed s t v r
  executed s t v r reads x tracked =
      let u = started x.prev s in
      let (updated, status) = apply_updates-Updated v r u x.applied x.updates in
      let (entries, others) =
        Updated-delete_all v.0 (result_entry out v r) u x.applied.0 t.versioned updated x.deletions
          tracked in
      record {
        entries = entries;
        others = others;
        outputs =
            record_execution-at s.last_input_output t.last_input_output v.0 reads x.applied.1
              x.record_made
            ∙ ap (λ y. some (some y)) status;
      }
