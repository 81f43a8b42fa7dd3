-- ===== src/Executor/LastInputOutput/Race.antt =====
-- The modules that executions read and write, as txn_last_input_output.rs records them.
pub mod Sets
use mathlib.Core.List.{Memᴰ}
use mathlib.Core.List.Memᴰ.{head, tail, append_cases}
use mathlib.Core.Path.{subst}
use move_tutorial.Prelude.{
  ℕ, ◌≡◌, ◌∙◌, inl, inr, refl, sym, ap, arith, Bool, true, false, Bool-cases, Option-cases,
  if◌then◌else◌, Option, none, some, List, [], ◌∷◌, ◌++◌,
}
use move_tutorial.Prelude.Options.{◌>>=◌, >>=-eq-some}
use move_tutorial.Prelude.Map.{Key, lookup, insert, lookup-insert}
use move_tutorial.Scheduler.{TxnIndex}
use move_tutorial.Executor.{ExecutionStatus, Error, ModulePath, TransactionOutput}
use move_tutorial.Executor.LastInputOutput.{
  ReadDescriptor, Set, TxnLastInputOutput, new, append_and_check, store, read_modules,
  written_modules, check_written, check_modules, record_execution,
}
use Sets.{Has, Disjoint, Disjoint-sym, Appended, append_and_check-Appended}

-- What happened between two states, if the flag is still down at the end.
pub record Grew {K T E P : Type 0} ⦃p : Key P⦄ (s t : TxnLastInputOutput K T E P)
    (read written : List P) : Type 0 where
  pub clear : s.module_read_write_intersection ≡ false
  pub keeps_read : (a : P) → Has a s.module_reads → Has a t.module_reads
  pub keeps_written : (a : P) → Has a s.module_writes → Has a t.module_writes
  pub has_read : (a : P) → Memᴰ a read → Has a t.module_reads
  pub has_written : (a : P) → Memᴰ a written → Has a t.module_writes
  pub apart : Disjoint s.module_reads s.module_writes → Disjoint t.module_reads t.module_writes

either :
    {P A : Type 0} (a : P) (xs ys : List P)
    → (Memᴰ a xs → A)
    → (Memᴰ a ys → A)
    → Memᴰ a (xs ++ ys)
    → A
either a xs ys f g m = elim (append_cases xs m) [ inl l ↦ f l | inr r ↦ g r ]

-- A call of `record`.
pub record Execution (K T E : Type 0) : Type 0 where
  pub txn_idx : TxnIndex
  pub input : List (ReadDescriptor K)
  pub output : ExecutionStatus T (Error E)

module _ {K V T E P : Type 0} ⦃p : Key P⦄ (path : ModulePath K P)
    (out : TransactionOutput K V T) where
  check_written-Grew :
      (s : TxnLastInputOutput K T E P) (read written : List P) (r w : Bool × Set P)
      → append_and_check read s.module_reads s.module_writes ≡ r
      → append_and_check written s.module_writes r.1 ≡ w
      → s.module_read_write_intersection ≡ false
      → (check_written path out s written r).module_read_write_intersection ≡ false
      → Grew s (check_written path out s written r) read written
  check_written-Grew s read written (true, reads) w er ew c e = absurd (ground arith)
  check_written-Grew s read written (false, reads) (true, writes) er ew c e =
      absurd (ground (arith, ew))
  check_written-Grew s read written (false, reads) (false, writes) er ew c e =
      let r = append_and_check-Appended read s.module_reads s.module_writes reads er in
      let w = append_and_check-Appended written s.module_writes reads writes ew in
      let same : writes ≡ (append_and_check written s.module_writes reads).1 =
        ap (λ x. x.1) (sym ew) in
      record {
        clear = c;
        keeps_read = r.keeps;
        keeps_written = λ a h. subst (Has a) same (w.keeps a h);
        has_read = r.has;
        has_written = λ a m. subst (Has a) same (w.has a m);
        apart = λ d.
            subst (Disjoint reads) same (
              Disjoint-sym writes reads (w.apart (Disjoint-sym reads s.module_writes (r.apart d))));
      }

  branch-Grew :
      (s : TxnLastInputOutput K T E P) (read written : List P) (b : Bool)
      → s.module_read_write_intersection ≡ b
      → let t =
          if b
          then s
          else check_written path out s written
              (append_and_check read s.module_reads s.module_writes) in
        t.module_read_write_intersection ≡ false → Grew s t read written
  branch-Grew s read written true up e = absurd (ground arith)
  branch-Grew s read written false down e = check_written-Grew s read written _ _ refl refl down e

  check_modules-Grew :
      (s : TxnLastInputOutput K T E P) (read written : List P)
      → (check_modules path out s read written).module_read_write_intersection ≡ false
      → Grew s (check_modules path out s read written) read written
  unfolding check_modules
  check_modules-Grew s read written e =
      branch-Grew s read written s.module_read_write_intersection refl e

  abbrev pub run :
      TxnLastInputOutput K T E P → Execution K T E → Option (TxnLastInputOutput K T E P)
  run s c = record_execution path out s c.txn_idx c.input c.output

  run-Grew :
      (s t : TxnLastInputOutput K T E P) (c : Execution K T E)
      → run s c ≡ some t
      → t.module_read_write_intersection ≡ false
      → Grew s t (read_modules path c.input) (written_modules path out c.output)
  unfolding record_execution
  run-Grew s t c e down =
      let u =
        check_modules path out s (read_modules path c.input) (written_modules path out c.output) in
      let (is, ei, e1) = >>=-eq-some (store u.inputs c.txn_idx c.input) _ e in
      let (os, eo, e2) = >>=-eq-some (store u.outputs c.txn_idx c.output) _ e1 in
      let to : record u { inputs = is; outputs = os } ≡ t = ground arith in
      let up : u.module_read_write_intersection ≡ false =
        ap (λ x. x.module_read_write_intersection) to ∙ down in
      let g =
        check_modules-Grew s (read_modules path c.input) (written_modules path out c.output) up in
      subst (λ x. Grew s x (read_modules path c.input) (written_modules path out c.output)) to
        (record {
          clear = g.clear;
          keeps_read = g.keeps_read;
          keeps_written = g.keeps_written;
          has_read = g.has_read;
          has_written = g.has_written;
          apart = g.apart;
        })

  unfoldable pub runs :
      TxnLastInputOutput K T E P → List (Execution K T E) → Option (TxnLastInputOutput K T E P)
  runs s [] = some s
  runs s (c ∷ cs) = do t ← run s c; runs t cs

  -- The modules that the executions read, and those that they wrote.
  abbrev pub modules_read : List (Execution K T E) → List P
  modules_read [] = []
  modules_read (c ∷ cs) = read_modules path c.input ++ modules_read cs

  abbrev pub modules_written : List (Execution K T E) → List P
  modules_written [] = []
  modules_written (c ∷ cs) = written_modules path out c.output ++ modules_written cs

  runs-Grew :
      (s t : TxnLastInputOutput K T E P) (cs : List (Execution K T E))
      → runs s cs ≡ some t
      → t.module_read_write_intersection ≡ false
      → Grew s t (modules_read cs) (modules_written cs)
  unfolding runs
  runs-Grew s t [] e down =
      let same : s ≡ t = ground arith in
      subst (λ x. Grew s x [] []) same
        (record {
          clear = ap (λ x. x.module_read_write_intersection) same ∙ down;
          keeps_read = λ a h. h;
          keeps_written = λ a h. h;
          has_read = λ a m. elim m [ ];
          has_written = λ a m. elim m [ ];
          apart = λ d. d;
        })
  runs-Grew s t (c ∷ cs) e down =
      let (u, eu, e1) = >>=-eq-some (run s c) (λ x. runs x cs) e in
      let rest = runs-Grew u t cs e1 down in
      let one = run-Grew s u c eu rest.clear in
      record {
        clear = one.clear;
        keeps_read = λ a h. rest.keeps_read a (one.keeps_read a h);
        keeps_written = λ a h. rest.keeps_written a (one.keeps_written a h);
        has_read = λ a m.
            either a (read_modules path c.input) (modules_read cs)
              (λ l. rest.keeps_read a (one.has_read a l)) (rest.has_read a) m;
        has_written = λ a m.
            either a (written_modules path out c.output) (modules_written cs)
              (λ l. rest.keeps_written a (one.has_written a l)) (rest.has_written a) m;
        apart = λ d. rest.apart (one.apart d);
      }

  -- Record any executions of the transactions of a block, in any order. If the block is not said to
  -- race at the end, no module that one of the executions read was written by one of them.
  pub modules_read-apart :
      (num_txns : ℕ) (cs : List (Execution K T E)) (t : TxnLastInputOutput K T E P)
      → runs (new num_txns) cs ≡ some t
      → t.module_read_write_intersection ≡ false
      → (a : P) → Memᴰ a (modules_read cs)
      → ¬ Memᴰ a (modules_written cs)
  unfolding lookup
  modules_read-apart n cs t e down a r w =
      let g = runs-Grew (new n) t cs e down in
      let none_written = g.apart (λ b h. absurd (ground (arith, h))) a (g.has_read a r) in
      ground (arith, none_written, g.has_written a w)
