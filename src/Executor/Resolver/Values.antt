-- ===== src/Executor/Resolver/Values.antt =====
-- The resolver of parallel-executor/src/output_delta_resolver.rs and the serial run of the entries.
use mathlib.Core.Path.{subst}
use move_tutorial.Prelude.{
  ℕ, ◌+◌, ◌≡◌, ◌∙◌, refl, sym, ap, arith, true, false, Bool-cases, ltb, ◌==◌, ==_iff, inl, inr,
  Option, some, List, [], ◌∷◌, to_option, to_option-eq-some,
}
use move_tutorial.Prelude.Options.{>>=-eq-some}
use move_tutorial.Prelude.Map.{nat_key, lookup}
use move_tutorial.Prelude.Map.Order.{IsSorted, Above}
use move_tutorial.Aggregator.Delta.{DeltaOp, apply_to}
use move_tutorial.MvHashMap.{
  TxnIndex, Entry, EntryMap, EntryCell, write, delta, flag_estimate, TransactionWrite, from_write,
  range_back,
}
use move_tutorial.MvHashMap.Serial.{Content, run_cell, serial}
use move_tutorial.MvHashMap.Range.{range_back-head}
use move_tutorial.Executor.Resolver.{push_at, resolve_cell, resolve_entries}
use move_tutorial.Executor.Resolver.Rows.{InRow, push_at-InRow, push_at-keeps}
use move_tutorial.Executor.Resolver.Contents.{value_of, value_of-delta}

some_eq : {A : Type 0} (a b : A) → some a ≡ some b → a ≡ b
some_eq a b e = ground arith

lookup-Above :
    {V : Type 0} (i j : ℕ) (m : EntryMap V) (f : Entry V)
    → Above i m
    → lookup j m ≡ some f
    → ltb i j ≡ true
unfolding lookup
lookup-Above i j [] f a e = absurd (ground arith)
lookup-Above i j ((l, g) ∷ m) f a e = elim (Bool-cases (l == j)) [
  | inl eq ↦ ap (ltb i) (sym ((==_iff l j).0 eq)) ∙ a.0
  | inr ne ↦ lookup-Above i j m f a.1 (rw ne at e)
]

-- No entry is an estimate.
abbrev pub AllDone : {V : Type 0} → EntryMap V → Type 0
AllDone [] = Unit
AllDone ((i, f) ∷ m) = ((f.flag == flag_estimate) ≡ false) × AllDone m

module _ {V : Type 0} (w : TransactionWrite V) (base : Option ℕ) where
  module _ {K : Type 0} (key : K) where
    abbrev Rows : Type 0
    Rows = List (List (K × ℕ))

    -- The rows have a number for the cell, if it is a delta.
    abbrev Written : TxnIndex → EntryCell V → Option ℕ → Rows → Type 0
    Written i (write n v) latest ret = Unit
    Written i (delta d) latest ret = (r : ℕ) × (latest ≡ some r) × InRow (key, r) ret i

    -- What the loop does at a cell before it goes on.
    record Step (next : Option ℕ → Rows → Option Rows) (i : TxnIndex) (c : EntryCell V)
        (before : Content V) (ret ret' : Rows) : Type 0 where
      latest : Option ℕ
      rows : Rows
      goes_on : next latest rows ≡ some ret'
      holds : value_of w base (run_cell w i c before) ≡ some latest
      keeps : (j : TxnIndex) (b : K × ℕ) → InRow b ret j → InRow b rows j
      has : Written i c latest rows

    resolve_cell-Step :
        (next : Option ℕ → Rows → Option Rows) (i : TxnIndex) (c : EntryCell V) (before : Content V)
        (latest : Option ℕ) (ret ret' : Rows)
        → resolve_cell w key next i c latest ret ≡ some ret'
        → value_of w base before ≡ some latest
        → Step next i c before ret ret'
    resolve_cell-Step next i (write n v) before latest ret ret' e h =
        let (o, eo, e1) = >>=-eq-some (from_write w v) _ e in
        record { latest = o; rows = ret; goes_on = e1; holds = eo; keeps = λ j b m. m; has = tt }
    resolve_cell-Step next i (delta d) before latest ret ret' e h =
        let (x, ex, e1) = >>=-eq-some latest _ e in
        let (r, er, e2) = >>=-eq-some (to_option (apply_to d x)) _ e1 in
        let (rows, ep, e3) = >>=-eq-some (push_at ret i (key, r)) _ e2 in
        record {
          latest = some r;
          rows = rows;
          goes_on = e3;
          holds =
              value_of-delta w base before d x r (h ∙ ap (λ o. some o) ex)
                (to_option-eq-some (apply_to d x) r er);
          keeps = λ j b m. push_at-keeps ret rows i j (key, r) b ep m;
          has = (r, refl, push_at-InRow ret rows i (key, r) ep);
        }

    serial-done :
        (i : TxnIndex) (f : Entry V) (later : List (TxnIndex × Entry V)) (latest : Option ℕ)
        → (f.flag == flag_estimate) ≡ false
        → value_of w base (run_cell w i f.cell (serial w later)) ≡ some latest
        → value_of w base (serial w ((i, f) ∷ later)) ≡ some latest
    unfolding serial
    serial-done i f later latest fin h = rw fin h

    resolve_entries-keeps :
        (m : EntryMap V) (later : List (TxnIndex × Entry V)) (latest : Option ℕ) (ret ret' : Rows)
        → AllDone m
        → resolve_entries w key m latest ret ≡ some ret'
        → value_of w base (serial w later) ≡ some latest
        → (j : TxnIndex) (b : K × ℕ) → InRow b ret j
        → InRow b ret' j
    unfolding resolve_entries
    resolve_entries-keeps [] later latest ret ret' fin e h j b m =
        let same : ret ≡ ret' = ground arith in subst (λ l. InRow b l j) same m
    resolve_entries-keeps ((i, f) ∷ rest) later latest ret ret' fin e h j b m =
        let s =
          resolve_cell-Step (resolve_entries w key rest) i f.cell (serial w later) latest ret ret' e
            h in
        resolve_entries-keeps rest ((i, f) ∷ later) s.latest s.rows ret' fin.1 s.goes_on
          (serial-done i f later s.latest fin.0 s.holds) j b (s.keeps j b m)

    -- The number that was written for the delta at j is what the entries up to j leave.
    abbrev pub Resolved : EntryMap V → List (TxnIndex × Entry V) → Rows → TxnIndex → Type 0
    Resolved m later ret j =
        (r : ℕ) × InRow (key, r) ret j
        × (value_of w base (serial w (range_back (j + 1) m later)) ≡ some (some r))

    resolve_entries-Resolved :
        (m : EntryMap V) (later : List (TxnIndex × Entry V)) (latest : Option ℕ) (ret ret' : Rows)
        → AllDone m
        → IsSorted m
        → resolve_entries w key m latest ret ≡ some ret'
        → value_of w base (serial w later) ≡ some latest
        → (j : TxnIndex) (f : Entry V) (d : DeltaOp) → lookup j m ≡ some f
        → f.cell ≡ delta d
        → Resolved m later ret' j
    unfolding resolve_entries lookup range_back
    resolve_entries-Resolved [] later latest ret ret' fin sorted e h j f d at c =
        absurd (ground arith)
    resolve_entries-Resolved ((i, g) ∷ rest) later latest ret ret' fin sorted e h j f d at c =
        let s =
          resolve_cell-Step (resolve_entries w key rest) i g.cell (serial w later) latest ret ret' e
            h in
        let now = serial-done i g later s.latest fin.0 s.holds in
        elim (Bool-cases (i == j)) [
          | inl eq ↦
              let same : i ≡ j = (==_iff i j).0 eq in
              let it : g ≡ f = some_eq g f (rw eq at at) in
              let (r, er, row) =
                subst (λ x. Written i x s.latest s.rows) (ap (λ x. x.cell) it ∙ c) s.has in
              let kept =
                resolve_entries-keeps rest ((i, g) ∷ later) s.latest s.rows ret' fin.1 s.goes_on now
                  i (key, r) row in
              let up_to : range_back (j + 1) ((i, g) ∷ rest) later ≡ (i, g) ∷ later =
                range_back-head (j + 1) i g rest later (omega arith) sorted.0 sorted.1
                  (λ l p q. absurd (omega arith)) in
              (
                r,
                subst (InRow (key, r) ret') same kept,
                ap (λ x. value_of w base (serial w x)) up_to ∙ now ∙ ap (λ x. some x) er,
              )
          | inr ne ↦
              let there : lookup j rest ≡ some f = rw ne at at in
              let below = lookup-Above i j rest f sorted.0 there in
              let (r, row, v) =
                resolve_entries-Resolved rest ((i, g) ∷ later) s.latest s.rows ret' fin.1 sorted.1
                  s.goes_on now j f d there c in
              let up_to : range_back (j + 1) ((i, g) ∷ rest) later
                  ≡ range_back (j + 1) rest ((i, g) ∷ later) =
                ap (range_back (j + 1) rest) (ground arith) in
              (r, row, ap (λ x. value_of w base (serial w x)) up_to ∙ v)
        ]

  -- Resolve the entries of a path, none of them an estimate, on top of what storage holds. If this
  -- does not panic, then for each transaction j with a delta there, a number is written for j, and
  -- it is the number that the path holds once the transactions up to j have run in their order.
  pub resolve_entries-serial :
      {K : Type 0} (key : K) (m : EntryMap V) (ret ret' : List (List (K × ℕ))) (j : TxnIndex)
      (f : Entry V) (d : DeltaOp)
      → AllDone m
      → IsSorted m
      → resolve_entries w key m base ret ≡ some ret'
      → lookup j m ≡ some f
      → f.cell ≡ delta d
      → Resolved key m [] ret' j
  unfolding serial
  resolve_entries-serial key m ret ret' j f d fin sorted e at c =
      resolve_entries-Resolved key m [] base ret ret' fin sorted e refl j f d at c
