-- ===== src/Executor/LastInputOutput/Race/Sets.antt =====
-- Sets of module paths, as `append_and_check` of txn_last_input_output.rs changes them.
use mathlib.Core.List.{Memᴰ}
use mathlib.Core.List.Memᴰ.{head, tail}
use mathlib.Core.Path.{subst}
use move_tutorial.Prelude.{
  ◌≡◌, ◌∙◌, inl, inr, sym, ap, arith, false, Bool-cases, Option-cases, none, some, List, [], ◌∷◌,
}
use move_tutorial.Prelude.Map.{Key, lookup, insert, lookup-insert}
use move_tutorial.Executor.LastInputOutput.{Set, append_and_check}

module _ {P : Type 0} ⦃p : Key P⦄ where
  abbrev pub Has : P → Set P → Type 0
  Has a s = lookup a s ≡ some tt

  abbrev pub Disjoint : Set P → Set P → Type 0
  Disjoint s t = (a : P) → Has a s → lookup a t ≡ none

  pub Disjoint-sym : (s t : Set P) → Disjoint s t → Disjoint t s
  Disjoint-sym s t d a h = elim (Option-cases (lookup a s)) [
    | inl e ↦ e
    | inr (u, e) ↦ absurd (ground (arith, d a, e, h))
  ]

  pub Has-insert : (a b : P) (s : Set P) → Has a s → Has a (insert b tt s)
  Has-insert a b s h = ground (arith, lookup-insert b a tt s)

  Has-insert_self : (a : P) (s : Set P) → Has a (insert a tt s)
  Has-insert_self a s = ground (arith, lookup-insert a a tt s, p.beq_iff a a)

  Disjoint-insert :
      (b : P) (s t : Set P) → Disjoint s t → lookup b t ≡ none → Disjoint (insert b tt s) t
  Disjoint-insert b s t d e a h = elim (Bool-cases (p.beq b a)) [
    | inl q ↦ ap (λ x. lookup x t) (sym ((p.beq_iff b a).0 q)) ∙ e
    | inr q ↦ d a (ground (arith, lookup-insert b a tt s))
  ]

  -- What an append that met nothing has done.
  pub record Appended (paths : List P) (s t u : Set P) : Type 0 where
    pub keeps : (a : P) → Has a s → Has a u
    pub has : (a : P) → Memᴰ a paths → Has a u
    pub apart : Disjoint s t → Disjoint u t

  pub append_and_check-Appended :
      (paths : List P) (s t u : Set P)
      → append_and_check paths s t ≡ (false, u)
      → Appended paths s t u
  unfolding append_and_check
  append_and_check-Appended [] s t u e =
      let same : s ≡ u = ground arith in
      record {
        keeps = λ a h. subst (Has a) same h;
        has = λ a m. elim m [ ];
        apart = λ d. subst (λ x. Disjoint x t) same d;
      }
  append_and_check-Appended (b ∷ paths) s t u e = elim (Option-cases (lookup b t)) [
    | inl free ↦
        let rest =
          append_and_check-Appended paths (insert b tt s) t u (rw (free, append_and_check) at e) in
        record {
          keeps = λ a h. rest.keeps a (Has-insert a b s h);
          has = λ a m. elim m [
            | head q ↦
                rest.keeps a (subst (λ x. Has x (insert b tt s)) (sym q) (Has-insert_self b s))
            | tail n ↦ rest.has a n
          ];
          apart = λ d. rest.apart (Disjoint-insert b s t d free);
        }
    | inr (x, met) ↦ absurd (ground (arith, rw (met, append_and_check) at e))
  ]
