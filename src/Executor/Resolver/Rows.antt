-- ===== src/Executor/Resolver/Rows.antt =====
-- Rows of numbers, and what a push keeps.
use mathlib.Core.List.{Memᴰ}
use mathlib.Core.List.Memᴰ.{head, append_left, append_right}
use mathlib.Core.Path.{subst}
use move_tutorial.Prelude.{
  ℕ, ◌≡◌, ◌∙◌, refl, sym, ap, arith, Bool-cases, ◌==◌, ==_iff, inl, inr, some, List, [], ◌∷◌, ◌++◌,
  get_elem?, set, get_elem?-set_self, get_elem?-set_ne, get_elem?-lt-length,
}
use move_tutorial.Prelude.Options.{>>=-eq-some}
use move_tutorial.Prelude.Map.{nat_key}
use move_tutorial.Executor.Resolver.{push_at}

-- The pair is in the row.
abbrev pub InRow {ℓ} : {A : Type ℓ} → A → List (List A) → ℕ → Type ℓ
InRow {A = A} a ret i = (row : List A) × (get_elem? ret i ≡ some row) × Memᴰ a row

pub push_at-InRow :
    {A : Type 0} (ret ret' : List (List A)) (i : ℕ) (a : A)
    → push_at ret i a ≡ some ret'
    → InRow a ret' i
push_at-InRow ret ret' i a e =
    let (row, er, e1) = >>=-eq-some (get_elem? ret i) _ e in
    let to : set ret i (row ++ a ∷ []) ≡ ret' = ground arith in
    (
      row ++ a ∷ [],
      ap (λ l. get_elem? l i) (sym to)
          ∙ get_elem?-set_self ret i (row ++ a ∷ []) (get_elem?-lt-length ret i row er),
      append_right row (head refl),
    )

pub push_at-keeps :
    {A : Type 0} (ret ret' : List (List A)) (i j : ℕ) (a b : A)
    → push_at ret i a ≡ some ret'
    → InRow b ret j
    → InRow b ret' j
push_at-keeps ret ret' i j a b e h =
    let (row, er, e1) = >>=-eq-some (get_elem? ret i) _ e in
    let to : set ret i (row ++ a ∷ []) ≡ ret' = ground arith in
    elim (Bool-cases (i == j)) [
      | inl eq ↦
          let same : i ≡ j = (==_iff i j).0 eq in
          let row_eq : h.0 ≡ row = cc (h.1, er, same) in
          (
            row ++ a ∷ [],
            ap (λ l. get_elem? l j) (sym to)
                ∙ ap (get_elem? (set ret i (row ++ a ∷ []))) (sym same)
                ∙ get_elem?-set_self ret i (row ++ a ∷ []) (get_elem?-lt-length ret i row er),
            append_left (a ∷ []) (subst (λ r. Memᴰ b r) row_eq h.2),
          )
      | inr ne ↦ (
        h.0,
        ap (λ l. get_elem? l j) (sym to)
            ∙ get_elem?-set_ne ret i j (row ++ a ∷ []) (λ q. cc (ne, (==_iff i j).1 q))
            ∙ h.1,
        h.2,
      )
    ]
