-- ===== src/Gas/Schedule/Roundtrip.antt =====
-- Gas schedules whose keys differ, and what is read back from one that was written.
use Prim.Native.String.{String}
use text.Mathlib.Text.{◌==◌ as str_eq}
use text.Mathlib.TextEquality.{eq_iff}
use move_tutorial.Prelude.{
  ℕ, ◌≡◌, refl, ap, ◌∙◌, Bool, true, false, ◌||◌, ◌&&◌, not, none, some, List, [], ◌∷◌, ◌++◌, map,
  arith,
}
use move_tutorial.Gas.Schedule.{
  GasSchedule, collect, Field, ParamsTable, full_key, read_fields, from_on_chain_gas_schedule,
  to_on_chain_gas_schedule,
}

abbrev pub has_key : String → List (String × ℕ) → Bool
has_key k [] = false
has_key k ((j, v) ∷ entries) = str_eq j k || has_key k entries

-- No key occurs twice: the test `keys_should_be_unique`.
abbrev pub distinct_keys : List (String × ℕ) → Bool
distinct_keys [] = true
distinct_keys ((j, v) ∷ entries) = not (has_key j entries) && distinct_keys entries

-- Every entry is what the schedule says of its key.
abbrev pub Holds : GasSchedule → List (String × ℕ) → Type 0
Holds s [] = Unit
Holds s ((k, v) ∷ entries) = (s k ≡ some v) × Holds s entries

pub collect-has_key :
    (k : String) (es : List (String × ℕ)) → has_key k es ≡ false → collect es k ≡ none
unfolding collect
collect-has_key k [] h = refl
collect-has_key k ((j, v) ∷ es) h = ground (arith, collect-has_key k es)

-- An entry of its own before others that do not have its key.
collect-cons :
    (k j : String) (w v : ℕ) (es : List (String × ℕ))
    → has_key j es ≡ false
    → collect es k ≡ some v
    → collect ((j, w) ∷ es) k ≡ some v
unfolding collect
collect-cons k j w v es h e = rw e refl

Holds-cons :
    (j : String) (w : ℕ) (es ds : List (String × ℕ))
    → has_key j es ≡ false
    → Holds (collect es) ds
    → Holds (collect ((j, w) ∷ es)) ds
Holds-cons j w es [] h k = tt
Holds-cons j w es ((i, v) ∷ ds) h (e, k) = (collect-cons i j w v es h e, Holds-cons j w es ds h k)

pub collect_self :
    (k : String) (v : ℕ) (es : List (String × ℕ))
    → has_key k es ≡ false
    → collect ((k, v) ∷ es) k ≡ some v
unfolding collect
collect_self k v es h = rw (collect-has_key k es h) ground (arith, eq_iff k k)

-- A list of entries with distinct keys loses none of them.
pub collect-Holds : (es : List (String × ℕ)) → distinct_keys es ≡ true → Holds (collect es) es
collect-Holds [] h = tt
collect-Holds ((k, v) ∷ es) h =
    let d : has_key k es ≡ false = ground arith in
    (collect_self k v es d, Holds-cons k v es es d (collect-Holds es (ground arith)))

pub Holds-append :
    (s : GasSchedule) (es ds : List (String × ℕ)) → Holds s (es ++ ds) → Holds s es × Holds s ds
Holds-append s [] ds h = (tt, h)
Holds-append s ((k, v) ∷ es) ds (e, h) = let (l, r) = Holds-append s es ds h in ((e, l), r)

module _ {P : Type 0} where
  -- The fields of one structure, written over those of another.
  abbrev pub copy : List (Field P) → P → P → P
  copy [] from to = to
  copy (f ∷ fs) from to = copy fs from (f.set (f.get from) to)

  -- The rows of the table are all the fields of the structure.
  abbrev pub IsComplete : ParamsTable P → Type 0
  IsComplete table = (p : P) → copy table.fields p table.zeros ≡ p

  read_fields-copy :
      (s : GasSchedule) (prefix : String) (fs : List (Field P)) (from to : P)
      → Holds s (map (λ f. (full_key prefix f, f.get from)) fs)
      → read_fields s prefix fs to ≡ some (copy fs from to)
  unfolding read_fields
  read_fields-copy s prefix [] from to h = refl
  read_fields-copy s prefix (f ∷ fs) from to (e, h) =
      let rest = read_fields-copy s prefix fs from (f.set (f.get from) to) h in rw e rest

  -- A schedule that has every entry of a structure, and maybe others, is read as what its rows have.
  pub from-copy :
      (table : ParamsTable P) (s : GasSchedule) (p : P)
      → Holds s (to_on_chain_gas_schedule table p)
      → from_on_chain_gas_schedule table s ≡ some (copy table.fields p table.zeros)
  unfolding from_on_chain_gas_schedule to_on_chain_gas_schedule
  from-copy table s p h = read_fields-copy s table.prefix table.fields p table.zeros h

  -- If the rows are all the fields, it is read as that structure.
  pub from-Holds :
      (table : ParamsTable P) (s : GasSchedule) (p : P)
      → IsComplete table
      → Holds s (to_on_chain_gas_schedule table p)
      → from_on_chain_gas_schedule table s ≡ some p
  from-Holds table s p c h = from-copy table s p h ∙ ap some (c p)
