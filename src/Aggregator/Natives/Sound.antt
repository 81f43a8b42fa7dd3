-- ===== src/Aggregator/Natives/Sound.antt =====
-- The history of aggregators, as the methods of aggregator_extension.rs change it.
use move_tutorial.Prelude.{ℕ, ◌≡◌, ◌≤◌, arith, Option, none, some, Result-cases, ok, inl, inr}
use move_tutorial.Aggregator.Extension.{
  Aggregator, AggregatorState, History, known_data, positive_delta, negative_delta, Storage, add,
  sub, materialize, read_and_materialize, read_entry,
}
use move_tutorial.Aggregator.Registry.{id_key}

-- A value that is known has no history; a delta has one that covers it.
abbrev pub Remembers : AggregatorState → ℕ → Option History → Type 0
Remembers known_data v h = h ≡ none
Remembers positive_delta v none = ⊥
Remembers positive_delta v (some h) = v ≤ h.max_positive
Remembers negative_delta v none = ⊥
Remembers negative_delta v (some h) = v ≤ h.min_negative

abbrev pub IsSound : Aggregator → Type 0
IsSound a = Remembers a.state a.value a.history

pub add-Remembers :
    (l v x : ℕ) (s : AggregatorState) (h : Option History) (b : Aggregator)
    → Remembers s v h
    → add (record { value = v; state = s; limit = l; history = h }) x ≡ ok b
    → IsSound b
unfolding add
add-Remembers l v x known_data h b r e = ground arith
add-Remembers l v x positive_delta none b r e = elim r [ ]
add-Remembers l v x positive_delta (some h) b r e = ground arith
add-Remembers l v x negative_delta none b r e = elim r [ ]
add-Remembers l v x negative_delta (some h) b r e = ground arith

pub sub-Remembers :
    (l v x : ℕ) (s : AggregatorState) (h : Option History) (b : Aggregator)
    → Remembers s v h
    → sub (record { value = v; state = s; limit = l; history = h }) x ≡ ok b
    → IsSound b
unfolding sub
sub-Remembers l v x known_data h b r e = ground arith
sub-Remembers l v x positive_delta none b r e = elim r [ ]
sub-Remembers l v x positive_delta (some h) b r e = ground arith
sub-Remembers l v x negative_delta none b r e = elim r [ ]
sub-Remembers l v x negative_delta (some h) b r e = ground arith

materialize-IsSound : (a b : Aggregator) (base v : ℕ) → materialize a base ≡ ok (v, b) → IsSound b
unfolding materialize
materialize-IsSound a b base v e = ground arith

pub read-Remembers :
    {Ident : Type 0} (storage : Storage Ident) (id : Ident) (l n x : ℕ) (s : AggregatorState)
    (h : Option History) (b : Aggregator)
    → Remembers s n h
    → read_and_materialize storage (record { value = n; state = s; limit = l; history = h }) id
      ≡ ok (x, b)
    → IsSound b
unfolding read_and_materialize
read-Remembers st id l n x known_data h b r e = ground arith
read-Remembers st id l n x positive_delta h b r e = elim (Result-cases (read_entry st id)) [
  | inl (base, eb) ↦ materialize-IsSound _ b base x (rw eb at e)
  | inr (y, ey) ↦ absurd (cc (rw ey at e))
]
read-Remembers st id l n x negative_delta h b r e = elim (Result-cases (read_entry st id)) [
  | inl (base, eb) ↦ materialize-IsSound _ b base x (rw eb at e)
  | inr (y, ey) ↦ absurd (cc (rw ey at e))
]
