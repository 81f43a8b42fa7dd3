-- ===== src/Executor/Tasks/Validation.antt =====
-- What a validation that succeeds says of the reads.
use move_tutorial.Prelude.{
  ◌≡◌, ◌∙◌, ◌↔◌, refl, sym, ap, arith, true, Bool-cases, inl, inr, Option, none, some, Result, ok,
  err, List, [], ◌∷◌,
}
use move_tutorial.Prelude.Options.{>>=-eq-some}
use move_tutorial.Prelude.Map.{Key, Map}
use move_tutorial.Aggregator.Delta.{DeltaOp, DeltaUpdate, plus, minus}
use move_tutorial.MvHashMap
use move_tutorial.MvHashMap.{EntryMap, TransactionWrite, MvHashMapError, MvHashMapOutput}
use move_tutorial.Scheduler.{TxnIndex, Scheduler, DependencyCondvar}
use move_tutorial.Scheduler.Tasks.{wait_for_dependency}
use move_tutorial.Executor.LastInputOutput
use move_tutorial.Executor.LastInputOutput.{
  ReadKind, ReadDescriptor, update_beq, delta_beq, kind_beq,
}
use move_tutorial.Executor.View.{
  ReadResult, value, u128, unresolved, nothing, Round, returns, noted, wait_on, capture, read_round,
}
use move_tutorial.Executor.Tasks.{accepts, all_valid}

update_beq_iff : (a b : DeltaUpdate) → (update_beq a b ≡ true) ↔ (a ≡ b)
update_beq_iff (plus a) (plus b) = (λ e. ground arith, λ e. ground arith)
update_beq_iff (minus a) (minus b) = (λ e. ground arith, λ e. ground arith)
update_beq_iff (plus a) (minus b) = (λ e. ground arith, λ e. ground arith)
update_beq_iff (minus a) (plus b) = (λ e. ground arith, λ e. ground arith)

delta_beq_iff : (a b : DeltaOp) → (delta_beq a b ≡ true) ↔ (a ≡ b)
delta_beq_iff a b = (
  λ e. ground (arith, update_beq_iff a.update b.update),
  λ e. ground (arith, update_beq_iff a.update b.update),
)

kind_beq-eq : (a b : ReadKind) → kind_beq a b ≡ true → a ≡ b
kind_beq-eq (LastInputOutput.version i n) (LastInputOutput.version j m) e = ground arith
kind_beq-eq (LastInputOutput.resolved a) (LastInputOutput.resolved b) e = ground arith
kind_beq-eq (LastInputOutput.unresolved a) (LastInputOutput.unresolved b) e =
    ap LastInputOutput.unresolved ((delta_beq_iff a b).0 e)
kind_beq-eq LastInputOutput.storage LastInputOutput.storage e = refl
kind_beq-eq LastInputOutput.delta_application_failure LastInputOutput.delta_application_failure e =
    refl
kind_beq-eq _ _ e = absurd (ground arith)

kind_beq_refl : (a : ReadKind) → kind_beq a a ≡ true
kind_beq_refl (LastInputOutput.version i n) = ground arith
kind_beq_refl (LastInputOutput.resolved a) = ground arith
kind_beq_refl (LastInputOutput.unresolved a) = (delta_beq_iff a a).1 refl
kind_beq_refl LastInputOutput.storage = refl
kind_beq_refl LastInputOutput.delta_application_failure = refl

module _ {K V : Type 0} (s : Scheduler) (t : TxnIndex) where
  -- Reading now notes the descriptor `d`.
  abbrev Captures : ReadDescriptor K → Result MvHashMapError (MvHashMapOutput V) → Type 0
  Captures d found =
      (res : ReadResult V) × (capture s t d.access_path found ≡ some (returns d res, s))

  same_kind :
      (d : ReadDescriptor K) (a : ReadKind) (res : ReadResult V)
      → (kind_beq d.kind a ≡ true) ↔ (
          (r : ReadResult V) × (◌≡◌ {A = Option (Round K V × Scheduler)}
            (some (noted d.access_path a res, s))
            (some (returns d r, s))))
  same_kind d a res = (
    λ e. (res, ap (λ x. some (noted d.access_path x res, s)) (sym (kind_beq-eq d.kind a e))),
    λ h.
        let (r, e) = h in
        let same : d.kind ≡ a = ground arith in ap (λ x. kind_beq x a) same ∙ kind_beq_refl a,
  )

  returns_nothing :
      (x : Option DependencyCondvar × Scheduler) (d : ReadDescriptor K) (res : ReadResult V)
      → ◌≡◌ {A = Option (Round K V × Scheduler)} (some (wait_on x)) (some (returns d res, s))
      → ⊥
  returns_nothing (none, u) d res e = absurd (ground arith)
  returns_nothing (some c, u) d res e = absurd (ground arith)

  accepts_iff :
      (d : ReadDescriptor K) (found : Result MvHashMapError (MvHashMapOutput V))
      → (accepts d found ≡ true) ↔ Captures d found
  accepts_iff d (ok (MvHashMap.version (i, n) v)) =
      same_kind d (LastInputOutput.version i n) (value v)
  accepts_iff d (ok (MvHashMap.resolved n)) = same_kind d (LastInputOutput.resolved n) (u128 n)
  accepts_iff d (err MvHashMap.not_found) = same_kind d LastInputOutput.storage nothing
  accepts_iff d (err (MvHashMap.unresolved a)) =
      same_kind d (LastInputOutput.unresolved a) (unresolved a)
  accepts_iff d (err MvHashMap.delta_application_failure) =
      same_kind d LastInputOutput.delta_application_failure (u128 0)
  accepts_iff d (err (MvHashMap.dependency j)) = (
    λ e. absurd (ground arith),
    λ h.
        let (x, ex, e) = >>=-eq-some (wait_for_dependency s t j) (λ r. some (wait_on r)) h.1 in
        absurd (returns_nothing x d h.0 e),
  )

module _ {K V : Type 0} ⦃k : Key K⦄ (w : TransactionWrite V) (m : Map K (EntryMap V))
    (s : Scheduler) (t : TxnIndex) where
  -- An execution that reads now notes each of the descriptors.
  abbrev pub Rereads : List (ReadDescriptor K) → Type 0
  Rereads [] = Unit
  Rereads (d ∷ ds) =
      ((res : ReadResult V) × (read_round w m s t d.access_path ≡ some (returns d res, s)))
      × Rereads ds

  -- A validation finds every read of a transaction valid exactly when an execution that made the
  -- same reads now would note the same for each of them: the same version, the same number, the
  -- same unresolved delta, storage, or a failed delta, and no dependency.
  pub all_valid_iff : (ds : List (ReadDescriptor K)) → (all_valid w m t ds ≡ some true) ↔ Rereads ds
  unfolding all_valid read_round
  all_valid_iff [] = (λ e. tt, λ h. refl)
  all_valid_iff (d ∷ ds) = (
    λ e.
        let (found, ef, e1) = >>=-eq-some (MvHashMap.read w m d.access_path t) _ e in
        elim (Bool-cases (accepts d found)) [
          | inl good ↦
              let (res, captured) = (accepts_iff s t d found).0 good in
              ((res, rw ef captured), (all_valid_iff ds).0 (rw good at e1))
          | inr bad ↦ absurd (ground (arith, rw bad at e1))
        ],
    λ h.
        let (found, ef, captured) =
          >>=-eq-some (MvHashMap.read w m d.access_path t) (capture s t d.access_path) h.0.1 in
        let good = (accepts_iff s t d found).1 (h.0.0, captured) in
        rw ef (rw good ((all_valid_iff ds).1 h.1)),
  )
