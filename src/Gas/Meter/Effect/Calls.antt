-- ===== src/Gas/Meter/Effect/Calls.antt =====
-- Calls, and the load of a resource, as effects.
use move_tutorial.Gas.Meter.Charges.{ModuleId}
use move_tutorial.Gas.Meter.Effect.{from_option}
use move_tutorial.Gas.Algebra.Laws.{clamp-plus_right}
use move_tutorial.Gas.Meter.Effect.Steps.{charge-pay, settle_early, >>=-assoc}
use move_tutorial.Gas.Meter.{resume, pure, unwrap}
use move_tutorial.Gas.Transaction.{StorageGasParameters}
use move_tutorial.Gas.Meter.Effect.{pay}
use move_tutorial.Gas.Meter.Effect.{load_gas}
use move_tutorial.Gas.Meter.Effect.{IsConfigured}
use move_tutorial.Gas.Meter.{pure}
use move_tutorial.Prelude.{
  ℕ, ◌+◌, ◌*◌, ◌≡◌, sym, ap, ◌∙◌, Bool, true, false, Option, none, some, List, leb, ◌==◌,
  if◌then◌else◌, length, arith,
}
use move_tutorial.Gas.Algebra.{GasAlgebra, IsSaturating, clamp, ◌⊕◌, ◌⊗◌}
use move_tutorial.Gas.Algebra.Laws.{poly, poly_more}
use move_tutorial.Gas.Views.{ValueView, IsShaped, Shape}
use move_tutorial.Gas.Meter.{
  resume, AptosGasMeter, Charge, charge, use_heap_memory, unwrap, ◌>>=◌, ◌>>◌,
}
use move_tutorial.Gas.Meter.Charges.{heap_size}
use move_tutorial.Gas.Meter.Values
use move_tutorial.Gas.Meter.Requests.{load_resource, call, call_generic}
use move_tutorial.Gas.Meter.Effect.{effect, settle, mark, IsValid, heap_of}
use move_tutorial.Gas.Meter.Effect.Steps.{>>=-ok, use-settle}
use move_tutorial.Gas.Meter.Effect.Sized.{heap_size-ok, pay_only}

-- The gas of a call: two sums, and the locals from version 3 on.
module _ ⦃G : GasAlgebra⦄ (law : IsSaturating G) where
  with_locals :
      (b : Bool) (cost so_far per_local locals : ℕ)
      → cost ≡ clamp so_far
      → (if b then cost ⊕ per_local ⊗ locals else cost)
        ≡ clamp (so_far + (if b then per_local else 0) * locals)
  with_locals true cost so_far per_local locals e = rw e (poly_more law so_far per_local locals)
  with_locals false cost so_far per_local locals e = e ∙ omega arith

module _ {N V : Type 0} ⦃G : GasAlgebra⦄ ⦃W : ValueView V⦄ {shape : V → Shape}
    (law : IsSaturating G) (shown : IsShaped W shape) (m : AptosGasMeter N)
    (valid : IsValid m) where
  pub call-settle :
      (args : List V) (locals : ℕ)
      → Values.charge_call args locals m ≡ settle (effect shape m (call args locals)) m
  unfolding Values.charge_call
  call-settle args locals = pay_only law m valid _ _ (
      with_locals law (leb 3 m.feature_version) _ _ m.gas_params.instr.call_per_local locals
        (poly law m.gas_params.instr.call_base m.gas_params.instr.call_per_arg (length args)))

  -- The method by its two tests: version 0, and the storage parameters.
  abbrev load_by : Bool → Option StorageGasParameters → Option (ℕ × V) → Charge N Unit
  load_by early storage_params l =
      let txn = m.gas_params.txn in
      do
        cost ←
            (if early
              then pure (
                  txn.load_data_base
                  ⊕ Values.per_loaded txn.load_data_per_byte txn.load_data_failure l)
              else (do
                Values.use_loaded l
                storage ← unwrap storage_params
                pure (storage.per_item_read ⊗ 1 ⊕ Values.per_loaded storage.per_byte_read 0 l)))
        charge cost

  early_gas :
      (l : Option (ℕ × V))
      → m.gas_params.txn.load_data_base
          ⊕ Values.per_loaded m.gas_params.txn.load_data_per_byte m.gas_params.txn.load_data_failure
              l
        ≡ load_gas shape m none l
  early_gas none = law.plus_eq m.gas_params.txn.load_data_base m.gas_params.txn.load_data_failure
  early_gas (some (n, v)) =
      poly law m.gas_params.txn.load_data_base m.gas_params.txn.load_data_per_byte n

  item_gas :
      (p : StorageGasParameters) (k : ℕ) → p.per_item_read ⊗ 1 ⊕ k ≡ clamp (p.per_item_read + k)
  item_gas p k =
      rw (law.times_eq p.per_item_read 1)
        (law.plus_eq (clamp (p.per_item_read * 1)) k ∙ omega arith)

  item_byte_gas :
      (p : StorageGasParameters) (n : ℕ)
      → p.per_item_read ⊗ 1 ⊕ p.per_byte_read ⊗ n ≡ clamp (p.per_item_read + p.per_byte_read * n)
  item_byte_gas p n = rw (law.times_eq p.per_byte_read n) (
      item_gas p (clamp (p.per_byte_read * n))
      ∙ clamp-plus_right p.per_item_read (p.per_byte_read * n))

  load_total :
      (storage : Option StorageGasParameters) (l : Option (ℕ × V))
      → IsConfigured m.feature_version storage
      → load_by (m.feature_version == 0) storage l m
        ≡ settle
            (record {
              released = 0;
              used = from_option (λ r. heap_of shape m r.1) l;
              gas = load_gas shape m storage l;
            })
            m
  load_total none l h =
      let early : (m.feature_version == 0) ≡ true = ground arith in
      ap (λ b. load_by b none l m) early
      ∙ charge-pay law _ m
      ∙ ap (λ g. pay g m) (early_gas l)
      ∙ sym (settle_early law _ m (ground arith))
  load_total (some p) none h =
      let late : (m.feature_version == 0) ≡ false = ground arith in
      ap (λ b. load_by b (some p) none m) late
      ∙ pay_only law m valid _ _ (item_gas p 0 ∙ omega arith)
  load_total (some p) (some (n, v)) h =
      let late : (m.feature_version == 0) ≡ false = ground arith in
      let cost = p.per_item_read ⊗ 1 ⊕ p.per_byte_read ⊗ n in
      let used = heap_of shape m v in
      ap (λ b. load_by b (some p) (some (n, v)) m) late
      ∙ ap (λ o. resume charge (resume (λ _. pure cost) o))
          (>>=-ok (heap_size v) (λ u. use_heap_memory u) m m used (heap_size-ok law shown m v))
      ∙ >>=-assoc (use_heap_memory used) (λ _. pure cost) charge m
      ∙ use-settle law used cost m valid.quota_u64
      ∙ ap (λ g. settle (record { released = 0; used = used; gas = g }) m) (item_byte_gas p n)

  pub load-settle :
      (l : Option (ℕ × V))
      → Values.charge_load_resource l m ≡ settle (effect shape m (load_resource l)) m
  unfolding Values.charge_load_resource
  load-settle l = load_total m.storage_gas_params l valid.configured

  pub call_generic-settle :
      (core_code_address : ℕ) (id : ModuleId) (num_ty_args : ℕ) (args : List V) (locals : ℕ)
      → Values.charge_call_generic core_code_address id num_ty_args args locals m
        ≡ settle
            (effect shape m (call_generic id num_ty_args args locals))
            (mark core_code_address (call_generic id num_ty_args args locals) m)
  unfolding Values.charge_call_generic
  call_generic-settle core_code_address id num_ty_args args locals =
      let i = m.gas_params.instr in
      let base = poly law i.call_generic_base i.call_generic_per_ty_arg num_ty_args in
      let marked = mark core_code_address (call_generic id num_ty_args args locals) m in
      pay_only law marked
        (record {
          configured = valid.configured;
          balance_u64 = valid.balance_u64;
          quota_u64 = valid.quota_u64;
        })
        _ _
        (with_locals law (leb 3 m.feature_version) _ _ i.call_generic_per_local locals (
          ap (λ c. c ⊕ i.call_generic_per_arg ⊗ length args) base
          ∙ poly_more law _ i.call_generic_per_arg (length args)))
