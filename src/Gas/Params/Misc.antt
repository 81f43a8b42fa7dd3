-- ===== src/Gas/Params/Misc.antt =====
-- The parameters of aptos-gas/src/misc.rs: abstract sizes of values.
use move_tutorial.Prelude.{ℕ, Bool, false, List, [], ◌∷◌}
use move_tutorial.Gas.Schedule.{Field, ParamsTable}
use Prim.Native.String.{String}

pub record AbstractValueSizeGasParameters : Type 0 where
  pub u8 : ℕ
  pub u64 : ℕ
  pub u128 : ℕ
  pub bool : ℕ
  pub address : ℕ
  pub struct_ : ℕ
  pub vector : ℕ
  pub reference : ℕ
  pub per_u8_packed : ℕ
  pub per_u64_packed : ℕ
  pub per_u128_packed : ℕ
  pub per_bool_packed : ℕ
  pub per_address_packed : ℕ

abbrev pub zeros : AbstractValueSizeGasParameters
zeros = record {
  u8 = 0;
  u64 = 0;
  u128 = 0;
  bool = 0;
  address = 0;
  struct_ = 0;
  vector = 0;
  reference = 0;
  per_u8_packed = 0;
  per_u64_packed = 0;
  per_u128_packed = 0;
  per_bool_packed = 0;
  per_address_packed = 0;
}

abbrev row :
    String
    → Bool
    → ℕ
    → (AbstractValueSizeGasParameters → ℕ)
    → (ℕ → AbstractValueSizeGasParameters → AbstractValueSizeGasParameters)
    → Field AbstractValueSizeGasParameters
row key is_optional initial get set = record {
  key = key;
  is_optional = is_optional;
  initial = initial;
  get = get;
  set = set;
}

abbrev pub fields : List (Field AbstractValueSizeGasParameters)
fields =
    row "u8" false (40) (λ p. p.u8) (λ v p. record p { u8 = v })
    ∷ row "u64" false (40) (λ p. p.u64) (λ v p. record p { u64 = v })
    ∷ row "u128" false (40) (λ p. p.u128) (λ v p. record p { u128 = v })
    ∷ row "bool" false (40) (λ p. p.bool) (λ v p. record p { bool = v })
    ∷ row "address" false (40) (λ p. p.address) (λ v p. record p { address = v })
    ∷ row "struct" false (40) (λ p. p.struct_) (λ v p. record p { struct_ = v })
    ∷ row "vector" false (40) (λ p. p.vector) (λ v p. record p { vector = v })
    ∷ row "reference" false (40) (λ p. p.reference) (λ v p. record p { reference = v })
    ∷ row "per_u8_packed" false (1) (λ p. p.per_u8_packed) (λ v p. record p { per_u8_packed = v })
    ∷ row "per_u64_packed" false (8) (λ p. p.per_u64_packed)
        (λ v p. record p { per_u64_packed = v })
    ∷ row "per_u128_packed" false (16) (λ p. p.per_u128_packed)
        (λ v p. record p { per_u128_packed = v })
    ∷ row "per_bool_packed" false (1) (λ p. p.per_bool_packed)
        (λ v p. record p { per_bool_packed = v })
    ∷ row "per_address_packed" false (32) (λ p. p.per_address_packed)
        (λ v p. record p { per_address_packed = v })
    ∷ []

abbrev pub table : ParamsTable AbstractValueSizeGasParameters
table = record { prefix = "misc.abs_val"; zeros = zeros; fields = fields }

-- `MiscGasParameters`.
pub record MiscGasParameters : Type 0 where
  pub abs_val : AbstractValueSizeGasParameters
