-- ===== src/Prelude/Outcome.antt =====
-- Results of fallible code, and the errors of the virtual machine.
use Prim.Native.Nat.{ℕ}
use mathlib.Core.Path.{◌≡◌, refl, sym}
use native.Mathlib.Omega.{arith}
use mathlib.Core.Option.{Option, none, some}
use mathlib.Core.Logic.{◌⊎◌, inl, inr}

-- The status codes that the modelled code names.
pub data StatusCode : Type 0 where
  aborted storage_error vm_extension_error out_of_gas memory_limit_exceeded : StatusCode

-- A `PartialVMError`, without its message text.
pub record PartialVmError : Type 0 where
  pub status : StatusCode
  pub sub_status : Option ℕ

pub data Result {ℓ} (E : Type 0) (A : Type ℓ) : Type ℓ where
  ok : A → Result E A
  err : E → Result E A

abbrev pub PartialVmResult {ℓ} : Type ℓ → Type ℓ
PartialVmResult A = Result PartialVmError A

-- The `?` of the source.
infixl 5 ◌>>=◌ ◌>>◌
abbrev pub ◌>>=◌ {ℓ κ} :
    {E : Type 0} {A : Type ℓ} {B : Type κ} → Result E A → (A → Result E B) → Result E B
ok a >>= f = f a
err e >>= f = err e

abbrev pub ◌>>◌ {ℓ κ} :
    {E : Type 0} {A : Type ℓ} {B : Type κ} → Result E A → Result E B → Result E B
m >> k = m >>= λ _. k

-- `unwrap_or`.
abbrev pub unwrap_or {ℓ} : {E : Type 0} {A : Type ℓ} → Result E A → A → A
unwrap_or (ok a) d = a
unwrap_or (err e) d = d

abbrev pub map_err {ℓ} : {E F : Type 0} {A : Type ℓ} → (E → F) → Result E A → Result F A
map_err f (ok a) = ok a
map_err f (err e) = err (f e)

-- The value of a result, its error forgotten: the `ok()` of the source.
abbrev pub to_option {ℓ} : {E : Type 0} {A : Type ℓ} → Result E A → Option A
to_option (ok a) = some a
to_option (err e) = none

abbrev pub bind_option {ℓ κ} : {A : Type ℓ} {B : Type κ} → Option A → (A → Option B) → Option B
bind_option none f = none
bind_option (some a) f = f a

-- Two options with the same values are equal.
pub option_ext {ℓ} :
    {A : Type ℓ} (o p : Option A)
    → ((a : A) → o ≡ some a → p ≡ some a)
    → ((a : A) → p ≡ some a → o ≡ some a)
    → o ≡ p
option_ext none none f g = refl
option_ext none (some a) f g = g a refl
option_ext (some a) p f g = sym (f a refl)

-- Inversion of a chain of options.
pub bind_option-eq-some {ℓ κ} :
    {A : Type ℓ} {B : Type κ} (o : Option A) (f : A → Option B) (b : B)
    → bind_option o f ≡ some b
    → (a : A) × (o ≡ some a) × (f a ≡ some b)
bind_option-eq-some none f b h = ground arith
bind_option-eq-some (some a) f b h = (a, refl, h)

pub to_option-eq-some {ℓ} :
    {E : Type 0} {A : Type ℓ} (o : Result E A) (a : A) → to_option o ≡ some a → o ≡ ok a
to_option-eq-some (ok b) a h = ground arith
to_option-eq-some (err e) a h = ground arith

-- Inversion of a chain of results.
pub bind-eq-ok {ℓ κ} :
    {E : Type 0} {A : Type ℓ} {C : Type κ} (r : Result E A) (f : A → Result E C) (c : C)
    → r >>= f ≡ ok c
    → (a : A) × (r ≡ ok a) × (f a ≡ ok c)
bind-eq-ok (ok a) f c h = (a, refl, h)
bind-eq-ok (err e) f c h = ground arith

pub Result-cases {ℓ} :
    {E : Type 0} {A : Type ℓ} (r : Result E A) → ((a : A) × (r ≡ ok a)) ⊎ ((e : E) × (r ≡ err e))
Result-cases (ok a) = inl (a, refl)
Result-cases (err e) = inr (e, refl)

-- How a call fails: with an error of the virtual machine, or by a panic.
pub data Failure : Type 0 where
  raised : PartialVmError → Failure
  panic : Failure

-- The `?` of the source, where the code around it may panic too.
abbrev pub lift {ℓ} : {A : Type ℓ} → PartialVmResult A → Result Failure A
lift r = map_err raised r

-- `unwrap`, `expect`.
abbrev pub expect {ℓ} : {A : Type ℓ} → Option A → Result Failure A
expect none = err panic
expect (some a) = ok a
