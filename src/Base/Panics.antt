-- ===== src/Base/Panics.antt =====
-- A computation of the program that may panic, and the build profile that decides what an
-- arithmetic overflow does.
use mathlib.Core.Path.{◌≡◌, refl}

pub data Outcome {ℓ} (A : Type ℓ) : Type ℓ where
  value : A → Outcome A
  panic : Outcome A

infixl 5 ◌>>=◌ ◌>>◌
abbrev pub ◌>>=◌ {ℓ κ} : {A : Type ℓ} {B : Type κ} → Outcome A → (A → Outcome B) → Outcome B
value a >>= f = f a
panic >>= f = panic

abbrev pub ◌>>◌ {ℓ κ} : {A : Type ℓ} {B : Type κ} → Outcome A → Outcome B → Outcome B
m >> k = m >>= λ _. k

-- `debug` has overflow checks and `debug_assert!`, `release` has neither.
pub data Profile : Type 0 where
  debug release : Profile

pub value_inj {ℓ} : {A : Type ℓ} {a b : A} → value a ≡ value b → a ≡ b
value_inj e = cc

-- Inversion of a bind that does not panic.
pub >>=-eq-value {ℓ κ} :
    {A : Type ℓ} {B : Type κ} (m : Outcome A) (f : A → Outcome B) {b : B}
    → (m >>= f) ≡ value b
    → (a : A) × (m ≡ value a) × (f a ≡ value b)
>>=-eq-value (value a) f h = (a, refl, h)
>>=-eq-value panic f h = cc
