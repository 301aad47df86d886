-- ===== src/Base/Bits.antt =====
-- Exclusive or on the native numbers: the law for the lowest digit, and what follows from it.
use Prim.Native.Nat.{
  ℕ, zero, suc, ◌+◌, ◌-◌, ◌*◌, ◌/◌, ◌%◌, ◌^◌, ◌≤◌, ◌<◌, bit_xor, digits, differ, min,
}
use Prim.Native.Nat.{bitwise, bit_xor-bitwise, bit_and, bit_and-bitwise}
use mathlib.Core.Path.{◌≡◌, refl, ap, ◌∙◌}
use native.Mathlib.Nat.{pow-suc}
use native.Mathlib.Omega.{arith}

module _ (zero_case : ℕ → ℕ) (op : ℕ → ℕ → ℕ) where
  -- Once the fuel reaches the first number, more of it changes nothing.
  enough_fuel :
      (spare fuel x y : ℕ)
      → x ≤ fuel
      → digits zero_case op (fuel + spare) x y ≡ digits zero_case op fuel x y
  enough_fuel zero fuel x y h = let same : fuel + 0 ≡ fuel = omega arith in rw same
  enough_fuel (suc spare) zero (suc x) y h = absurd (omega arith)
  enough_fuel (suc spare) zero zero y h =
      let one : 0 + suc spare ≡ suc spare = omega arith in rw one
  enough_fuel (suc spare) (suc fuel) zero y h =
      let one : suc fuel + suc spare ≡ suc (fuel + suc spare) = omega arith in rw one
  enough_fuel (suc spare) (suc fuel) (suc x) y h =
      let one : suc fuel + suc spare ≡ suc (fuel + suc spare) = omega arith in
      let halves : digits zero_case op (fuel + suc spare) (suc x / 2) (y / 2)
          ≡ digits zero_case op fuel (suc x / 2) (y / 2) =
        enough_fuel (suc spare) fuel (suc x / 2) (y / 2) (omega arith) in
      rw (one, halves)

  lowest_digit :
      (x y : ℕ)
      → bitwise zero_case op (suc x) y
        ≡ bitwise zero_case op (suc x / 2) (y / 2) * 2 + op (suc x % 2) (y % 2)
  lowest_digit x y =
      let split : x ≡ suc x / 2 + (x - suc x / 2) = omega arith in
      let halves : digits zero_case op x (suc x / 2) (y / 2)
          ≡ bitwise zero_case op (suc x / 2) (y / 2) =
        ap (λ (n : ℕ). digits zero_case op n (suc x / 2) (y / 2)) split
        ∙ enough_fuel (x - suc x / 2) (suc x / 2) (suc x / 2) (y / 2) (omega arith) in
      omega (arith, halves)

-- The law for the lowest digit.
pub bit_xor_step : (a b : ℕ) → bit_xor a b ≡ bit_xor (a / 2) (b / 2) * 2 + differ (a % 2) (b % 2)
bit_xor_step zero b = simp bit_xor-bitwise (differ_zero b)
  where
    differ_zero : (b : ℕ) → b ≡ b / 2 * 2 + differ (0 % 2) (b % 2)
    differ_zero b = omega arith
bit_xor_step (suc a) b = simp bit_xor-bitwise (lowest_digit (λ n. n) differ a b)

differ_cancel : (a b : ℕ) → a < 2 → b < 2 → differ (differ a b) b ≡ a
differ_cancel zero zero p q = refl
differ_cancel zero (suc zero) p q = refl
differ_cancel (suc zero) zero p q = refl
differ_cancel (suc zero) (suc zero) p q = refl
differ_cancel zero (suc (suc b)) p q = absurd (omega arith)
differ_cancel (suc zero) (suc (suc b)) p q = absurd (omega arith)
differ_cancel (suc (suc a)) b p q = absurd (omega arith)

differ-lt : (a b : ℕ) → a < 2 → b < 2 → differ a b < 2
differ-lt zero b p q = q
differ-lt (suc zero) zero p q = p
differ-lt (suc zero) (suc b) p q = omega arith
differ-lt (suc (suc a)) b p q = absurd (omega arith)

-- Two numbers below 2 ^ k have an exclusive or below 2 ^ k.
pub bit_xor-lt : (k a b : ℕ) → a < 2 ^ k → b < 2 ^ k → bit_xor a b < 2 ^ k
bit_xor-lt zero a b p q =
    let ea : a ≡ 0 = omega arith in let eb : b ≡ 0 = omega arith in rw (ea, eb) (omega arith)
bit_xor-lt (suc k) a b p q = omega (
  arith,
  pow-suc 2 k,
  bit_xor_step a b,
  differ-lt (a % 2) (b % 2) (omega arith) (omega arith),
  bit_xor-lt k (a / 2) (b / 2) (omega (arith, pow-suc 2 k)) (omega (arith, pow-suc 2 k)),
)

-- The digit above both numbers stays.
pub bit_xor_top : (k a b : ℕ) → a < 2 ^ k → b < 2 ^ k → bit_xor a (2 ^ k + b) ≡ 2 ^ k + bit_xor a b
bit_xor_top zero a b p q =
    let ea : a ≡ 0 = omega arith in let eb : b ≡ 0 = omega arith in rw (ea, eb) refl
bit_xor_top (suc k) a b p q =
    let halves : bit_xor (a / 2) (2 ^ k + b / 2) ≡ 2 ^ k + bit_xor (a / 2) (b / 2) =
      bit_xor_top k (a / 2) (b / 2) (omega (arith, pow-suc 2 k)) (omega (arith, pow-suc 2 k)) in
    let shifted : (2 ^ suc k + b) / 2 ≡ 2 ^ k + b / 2 = omega (arith, pow-suc 2 k) in
    let parity : (2 ^ suc k + b) % 2 ≡ b % 2 = omega (arith, pow-suc 2 k) in
    bit_xor_step a (2 ^ suc k + b)
    ∙ rw (shifted, parity, halves) (omega (arith, pow-suc 2 k, bit_xor_step a b))

-- Exclusive or with the same number twice gives the first number back.
pub bit_xor_cancel : (k a b : ℕ) → a < 2 ^ k → b < 2 ^ k → bit_xor (bit_xor a b) b ≡ a
bit_xor_cancel zero a b p q =
    let ea : a ≡ 0 = omega arith in let eb : b ≡ 0 = omega arith in rw (ea, eb) refl
bit_xor_cancel (suc k) a b p q =
    let bit : differ (a % 2) (b % 2) < 2 = differ-lt (a % 2) (b % 2) (omega arith) (omega arith) in
    let high : bit_xor a b / 2 ≡ bit_xor (a / 2) (b / 2) = omega (arith, bit_xor_step a b) in
    let low : bit_xor a b % 2 ≡ differ (a % 2) (b % 2) = omega (arith, bit_xor_step a b) in
    bit_xor_step (bit_xor a b) b
    ∙ rw
        (
          high,
          low,
          bit_xor_cancel k (a / 2) (b / 2) (omega (arith, pow-suc 2 k))
              (omega (arith, pow-suc 2 k)),
          differ_cancel (a % 2) (b % 2) (omega arith) (omega arith),
        )
        (omega arith)

bit_and_step : (n m : ℕ) → bit_and n m ≡ min (n % 2) (m % 2) + bit_and (n / 2) (m / 2) * 2
bit_and_step zero m = simp bit_and-bitwise (omega arith)
bit_and_step (suc n) m = simp bit_and-bitwise (omega (arith, lowest_digit (λ k. 0) min n m))

bit_and-zero : (n a : ℕ) → a ≤ n → bit_and a 0 ≡ 0
bit_and-zero n zero h = refl
bit_and-zero zero (suc a) h = absurd (omega arith)
bit_and-zero (suc n) (suc a) h =
    omega (arith, bit_and_step (suc a) 0, bit_and-zero n (suc a / 2) (omega arith))

-- The lowest digit.
pub bit_and-one : (a : ℕ) → bit_and a 1 ≡ a % 2
bit_and-one a = omega (arith, bit_and_step a 1, bit_and-zero (a / 2) (a / 2) (omega arith))

differ_comm : (a b : ℕ) → differ a b ≡ differ b a
differ_comm zero zero = refl
differ_comm zero (suc b) = refl
differ_comm (suc a) zero = refl
differ_comm (suc a) (suc b) = differ_comm a b

pub bit_xor_comm : (k a b : ℕ) → a < 2 ^ k → b < 2 ^ k → bit_xor a b ≡ bit_xor b a
bit_xor_comm zero a b p q =
    let ea : a ≡ 0 = omega arith in let eb : b ≡ 0 = omega arith in rw (ea, eb) refl
bit_xor_comm (suc k) a b p q = omega (
  arith,
  bit_xor_step a b,
  bit_xor_step b a,
  differ_comm (a % 2) (b % 2),
  bit_xor_comm k (a / 2) (b / 2) (omega (arith, pow-suc 2 k)) (omega (arith, pow-suc 2 k)),
)
