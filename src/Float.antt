-- ===== src/Float.antt =====
-- The type `f64` and the operations on it that the program uses. They are hardware and standard
-- library, so they are a parameter: a record that the models take. The laws that a property relies
-- on stand in `FloatLaws`, each of them true of IEEE 754 binary64, NaN included.
pub mod Rational
use driftbrake.Base.{ℕ, Bool, true, false, ◌≡◌}
use driftbrake.Base.Int.{ℤ}

pub record Floats : Type 1 where
  pub Float : Type 0
  -- `n as f64` for an `i128` and for an unsigned type.
  pub of_i128 : ℤ → Float
  pub of_nat : ℕ → Float
  -- The literal with these digits and so many decimal places: `decimal 50 2` is `0.50`.
  pub decimal : ℕ → ℕ → Float
  pub add : Float → Float → Float
  pub sub : Float → Float → Float
  pub mul : Float → Float → Float
  pub div : Float → Float → Float
  -- The value from which `Iterator::sum` starts.
  pub sum_start : Float
  pub lt : Float → Float → Bool
  pub le : Float → Float → Bool
  -- `x as u64`, and `x.round() as i128`.
  pub to_u64 : Float → ℕ
  pub round_i128 : Float → ℤ

-- Comparison: no NaN can stand in one that holds.
pub record FloatLaws (fl : Floats) : Type 0 where
  pub lt_le_trans :
      (a b c : Floats.Float fl)
      → Floats.lt fl a b ≡ true
      → Floats.le fl b c ≡ true
      → Floats.lt fl a c ≡ true
  pub lt_asym : (a b : Floats.Float fl) → Floats.lt fl a b ≡ true → Floats.lt fl b a ≡ false
