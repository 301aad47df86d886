-- ===== src/Float/Rational.antt =====
-- Exact fractions as an instance of the interface, for tests and witnesses. Division by zero is zero.
use driftbrake.Base.{
  ℕ, zero, suc, ◌+◌, ◌-◌, ◌*◌, ◌/◌, ◌^◌, ◌≤◌, ◌<◌, ◌≡◌, Bool, true, false, arith, ltb, leb, ltb→lt,
  lt→ltb, leb→le, if◌then◌else◌,
}
use driftbrake.Base.Int.{ℤ, pos, negsuc, pos_part, neg_part, sub_ℕ}

-- (gain - loss) / (under + 1)
pub record Fraction : Type 0 where
  pub gain : ℕ
  pub loss : ℕ
  pub under : ℕ

abbrev den : Fraction → ℕ
den x = suc x.under

abbrev pub fraction_of_i128 : ℤ → Fraction
fraction_of_i128 z = record { gain = pos_part z; loss = neg_part z; under = 0 }

abbrev pub fraction_of_nat : ℕ → Fraction
fraction_of_nat n = record { gain = n; loss = 0; under = 0 }

-- `under` of a product of denominators.
abbrev mul_under : ℕ → ℕ → ℕ
mul_under a b = a * b + a + b

abbrev pub fraction_add : Fraction → Fraction → Fraction
fraction_add x y = record {
  gain = x.gain * den y + y.gain * den x;
  loss = x.loss * den y + y.loss * den x;
  under = mul_under x.under y.under;
}

abbrev pub fraction_sub : Fraction → Fraction → Fraction
fraction_sub x y = fraction_add x (record { gain = y.loss; loss = y.gain; under = y.under })

abbrev pub fraction_mul : Fraction → Fraction → Fraction
fraction_mul x y = record {
  gain = x.gain * y.gain + x.loss * y.loss;
  loss = x.gain * y.loss + x.loss * y.gain;
  under = mul_under x.under y.under;
}

abbrev inverse : ℤ → ℕ → Fraction
inverse (pos zero) d = record { gain = 0; loss = 0; under = 0 }
inverse (pos (suc n)) d = record { gain = d; loss = 0; under = n }
inverse (negsuc n) d = record { gain = 0; loss = d; under = n }

abbrev pub fraction_div : Fraction → Fraction → Fraction
fraction_div x y = fraction_mul x (inverse (sub_ℕ y.gain y.loss) (den y))

abbrev pub fraction_decimal : ℕ → ℕ → Fraction
fraction_decimal n places = fraction_div (fraction_of_nat n) (fraction_of_nat (10 ^ places))

abbrev pub fraction_lt : Fraction → Fraction → Bool
fraction_lt x y = ltb (x.gain * den y + y.loss * den x) (y.gain * den x + x.loss * den y)

abbrev pub fraction_le : Fraction → Fraction → Bool
fraction_le x y = leb (x.gain * den y + y.loss * den x) (y.gain * den x + x.loss * den y)

abbrev pub fraction_to_u64 : Fraction → ℕ
fraction_to_u64 x = let n = (x.gain - x.loss) / den x in if ltb n (2 ^ 64) then n else 2 ^ 64 - 1

-- Half away from zero.
abbrev pub fraction_round : Fraction → ℤ
fraction_round x =
    if leb x.loss x.gain
    then pos ((2 * (x.gain - x.loss) + den x) / (2 * den x))
    else sub_ℕ 0 ((2 * (x.loss - x.gain) + den x) / (2 * den x))

cancel_suc : (a b d : ℕ) → a * d < b * d → a < b
cancel_suc a b d h = grind arith

scale_lt : (a b d : ℕ) → a < b → a * suc d < b * suc d
scale_lt a b d h = grind arith

scale_le : (a b d : ℕ) → a ≤ b → a * d ≤ b * d
scale_le a b d h = grind arith

-- From p/d - n/d < q/e - m/e ≤ r/f - l/f, over the common denominator.
chain_cleared :
    (p n d q m e r l f : ℕ)
    → p * e + m * d < q * d + n * e
    → q * suc f + l * e ≤ r * e + m * suc f
    → (p * suc f + l * d) * e < (r * d + n * suc f) * e
chain_cleared p n d q m e r l f h k = omega (
  arith,
  scale_lt (p * e + m * d) (q * d + n * e) f h,
  scale_le (q * suc f + l * e) (r * e + m * suc f) d k,
)

pub fraction_lt_le_trans :
    (x y z : Fraction) → fraction_lt x y ≡ true → fraction_le y z ≡ true → fraction_lt x z ≡ true
fraction_lt_le_trans x y z h k = lt→ltb _ _ (
    cancel_suc _ _ (den y) (
      chain_cleared x.gain x.loss (den x) y.gain y.loss (den y) z.gain z.loss z.under (ltb→lt _ _ h)
        (leb→le _ _ k)))

pub fraction_lt_asym : (x y : Fraction) → fraction_lt x y ≡ true → fraction_lt y x ≡ false
fraction_lt_asym x y h =
    reversed (x.gain * den y + y.loss * den x) (y.gain * den x + x.loss * den y) h
  where
    reversed : (a b : ℕ) → ltb a b ≡ true → ltb b a ≡ false
    reversed a b h = ground arith
