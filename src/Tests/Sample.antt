-- ===== src/Tests/Sample.antt =====
-- Data that the tests share: exact fractions for `f64`, two configurations, and a few histories.
use driftbrake.Base.{ℕ, ◌≡◌, refl, List, [], ◌∷◌, some, debug, value, replicate}
use driftbrake.Base.Int.{pos, negsuc}
use driftbrake.Core.Types.{
  PredictedProfit, RealizedProfit, RevertEvent, HistoryEntry, confirmed_pair, reverted_tx,
  ReconcileHistory,
}
use driftbrake.Core.History.{Pair}
use driftbrake.Float.{Floats, FloatLaws}
use driftbrake.Float.Rational.{
  Fraction, fraction_of_i128, fraction_of_nat, fraction_decimal, fraction_add, fraction_sub,
  fraction_lt_asym, fraction_mul, fraction_div, fraction_lt, fraction_le, fraction_to_u64,
  fraction_round, fraction_lt_le_trans,
}
use driftbrake.Reconcile.Config.{FastGuardConfig, SlowGuardConfig, ReconcilePolicy, policy_new}
use driftbrake.Reconcile.Policy.DualGuard.{dual_policy}

abbrev pub rationals : Floats
rationals = record {
  Float = Fraction;
  of_i128 = fraction_of_i128;
  of_nat = fraction_of_nat;
  decimal = fraction_decimal;
  add = fraction_add;
  sub = fraction_sub;
  mul = fraction_mul;
  div = fraction_div;
  sum_start = fraction_of_nat 0;
  lt = fraction_lt;
  le = fraction_le;
  to_u64 = fraction_to_u64;
  round_i128 = fraction_round;
}

pub rationals_laws : FloatLaws rationals
rationals_laws = record { lt_le_trans = fraction_lt_le_trans; lt_asym = fraction_lt_asym }

abbrev pub percent : ℕ → Fraction
percent n = fraction_decimal n 2

abbrev pub fast_two : FastGuardConfig Fraction
fast_two = record { threshold = percent 50; window = 2 }

abbrev pub slow_three : SlowGuardConfig Fraction
slow_three = record { threshold = percent 70; window = 3 }

-- The same windows with higher thresholds.
abbrev pub fast_higher : FastGuardConfig Fraction
fast_higher = record { threshold = percent 60; window = 2 }

abbrev pub slow_higher : SlowGuardConfig Fraction
slow_higher = record { threshold = percent 80; window = 3 }

abbrev pub policy : ReconcilePolicy Fraction
policy = dual_policy rationals debug fast_two slow_three

abbrev pub policy_higher : ReconcilePolicy Fraction
policy_higher = dual_policy rationals debug fast_higher slow_higher

pub policy_built : policy_new rationals debug fast_two slow_three ≡ value policy
unfolding policy_new
policy_built = refl

pub policy_higher_built : policy_new rationals debug fast_higher slow_higher ≡ value policy_higher
unfolding policy_new
policy_higher_built = refl

abbrev pub predicted : ℕ → PredictedProfit
predicted n = record { wei = pos n }

abbrev pub realized : ℕ → RealizedProfit
realized n = record { wei = pos n }

abbrev pub pair : ℕ → ℕ → Pair
pair p r = (predicted p, realized r)

abbrev pub zeros_32 : List ℕ
zeros_32 = replicate 32 0

-- A revert with the reason "é".
abbrev pub revert : RevertEvent
revert = record {
  tx_hash = zeros_32;
  block_number = 7;
  reason = some (0xc3 ∷ 0xa9 ∷ []);
  gas_used = 21000;
  effective_gas_price = 30;
}

-- A drifting sequence: ratios of 0.9, 0.4 and 0.3.
abbrev pub drifting : List Pair
drifting = pair 100 90 ∷ pair 100 40 ∷ pair 100 30 ∷ []

abbrev pub drifted : ReconcileHistory
drifted = record {
  timeline =
      confirmed_pair (predicted 100) (realized 40)
      ∷ reverted_tx revert
      ∷ confirmed_pair (predicted 100) (realized 30)
      ∷ reverted_tx revert
      ∷ [];
  pairs = pair 100 40 ∷ pair 100 30 ∷ [];
  reverts = revert ∷ revert ∷ [];
}

abbrev pub entries : List HistoryEntry
entries =
    confirmed_pair (predicted 100) (realized 40)
    ∷ reverted_tx revert
    ∷ confirmed_pair (predicted 0) (record { wei = negsuc 4 })
    ∷ []
