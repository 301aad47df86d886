-- ===== src/Benchmark/Generate.antt =====
-- benchmark/src/rng.rs and synthetic.rs: the seeded generator and the synthetic sequences.
pub mod Batches
use driftbrake.Base.{
  ℕ, zero, suc, ◌+◌, ◌*◌, ◌/◌, ◌%◌, ◌^◌, List, [], ◌∷◌, Option, none, some, bit_xor,
}
use driftbrake.Base.Int.{ℤ, negsuc}
use driftbrake.Core.Types.{PredictedProfit, RealizedProfit}
use driftbrake.Core.History.{Pair}
use driftbrake.Float.{Floats}
use driftbrake.Benchmark.Sweep.{Sequence}

-- The constant that is added to the state.
abbrev pub gamma : ℕ
gamma = 0x9e37_79b9_7f4a_7c15

pub record Rng : Type 0 where
  pub state : ℕ

abbrev pub rng_new : ℕ → Rng
rng_new seed = record { state = bit_xor seed gamma }

abbrev pub mix : ℕ → ℕ → ℕ → ℕ
mix shift factor z = bit_xor z (z / 2 ^ shift) * factor % 2 ^ 64

-- SplitMix64: the state moves on by `gamma`, and the output is mixed from the new state.
unfoldable pub next_u64 : Rng → Rng × ℕ
next_u64 rng =
    let state = (rng.state + gamma) % 2 ^ 64 in
    let z = mix 27 0x94d0_49bb_1331_11eb (mix 30 0xbf58_476d_1ce4_e5b9 state) in
    (record { state = state }, bit_xor z (z / 2 ^ 31))

-- The functions and constants of `f64` that only the generator uses.
pub record FloatFunctions (fl : Floats) : Type 0 where
  pub ln : Floats.Float fl → Floats.Float fl
  pub sqrt : Floats.Float fl → Floats.Float fl
  pub cos : Floats.Float fl → Floats.Float fl
  pub min_of : Floats.Float fl → Floats.Float fl → Floats.Float fl
  pub epsilon : Floats.Float fl
  pub tau : Floats.Float fl

module _ (fl : Floats) (functions : FloatFunctions fl) where
  open fl use {Float, of_i128, of_nat, decimal, add, mul, div, round_i128}
  open functions use {ln, sqrt, cos, min_of, epsilon, tau}

  pub record RegimeParams : Type 0 where
    pub noise_std_dev : Float
    pub drift_mean : Option Float

  abbrev pub healthy : Float → RegimeParams
  healthy noise = record { noise_std_dev = noise; drift_mean = none }

  abbrev pub drifted : Float → Float → RegimeParams
  drifted noise mean = record { noise_std_dev = noise; drift_mean = some mean }

  abbrev pub unwrap_or : Float → Option Float → Float
  unwrap_or default none = default
  unwrap_or default (some x) = x

  abbrev pub center : RegimeParams → Float
  center regime = unwrap_or (decimal 10 1) regime.drift_mean

  -- The top 53 bits, scaled.
  unfoldable pub next_f64 : Rng → Rng × Float
  next_f64 rng =
      let drawn = next_u64 rng in
      (drawn.0, mul (of_nat (drawn.1 / 2 ^ 11)) (div (decimal 10 1) (of_nat (2 ^ 53))))

  -- Box-Muller, from two draws.
  unfoldable pub next_gaussian : Rng → Float → Float → Rng × Float
  next_gaussian rng mean std_dev =
      let first = next_f64 rng in
      let u1 = min_of (add first.1 epsilon) (decimal 10 1) in
      let second = next_f64 first.0 in
      let z0 = mul (sqrt (mul (of_i128 (negsuc 1)) (ln u1))) (cos (mul tau second.1)) in
      (second.0, add mean (mul std_dev z0))

  abbrev pub synthetic_pair : ℤ → Float → Pair
  synthetic_pair magnitude ratio =
      (record { wei = magnitude }, record { wei = round_i128 (mul (of_i128 magnitude) ratio) })

  unfoldable pub generate_sequence : Rng → RegimeParams → ℕ → ℤ → Rng × Sequence
  generate_sequence rng regime zero magnitude = (rng, [])
  generate_sequence rng regime (suc n) magnitude =
      let drawn = next_gaussian rng (center regime) regime.noise_std_dev in
      let rest = generate_sequence drawn.0 regime n magnitude in
      (rest.0, synthetic_pair magnitude drawn.1 ∷ rest.1)

  unfoldable pub generate_batch : Rng → RegimeParams → ℕ → ℕ → ℤ → Rng × List Sequence
  generate_batch rng regime zero n magnitude = (rng, [])
  generate_batch rng regime (suc count) n magnitude =
      let sequence = generate_sequence rng regime n magnitude in
      let rest = generate_batch sequence.0 regime count n magnitude in (rest.0, sequence.1 ∷ rest.1)
