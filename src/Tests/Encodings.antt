-- ===== src/Tests/Encodings.antt =====
-- The encodings of the example strategy, its decoder, and the sweep over rows.
use driftbrake.Base.{
  false, List, ◌*◌, ◌≡◌, refl, [], ◌∷◌, ◌++◌, map, All, inr, length, some, inr, arith, value, debug,
}
use driftbrake.Base.Int.{pos, ◌-ℤ◌, ◌+ℤ◌, arith_i128}
use driftbrake.Core.Types.{Log, TxReceipt, confirmed}
use driftbrake.Core.History.{new, append, recent_ratios, ratio}
use driftbrake.Reconcile.Guards.{
  check_revert_burst, check_revert_gas, check_fast, check_drawdown, check_volume_weighted,
  check_slow,
}
use driftbrake.Reconcile.Policy.{evaluate}
use driftbrake.Benchmark.Sweep.{run_to_first_halt}
use driftbrake.Batch.{Row, rows, Progress, start, run_rows}
use driftbrake.Batch.FirstHalt.{IsConfirmedRow, pair_of, from_one, run_rows-run_to_first_halt}
use driftbrake.Arbitrage.Abi.{encode_u256}
use driftbrake.Arbitrage.Decoder.{decode_realized}
use driftbrake.Arbitrage.Decoder.Netting.{decode_realized_lem}
use driftbrake.Benchmark.Generate.{rng_new, FloatFunctions, RegimeParams, drifted, generate_batch}
use driftbrake.Benchmark.Generate.Batches.{IsSynthetic, after_draws, generate_batch_lem}
use driftbrake.Tests.Sample.{percent, rationals, policy, pair, zeros_32}

abbrev receipt : TxReceipt
receipt = record {
  tx_hash = zeros_32;
  block_number = 9;
  status = confirmed;
  gas_used = 50000;
  effective_gas_price = 3;
}

abbrev other_log : Log
other_log = record { address = []; topics = (4 ∷ []) ∷ []; payload = [] }

abbrev profit_log : Log
profit_log = record { address = []; topics = (5 ∷ []) ∷ []; payload = encode_u256 900000 ++ [] }

decode_realized_lem_example :
    decode_realized debug (5 ∷ []) receipt ((other_log ∷ []) ++ (profit_log ∷ []))
    ≡ value (inr (record { wei = pos 900000 -ℤ pos (50000 * 3) }))
decode_realized_lem_example =
    decode_realized_lem debug (5 ∷ []) receipt (other_log ∷ []) profit_log [] 900000 [] refl
      (refl, tt) refl refl (omega arith) (omega arith)

abbrev final : Progress
final = record {
  history =
      append (append (append new (pair 100 90).0 (pair 100 90).1) (pair 100 40).0 (pair 100 40).1)
        (pair 100 30).0 (pair 100 30).1;
  total_halts = 1;
  first_halt_index = some 2;
  total_drawdown = pos 70;
}

abbrev table : List Row
table =
    rows (pos 100 ∷ pos 100 ∷ pos 100 ∷ []) (pos 90 ∷ pos 40 ∷ pos 30 ∷ [])
      (false ∷ false ∷ false ∷ []) (50000 ∷ []) (7 ∷ 8 ∷ [])

rows_halt : run_rows rationals debug policy 0 table start ≡ value final
unfolding rows run_rows append evaluate check_revert_burst check_revert_gas check_fast
    check_drawdown check_volume_weighted check_slow recent_ratios ratio arith_i128 ◌-ℤ◌ ◌+ℤ◌
rows_halt = refl

table_confirmed : All IsConfirmedRow table
unfolding rows
table_confirmed = (refl, (refl, (refl, tt)))

run_rows-run_to_first_halt_example :
    run_to_first_halt rationals debug policy (map pair_of table) ≡ value (from_one (some 2))
run_rows-run_to_first_halt_example =
    run_rows-run_to_first_halt rationals debug policy table final table_confirmed rows_halt

-- Stand-ins for the functions of `f64`.
abbrev functions : FloatFunctions rationals
functions = record {
  ln = λ x. x;
  sqrt = λ x. x;
  cos = λ x. x;
  min_of = λ x y. x;
  epsilon = percent 1;
  tau = percent 628;
}

abbrev regime : RegimeParams rationals functions
regime = drifted rationals functions (percent 10) (percent 60)

generate_batch_lem_example :
    (length (generate_batch rationals functions (rng_new 7) regime 2 3 (pos 100)).1 ≡ 2)
    × (All
        (IsSynthetic rationals functions regime (pos 100) 3)
        (generate_batch rationals functions (rng_new 7) regime 2 3 (pos 100)).1)
    × ((generate_batch rationals functions (rng_new 7) regime 2 3 (pos 100)).0
        ≡ after_draws (2 * (3 * 2)) (rng_new 7))
generate_batch_lem_example = generate_batch_lem rationals functions regime (pos 100) 2 3 (rng_new 7)
