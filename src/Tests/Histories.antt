-- ===== src/Tests/Histories.antt =====
-- Histories with pairs and reverts.
use driftbrake.Base.{◌≡◌, map, reverse, take, take_last, value, debug, arith}
use driftbrake.Core.History.{new, recent_revert_gas_burned, recent_ratios}
use driftbrake.Core.History.Timeline.{
  confirmed_of, reverts_of, push_all, push_all_lem, total_gas, recent_revert_gas_burned_fits,
}
use driftbrake.Core.History.Ratios.{valid_pairs, recent_ratios_lem}
use driftbrake.Tests.Sample.{rationals, drifted, entries}

push_all_lem_example :
    ((push_all new entries).timeline ≡ entries)
    × ((push_all new entries).pairs ≡ confirmed_of entries)
    × ((push_all new entries).reverts ≡ reverts_of entries)
push_all_lem_example = push_all_lem entries

recent_revert_gas_burned_fits_example :
    recent_revert_gas_burned debug drifted 3 ≡ value (total_gas (take 3 (reverse drifted.timeline)))
recent_revert_gas_burned_fits_example = recent_revert_gas_burned_fits debug drifted 3 (omega arith)

recent_ratios_lem_example :
    recent_ratios rationals drifted 1
    ≡ map
        (λ pair. rationals.div (rationals.of_i128 pair.1.wei) (rationals.of_i128 pair.0.wei))
        (take_last 1 (valid_pairs drifted))
recent_ratios_lem_example = recent_ratios_lem rationals drifted 1
