-- ===== src/Tests/Policies.antt =====
-- The policy and the sweep on the drifting sequence.
use driftbrake.Base.{
  ℕ, ◌-◌, ◌^◌, ◌≤◌, ◌<◌, ◌≡◌, refl, ◌⊎◌, inl, [], ◌∷◌, none, some, take, length, value, panic,
  debug, release, arith,
}
use driftbrake.Base.Int.{pos, negsuc}
use driftbrake.Core.Types.{ReconcileHistory}
use driftbrake.Core.History.{new, append, recent_ratios, ratio}
use driftbrake.Core.History.Ratios.{valid_pairs}
use driftbrake.Float.Rational.{Fraction}
use driftbrake.Reconcile.Config.{ReconcilePolicy, policy_new}
use driftbrake.Reconcile.Guards.{
  check_drawdown, check_revert_burst, check_revert_gas, check_fast, check_slow,
}
use driftbrake.Reconcile.Guards.Drift.{FastHalt, SlowHalt}
use driftbrake.Reconcile.Guards.Overflow.{check_drawdown_overflow}
use driftbrake.Reconcile.Policy.{evaluate}
use driftbrake.Reconcile.Policy.Halting.{IsBounded}
use driftbrake.Reconcile.Policy.Laws.{Decides, Condition, evaluate_decides}
use driftbrake.Reconcile.Policy.DualGuard.{Halts, Decides→Halts, evaluate_dual_guard}
use driftbrake.Reconcile.Policy.Monotone.{IsTighter}
use driftbrake.Benchmark.Sweep.{run_to_first_halt, run_from, halt_times}
use driftbrake.Benchmark.Sweep.FirstHalt.{replay, run_to_first_halt-some}
use driftbrake.Benchmark.Sweep.Tighter.{run_to_first_halt_tighter}
use driftbrake.Tests.Sample.{
  rationals, rationals_laws, percent, fast_two, slow_three, fast_higher, slow_higher, policy,
  policy_higher, policy_built, policy_higher_built, predicted, realized, pair, drifting, drifted,
}

-- All six guards.
abbrev full_policy : ReconcilePolicy Fraction
full_policy = record {
  fast = fast_two;
  slow = slow_three;
  revert_burst = some (record { limit = 3 });
  revert_gas = some (record { budget_limit = 1000000; window = 4 });
  volume_weighted = some (record { threshold = percent 75; window = 2 });
  drawdown = some (record { max_drawdown_limit = pos 500; window = 2 });
}

drifted-IsBounded : IsBounded 100 full_policy drifted
drifted-IsBounded = record {
  amounts = ((omega arith, omega arith), ((omega arith, omega arith), tt));
  drawdown_sum = omega arith;
  volume_sums = omega arith;
  gas = omega arith;
}

evaluate_decides_example :
    Decides
      (evaluate rationals debug full_policy drifted)
      (Condition rationals debug full_policy drifted)
evaluate_decides_example =
    evaluate_decides rationals debug full_policy drifted 100 drifted-IsBounded

evaluate_dual_guard_example :
    Decides
      (evaluate rationals debug policy drifted)
      (FastHalt rationals fast_two drifted ⊎ SlowHalt rationals slow_three drifted)
evaluate_dual_guard_example =
    evaluate_dual_guard rationals debug fast_two slow_three policy policy_built drifted

tighter : IsTighter rationals fast_two slow_three fast_higher slow_higher
tighter = record {
  fast_window = refl;
  slow_window = refl;
  fast_threshold = refl;
  slow_threshold = refl;
}

policy-Halts : Halts (evaluate rationals debug policy drifted)
policy-Halts =
    Decides→Halts _ _
      (evaluate_dual_guard rationals debug fast_two slow_three policy policy_built drifted)
      (inl ([], drifted.pairs, refl, refl, (refl, (refl, tt))))

drifting_halts : run_to_first_halt rationals debug policy drifting ≡ value (some 3)
unfolding run_to_first_halt run_from append evaluate check_revert_burst check_revert_gas check_fast
    check_drawdown driftbrake.Reconcile.Guards.check_volume_weighted check_slow recent_ratios ratio
drifting_halts = refl

run_to_first_halt-some_example :
    (0 < 3)
    × (3 ≤ length drifting)
    × Halts (evaluate rationals debug policy (replay new (take 3 drifting)))
    × (run_to_first_halt rationals debug policy (take (3 - 1) drifting) ≡ value none)
run_to_first_halt-some_example =
    run_to_first_halt-some rationals debug policy drifting 3 drifting_halts

healthy_continues :
    run_to_first_halt rationals debug policy (pair 100 90 ∷ pair 100 40 ∷ []) ≡ value none
unfolding run_to_first_halt run_from append evaluate check_revert_burst check_revert_gas check_fast
    check_drawdown driftbrake.Reconcile.Guards.check_volume_weighted check_slow recent_ratios ratio
healthy_continues = refl

run_to_first_halt_tighter_example :
    (k : ℕ) × (run_to_first_halt rationals debug policy_higher drifting ≡ value (some k)) × (k ≤ 3)
run_to_first_halt_tighter_example =
    run_to_first_halt_tighter rationals rationals_laws debug fast_two fast_higher slow_three
      slow_higher tighter policy policy_higher policy_built policy_higher_built drifting 3
      drifting_halts

caught_times : halt_times rationals debug fast_two slow_three (drifting ∷ []) ≡ value (3 ∷ [])
unfolding halt_times policy_new
caught_times = rw drifting_halts

abbrev one_pair : ReconcileHistory
one_pair = append new (predicted 100) (realized 10)

one_valid : length (valid_pairs one_pair) ≡ 1
unfolding append
one_valid = refl

abbrev extreme : ReconcileHistory
extreme = record new { pairs = (predicted (2 ^ 127 - 1), record { wei = negsuc 99 }) ∷ [] }

check_drawdown_overflow_example :
    (check_drawdown rationals debug extreme
        (some (record { max_drawdown_limit = pos 500; window = 1 }))
      ≡ panic)
    × (check_drawdown rationals release extreme
          (some (record { max_drawdown_limit = pos 500; window = 1 }))
        ≡ value none)
check_drawdown_overflow_example =
    check_drawdown_overflow rationals extreme (2 ^ 127 - 1) 99 500 refl (omega arith) (omega arith)
      (omega arith)
