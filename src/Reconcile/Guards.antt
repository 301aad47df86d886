-- ===== src/Reconcile/Guards.antt =====
-- reconcile/src/lib.rs: the six checks of `evaluate`, one function each. `none` is a check that does
-- not halt; a panic is an `i128` or `u128` overflow of a build with overflow checks.
pub mod Drift
pub mod Overflow
use mathlib.Core.List.{foldl}
use driftbrake.Base.{
  List, [], ◌∷◌, Option, none, some, map, reverse, filter, all, take, length, ltb, leb, ◌==◌, ◌&&◌,
  if◌then◌else◌, Outcome, value, ◌>>=◌, Profile,
}
use driftbrake.Base.Int.{ℤ, pos, ◌+ℤ◌, ◌-ℤ◌, ltb_ℤ, arith_i128}
use driftbrake.Core.Types.{
  ReconcileHistory, HaltReason, fast_guard, slow_guard, revert_burst, revert_gas_budget_exceeded,
  volume_weighted_drift, net_drawdown_exceeded,
}
use driftbrake.Core.History.{
  Pair, is_valid, consecutive_reverts, recent_revert_gas_burned, recent_ratios,
}
use driftbrake.Float.{Floats}
use driftbrake.Reconcile.Config.{
  FastGuardConfig, SlowGuardConfig, RevertBurstConfig, RevertGasConfig, VolumeWeightedConfig,
  DrawdownConfig,
}

-- `.sum()` over `i128`.
unfoldable pub sum_i128 : Profile → List ℤ → ℤ → Outcome ℤ
sum_i128 profile [] acc = value acc
sum_i128 profile (z ∷ rest) acc = do
  acc' ← arith_i128 profile (acc +ℤ z)
  sum_i128 profile rest acc'

-- `.map(|(p, r)| p.0 - r.0).sum()`: each difference is taken when the sum reaches it.
unfoldable pub sum_deficit : Profile → List Pair → ℤ → Outcome ℤ
sum_deficit profile [] acc = value acc
sum_deficit profile (pair ∷ rest) acc = do
  deficit ← arith_i128 profile (pair.0.wei -ℤ pair.1.wei)
  acc' ← arith_i128 profile (acc +ℤ deficit)
  sum_deficit profile rest acc'

module _ (fl : Floats) (profile : Profile) (h : ReconcileHistory) where
  open fl use {Float, of_i128, of_nat, add, div, sum_start, lt}

  -- 1. Revert burst.
  unfoldable pub check_revert_burst : Option RevertBurstConfig → Option (HaltReason Float)
  check_revert_burst none = none
  check_revert_burst (some burst) =
      let consecutive = consecutive_reverts h in
      if leb burst.limit consecutive then some (revert_burst consecutive burst.limit) else none

  -- 2. Revert gas budget.
  unfoldable pub check_revert_gas : Option RevertGasConfig → Outcome (Option (HaltReason Float))
  check_revert_gas none = value none
  check_revert_gas (some gas_cfg) = do
    burned ← recent_revert_gas_burned profile h gas_cfg.window
    value (
        if ltb gas_cfg.budget_limit burned
        then some (revert_gas_budget_exceeded burned gas_cfg.budget_limit gas_cfg.window)
        else none)

  -- 3. Fast guard.
  unfoldable pub check_fast : FastGuardConfig Float → Option (HaltReason Float)
  check_fast fast =
      let fast_window = recent_ratios fl h fast.window in
      if (length fast_window == fast.window) && all (λ ratio. lt ratio fast.threshold) fast_window
      then some (fast_guard fast_window fast.threshold)
      else none

  -- 4. Net drawdown.
  unfoldable pub check_drawdown : Option DrawdownConfig → Outcome (Option (HaltReason Float))
  check_drawdown none = value none
  check_drawdown (some dd_cfg) =
      let pairs_in_window = take dd_cfg.window (reverse h.pairs) in
      if length pairs_in_window == dd_cfg.window
      then (do
        net_slippage_loss ← sum_deficit profile pairs_in_window (pos 0)
        value (
            if ltb_ℤ dd_cfg.max_drawdown_limit net_slippage_loss
            then some
                (net_drawdown_exceeded net_slippage_loss dd_cfg.max_drawdown_limit dd_cfg.window)
            else none))
      else value none

  -- 5. Volume-weighted average ratio.
  unfoldable pub check_volume_weighted :
      Option (VolumeWeightedConfig Float) → Outcome (Option (HaltReason Float))
  check_volume_weighted none = value none
  check_volume_weighted (some vw_cfg) =
      let valid_pairs = take vw_cfg.window (filter is_valid (reverse h.pairs)) in
      if length valid_pairs == vw_cfg.window
      then (do
        total_predicted ← sum_i128 profile (map (λ pair. pair.0.wei) valid_pairs) (pos 0)
        total_realized ← sum_i128 profile (map (λ pair. pair.1.wei) valid_pairs) (pos 0)
        let weighted_ratio = div (of_i128 total_realized) (of_i128 total_predicted)
        value (
            if ltb_ℤ (pos 0) total_predicted && lt weighted_ratio vw_cfg.threshold
            then some (volume_weighted_drift weighted_ratio vw_cfg.threshold vw_cfg.window)
            else none))
      else value none

  -- 6. Slow guard.
  unfoldable pub check_slow : SlowGuardConfig Float → Option (HaltReason Float)
  check_slow slow =
      let slow_window = recent_ratios fl h slow.window in
      let mean_ratio = div (foldl add sum_start slow_window) (of_nat (length slow_window)) in
      if (length slow_window == slow.window) && lt mean_ratio slow.threshold
      then some (slow_guard mean_ratio slow.window slow.threshold)
      else none
