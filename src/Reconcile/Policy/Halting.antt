-- ===== src/Reconcile/Policy/Halting.antt =====
-- The six conditions under which the policy is to halt, over exact integers and windows of the history,
-- and each check of reconcile/src/lib.rs against its condition. Four are as section 4 of
-- docs/whitepaper.md has them; the code's gas condition is on the cost in wei, not on gas units, and its
-- drawdown condition is on the deficit of a window, not on the fall from the peak profit.
use mathlib.Core.Bool.{false≢true}
use driftbrake.Base.{
  ℕ, ◌*◌, ◌^◌, ◌≤◌, ◌<◌, ◌≡◌, ◌≢◌, refl, ◌⊎◌, inl, inr, Bool, true, false, List, ◌++◌, Option, none,
  some, map, reverse, All, take, take_last, length, arith, ltb, leb, if◌then◌else◌, Profile, value,
  leb→le, lt→ltb, ltb→lt,
}
use driftbrake.Base.Int.{ℤ, pos, ◌<ℤ◌, sum_ℤ}
use driftbrake.Core.Types.{ReconcileHistory, HaltReason, revert_gas_budget_exceeded}
use driftbrake.Core.History.{Pair, consecutive_reverts}
use driftbrake.Core.History.Timeline.{total_gas, recent_revert_gas_burned_fits}
use driftbrake.Core.History.Ratios.{valid_pairs}
use driftbrake.Float.{Floats}
use driftbrake.Reconcile.Config.{
  FastGuardConfig, SlowGuardConfig, RevertBurstConfig, RevertGasConfig, VolumeWeightedConfig,
  DrawdownConfig, ReconcilePolicy,
}
use driftbrake.Reconcile.Guards.{check_revert_burst, check_revert_gas, check_fast, check_slow}
use driftbrake.Reconcile.Guards.Drift.{
  FastHalt, SlowHalt, check_fast→FastHalt, FastHalt→check_fast, check_slow→SlowHalt,
  SlowHalt→check_slow,
}
use driftbrake.Reconcile.Guards.Overflow.{IsWithin, deficit}

-- The last `limit` entries of the timeline, or more, are reverts.
abbrev pub BurstHalt : Option RevertBurstConfig → ReconcileHistory → Type 0
BurstHalt none h = ⊥
BurstHalt (some burst) h = burst.limit ≤ consecutive_reverts h

-- The gas used times the gas price, added up over the reverts among the last `window` entries, is more
-- than the budget.
abbrev pub GasHalt : Option RevertGasConfig → ReconcileHistory → Type 0
GasHalt none h = ⊥
GasHalt (some gas) h = gas.budget_limit < total_gas (take gas.window (reverse h.timeline))

-- The last `window` pairs exist, and their predictions exceed what they realized by more than the limit.
abbrev pub DrawdownHalt : Option DrawdownConfig → ReconcileHistory → Type 0
DrawdownHalt none h = ⊥
DrawdownHalt (some dd) h =
    (front : List Pair) × (window : List Pair) × (h.pairs ≡ front ++ window)
    × (length window ≡ dd.window)
    × (dd.max_drawdown_limit <ℤ sum_ℤ (map deficit window))

abbrev pub predicted_total : List Pair → ℤ
predicted_total window = sum_ℤ (map (λ pair. pair.0.wei) window)

abbrev pub realized_total : List Pair → ℤ
realized_total window = sum_ℤ (map (λ pair. pair.1.wei) window)

-- The last `window` valid pairs exist, and the ratio of their sums is below the threshold.
abbrev pub VolumeHalt :
    (fl : Floats) → Option (VolumeWeightedConfig (Floats.Float fl)) → ReconcileHistory → Type 0
VolumeHalt fl none h = ⊥
VolumeHalt fl (some vw) h =
    (front : List Pair) × (window : List Pair) × (valid_pairs h ≡ front ++ window)
    × (length window ≡ vw.window)
    × (pos 0 <ℤ predicted_total window)
    × (Floats.lt fl
          (Floats.div fl (Floats.of_i128 fl (realized_total window))
            (Floats.of_i128 fl (predicted_total window)))
          vw.threshold
        ≡ true)

-- How many pairs the drawdown check and the volume-weighted check add up, and the gas cost in the window
-- of the gas check.
abbrev pub drawdown_pairs : Option DrawdownConfig → ReconcileHistory → ℕ
drawdown_pairs none h = 0
drawdown_pairs (some dd) h = length (take_last dd.window h.pairs)

abbrev pub volume_pairs :
    {Float : Type 0} → Option (VolumeWeightedConfig Float) → ReconcileHistory → ℕ
volume_pairs none h = 0
volume_pairs (some vw) h = length (take_last vw.window (valid_pairs h))

abbrev pub burned_in_window : Option RevertGasConfig → ReconcileHistory → ℕ
burned_in_window none h = 0
burned_in_window (some gas) h = total_gas (take gas.window (reverse h.timeline))

-- Amounts at most `m` away from zero; so few pairs in the windows of the two checks that add amounts up
-- that twice `m` for each stays below 2 ^ 127; and a gas cost in the window of the gas check below 2 ^ 128.
pub record IsBounded {Float : Type 0} (m : ℕ) (policy : ReconcilePolicy Float)
    (h : ReconcileHistory) : Type 0 where
  pub amounts : All (IsWithin m) h.pairs
  pub drawdown_sum : 2 * m * drawdown_pairs policy.drawdown h < 2 ^ 127
  pub volume_sums : 2 * m * volume_pairs policy.volume_weighted h < 2 ^ 127
  pub gas : burned_in_window policy.revert_gas h < 2 ^ 128

-- A check answers `none` where the condition fails, and a reason where it holds.
abbrev pub Agrees : {Float : Type 0} → Option (HaltReason Float) → Type 0 → Type 0
Agrees {Float} check Condition =
    ((check ≡ none) × (¬ Condition))
    ⊎ ((reason : HaltReason Float) × (check ≡ some reason) × Condition)

agrees_of_iff :
    {Float : Type 0} (check : Option (HaltReason Float)) (Condition : Type 0)
    → ((reason : HaltReason Float) → check ≡ some reason → Condition)
    → (Condition → check ≢ none)
    → Agrees check Condition
agrees_of_iff none Condition from to = inl (refl, λ c. to c refl)
agrees_of_iff (some reason) Condition from to = inr (reason, refl, from reason refl)

pub agrees_of_test :
    {Float : Type 0} (test : Bool) (reason : HaltReason Float) (Condition : Type 0)
    → (test ≡ true → Condition)
    → (Condition → test ≡ true)
    → Agrees (if test then some reason else none) Condition
agrees_of_test true reason Condition from to = inr (reason, refl, from refl)
agrees_of_test false reason Condition from to = inl (refl, λ c. false≢true (to c))

module _ (fl : Floats) (profile : Profile) (h : ReconcileHistory) where
  open fl use {Float, of_i128, div, lt}

  pub check_revert_burst-Agrees :
      (c : Option RevertBurstConfig) → Agrees (check_revert_burst fl profile h c) (BurstHalt c h)
  unfolding check_revert_burst
  check_revert_burst-Agrees none = inl (refl, λ c. c)
  check_revert_burst-Agrees (some burst) =
      agrees_of_test (leb burst.limit (consecutive_reverts h)) _ _
        (leb→le burst.limit (consecutive_reverts h)) (λ c. ground arith)

  pub check_fast-Agrees :
      (c : FastGuardConfig Float) → Agrees (check_fast fl profile h c) (FastHalt fl c h)
  check_fast-Agrees c =
      agrees_of_iff (check_fast fl profile h c) (FastHalt fl c h)
        (check_fast→FastHalt fl profile h c)
        (λ holds e. cc (FastHalt→check_fast fl profile h c holds))

  pub check_slow-Agrees :
      (c : SlowGuardConfig Float) → Agrees (check_slow fl profile h c) (SlowHalt fl c h)
  check_slow-Agrees c =
      agrees_of_iff (check_slow fl profile h c) (SlowHalt fl c h)
        (check_slow→SlowHalt fl profile h c)
        (λ holds e. cc (SlowHalt→check_slow fl profile h c holds))

  pub check_revert_gas-Agrees :
      (c : Option RevertGasConfig)
      → burned_in_window c h < 2 ^ 128
      → (o : Option (HaltReason Float)) × (check_revert_gas fl profile h c ≡ value o)
        × Agrees o (GasHalt c h)
  unfolding check_revert_gas
  check_revert_gas-Agrees none fits = (none, refl, inl (refl, λ c. c))
  check_revert_gas-Agrees (some gas) fits =
      let burned : ℕ = total_gas (take gas.window (reverse h.timeline)) in
      (
        (if ltb gas.budget_limit burned
            then some (revert_gas_budget_exceeded burned gas.budget_limit gas.window)
            else none),
        rw (recent_revert_gas_burned_fits profile h gas.window fits),
        agrees_of_test (ltb gas.budget_limit burned) _ _ (ltb→lt gas.budget_limit burned)
            (lt→ltb gas.budget_limit burned),
      )
