-- ===== src/Reconcile/Config.antt =====
-- reconcile/src/lib.rs: the configurations, and the construction of a policy with its assertions.
use driftbrake.Base.{
  ℕ, Bool, true, false, Option, none, some, ltb, Outcome, value, panic, ◌>>=◌, ◌>>◌, Profile, debug,
  release,
}
use driftbrake.Base.Int.{ℤ}
use driftbrake.Float.{Floats}

pub record FastGuardConfig (Float : Type 0) : Type 0 where
  pub threshold : Float
  pub window : ℕ

pub record SlowGuardConfig (Float : Type 0) : Type 0 where
  pub threshold : Float
  pub window : ℕ

pub record RevertBurstConfig : Type 0 where
  pub limit : ℕ

pub record RevertGasConfig : Type 0 where
  pub budget_limit : ℕ
  pub window : ℕ

pub record VolumeWeightedConfig (Float : Type 0) : Type 0 where
  pub threshold : Float
  pub window : ℕ

pub record DrawdownConfig : Type 0 where
  pub max_drawdown_limit : ℤ
  pub window : ℕ

pub record ReconcilePolicy (Float : Type 0) : Type 0 where
  pub fast : FastGuardConfig Float
  pub slow : SlowGuardConfig Float
  pub revert_burst : Option RevertBurstConfig
  pub revert_gas : Option RevertGasConfig
  pub volume_weighted : Option (VolumeWeightedConfig Float)
  pub drawdown : Option DrawdownConfig

-- `assert!` and `debug_assert!`.
abbrev pub require : Bool → Outcome (Unit {0})
require true = value tt
require false = panic

abbrev pub debug_require : Profile → Bool → Outcome (Unit {0})
debug_require debug b = require b
debug_require release b = value tt

module _ (fl : Floats) where
  open fl use {Float, decimal, lt}

  abbrev pub fast_default : FastGuardConfig Float
  fast_default = record { threshold = decimal 50 2; window = 3 }

  abbrev pub slow_default : SlowGuardConfig Float
  slow_default = record { threshold = decimal 70 2; window = 20 }

  abbrev pub volume_weighted_default : VolumeWeightedConfig Float
  volume_weighted_default = record { threshold = decimal 75 2; window = 20 }

  -- `ReconcilePolicy::new`
  unfoldable pub policy_new :
      Profile → FastGuardConfig Float → SlowGuardConfig Float → Outcome (ReconcilePolicy Float)
  policy_new profile fast slow = do
    require (ltb 0 fast.window)
    require (ltb 0 slow.window)
    debug_require profile (lt fast.threshold slow.threshold)
    value (record {
      fast = fast;
      slow = slow;
      revert_burst = none;
      revert_gas = none;
      volume_weighted = none;
      drawdown = none;
    })

  unfoldable pub default_dual_guard : Profile → Outcome (ReconcilePolicy Float)
  unfolding policy_new
  default_dual_guard profile = policy_new profile fast_default slow_default

abbrev pub revert_burst_default : RevertBurstConfig
revert_burst_default = record { limit = 3 }

module _ {Float : Type 0} where
  unfoldable pub with_revert_burst :
      ReconcilePolicy Float → RevertBurstConfig → Outcome (ReconcilePolicy Float)
  with_revert_burst policy config = do
    require (ltb 0 config.limit)
    value (record policy { revert_burst = some config })

  unfoldable pub with_revert_gas :
      ReconcilePolicy Float → RevertGasConfig → Outcome (ReconcilePolicy Float)
  with_revert_gas policy config = do
    require (ltb 0 config.window)
    value (record policy { revert_gas = some config })

  unfoldable pub with_volume_weighted :
      ReconcilePolicy Float → VolumeWeightedConfig Float → Outcome (ReconcilePolicy Float)
  with_volume_weighted policy config = do
    require (ltb 0 config.window)
    value (record policy { volume_weighted = some config })

  unfoldable pub with_drawdown :
      ReconcilePolicy Float → DrawdownConfig → Outcome (ReconcilePolicy Float)
  with_drawdown policy config = do
    require (ltb 0 config.window)
    value (record policy { drawdown = some config })

-- `ReconcilePolicy::institutional_default`
unfoldable pub institutional_default :
    (fl : Floats) → Profile → Outcome (ReconcilePolicy (Floats.Float fl))
unfolding default_dual_guard with_revert_burst with_volume_weighted
institutional_default fl profile = do
  base ← default_dual_guard fl profile
  bursts ← with_revert_burst base revert_burst_default
  with_volume_weighted bursts (volume_weighted_default fl)
