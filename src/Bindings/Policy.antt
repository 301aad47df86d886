-- ===== src/Bindings/Policy.antt =====
-- driftbrake-py/src/lib.rs: the constructors of the class `ReconcilePolicy` that Python sees, with
-- the defaults of their signatures.
use driftbrake.Base.{ℕ, Option, none, some, Outcome, value, ◌>>=◌, Profile}
use driftbrake.Base.Int.{ℤ}
use driftbrake.Float.{Floats}
use driftbrake.Reconcile.Config.{
  ReconcilePolicy, policy_new, default_dual_guard, with_revert_burst, with_revert_gas,
  with_volume_weighted, with_drawdown,
}
use driftbrake.Bindings.{PyReconcilePolicy}

-- The arguments of `new` and of `institutional`.
pub record PolicyArgs (Float : Type 0) : Type 0 where
  pub fast_threshold : Float
  pub fast_window : ℕ
  pub slow_threshold : Float
  pub slow_window : ℕ
  pub revert_burst_limit : Option ℕ
  pub volume_weighted_threshold : Option Float
  pub volume_weighted_window : ℕ
  pub revert_gas_budget : Option ℕ
  pub revert_gas_window : ℕ
  pub drawdown_limit : Option ℤ
  pub drawdown_window : ℕ

module _ {Float : Type 0} where
  -- `if let Some(limit) = .. { policy = policy.with_..(..) }`
  unfoldable pub add_bursts : Option ℕ → ReconcilePolicy Float → Outcome (ReconcilePolicy Float)
  unfolding with_revert_burst
  add_bursts none policy = value policy
  add_bursts (some limit) policy = with_revert_burst policy (record { limit = limit })

  unfoldable pub add_volume_weighted :
      Option Float → ℕ → ReconcilePolicy Float → Outcome (ReconcilePolicy Float)
  unfolding with_volume_weighted
  add_volume_weighted none window policy = value policy
  add_volume_weighted (some threshold) window policy =
      with_volume_weighted policy (record { threshold = threshold; window = window })

  unfoldable pub add_gas_budget :
      Option ℕ → ℕ → ReconcilePolicy Float → Outcome (ReconcilePolicy Float)
  unfolding with_revert_gas
  add_gas_budget none window policy = value policy
  add_gas_budget (some budget_limit) window policy =
      with_revert_gas policy (record { budget_limit = budget_limit; window = window })

  unfoldable pub add_drawdown :
      Option ℤ → ℕ → ReconcilePolicy Float → Outcome (ReconcilePolicy Float)
  unfolding with_drawdown
  add_drawdown none window policy = value policy
  add_drawdown (some max_drawdown_limit) window policy =
      with_drawdown policy (record { max_drawdown_limit = max_drawdown_limit; window = window })

module _ (fl : Floats) (profile : Profile) where
  open fl use {Float, decimal}

  unfoldable pub institutional : PolicyArgs Float → Outcome (PyReconcilePolicy Float)
  unfolding policy_new add_bursts add_volume_weighted add_gas_budget add_drawdown
  institutional args = do
    base ←
        policy_new fl profile
          (record { threshold = args.fast_threshold; window = args.fast_window })
          (record { threshold = args.slow_threshold; window = args.slow_window })
    bursts ← add_bursts args.revert_burst_limit base
    volume ← add_volume_weighted args.volume_weighted_threshold args.volume_weighted_window bursts
    gas ← add_gas_budget args.revert_gas_budget args.revert_gas_window volume
    policy ← add_drawdown args.drawdown_limit args.drawdown_window gas
    value (record { inner = policy })

  -- `__new__`
  unfoldable pub policy_py_new : PolicyArgs Float → Outcome (PyReconcilePolicy Float)
  unfolding institutional
  policy_py_new args = institutional args

  unfoldable pub py_default_dual_guard : Outcome (PyReconcilePolicy Float)
  unfolding default_dual_guard
  py_default_dual_guard = do
    policy ← default_dual_guard fl profile
    value (record { inner = policy })

  abbrev pub new_defaults : PolicyArgs Float
  new_defaults = record {
    fast_threshold = decimal 50 2;
    fast_window = 3;
    slow_threshold = decimal 70 2;
    slow_window = 20;
    revert_burst_limit = none;
    volume_weighted_threshold = none;
    volume_weighted_window = 20;
    revert_gas_budget = none;
    revert_gas_window = 10;
    drawdown_limit = none;
    drawdown_window = 20;
  }

  abbrev pub institutional_defaults : PolicyArgs Float
  institutional_defaults = record {
    fast_threshold = decimal 50 2;
    fast_window = 3;
    slow_threshold = decimal 70 2;
    slow_window = 20;
    revert_burst_limit = some 3;
    volume_weighted_threshold = some (decimal 75 2);
    volume_weighted_window = 20;
    revert_gas_budget = none;
    revert_gas_window = 10;
    drawdown_limit = none;
    drawdown_window = 20;
  }
