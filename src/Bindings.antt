-- ===== src/Bindings.antt =====
-- driftbrake-py/src/lib.rs: the classes `HaltDecision` and `ReconcilePolicy.evaluate` that Python
-- sees. A dictionary is the list of its entries in the order they are set, and each key is set once.
pub mod History
pub mod Policy
pub mod Laws
use driftbrake.Base.{
  ℕ, ◌%◌, ◌^◌, Bool, true, false, Option, none, some, List, [], ◌∷◌, ◌++◌, ◌⊎◌, inl, inr, Outcome,
  value, ◌>>=◌, Profile, if◌then◌else◌, ltb, ◌-◌,
}
use driftbrake.Base.Int.{ℤ, pos, negsuc, to_bits}
use driftbrake.Base.Text.{codes}
use driftbrake.Core.Types.{
  ReconcileHistory, HaltReason, fast_guard, slow_guard, revert_burst, revert_gas_budget_exceeded,
  volume_weighted_drift, net_drawdown_exceeded, custom, HaltDecision, continue, halt,
}
use driftbrake.Float.{Floats}
use driftbrake.Reconcile.Config.{ReconcilePolicy}
use driftbrake.Reconcile.Policy.{evaluate}

pub record PyHaltDecision (Float : Type 0) : Type 0 where
  pub should_halt : Bool
  pub reason_name : Option (List ℕ)
  pub decision : HaltDecision Float

pub record PyReconcileHistory : Type 0 where
  pub inner : ReconcileHistory

pub record PyReconcilePolicy (Float : Type 0) : Type 0 where
  pub inner : ReconcilePolicy Float

-- What an entry of the dictionary holds.
pub data Detail (Float : Type 0) : Type 0 where
  text : List ℕ → Detail Float
  float : Float → Detail Float
  floats : List Float → Detail Float
  number : ℤ → Detail Float

-- `n as u64` and `z as i64`: the low 64 bits.
unfoldable pub as_u64 : ℕ → ℕ
as_u64 n = n % 2 ^ 64

unfoldable pub as_i64 : ℤ → ℤ
unfolding to_bits
as_i64 z =
    let low = to_bits z % 2 ^ 64 in if ltb low (2 ^ 63) then pos low else negsuc (2 ^ 64 - 1 - low)

-- `as_deref().unwrap_or(default)`
abbrev pub unwrap_or : Option (List ℕ) → List ℕ → List ℕ
unwrap_or none default = default
unwrap_or (some name) default = name

module _ {Float : Type 0} where
  -- The name that `evaluate` gives to a reason.
  unfoldable pub reason_type : HaltReason Float → List ℕ
  reason_type (fast_guard window threshold) = codes "FastGuard"
  reason_type (slow_guard mean_ratio window_size threshold) = codes "SlowGuard"
  reason_type (revert_burst consecutive_reverts limit) = codes "RevertBurst"
  reason_type (revert_gas_budget_exceeded gas_cost_burned budget_limit window) =
      codes "RevertGasBudgetExceeded"
  reason_type (volume_weighted_drift weighted_ratio threshold window) = codes "VolumeWeightedDrift"
  reason_type (net_drawdown_exceeded net_slippage_loss max_drawdown_limit window) =
      codes "NetDrawdownExceeded"
  reason_type (custom message) = codes "Custom"

  unfoldable pub reason_details : HaltReason Float → List (List ℕ × Detail Float)
  unfolding as_u64 as_i64
  reason_details (fast_guard window threshold) =
      (codes "type", text (codes "FastGuard"))
      ∷ (codes "threshold", float threshold)
      ∷ (codes "recent_ratios", floats window)
      ∷ []
  reason_details (slow_guard mean_ratio window_size threshold) =
      (codes "type", text (codes "SlowGuard"))
      ∷ (codes "mean_ratio", float mean_ratio)
      ∷ (codes "window_size", number (pos window_size))
      ∷ (codes "threshold", float threshold)
      ∷ []
  reason_details (revert_burst consecutive_reverts limit) =
      (codes "type", text (codes "RevertBurst"))
      ∷ (codes "consecutive_reverts", number (pos consecutive_reverts))
      ∷ (codes "limit", number (pos limit))
      ∷ []
  reason_details (revert_gas_budget_exceeded gas_cost_burned budget_limit window) =
      (codes "type", text (codes "RevertGasBudgetExceeded"))
      ∷ (codes "gas_cost_burned", number (pos (as_u64 gas_cost_burned)))
      ∷ (codes "budget_limit", number (pos (as_u64 budget_limit)))
      ∷ (codes "window", number (pos window))
      ∷ []
  reason_details (volume_weighted_drift weighted_ratio threshold window) =
      (codes "type", text (codes "VolumeWeightedDrift"))
      ∷ (codes "weighted_ratio", float weighted_ratio)
      ∷ (codes "threshold", float threshold)
      ∷ (codes "window", number (pos window))
      ∷ []
  reason_details (net_drawdown_exceeded net_slippage_loss max_drawdown_limit window) =
      (codes "type", text (codes "NetDrawdownExceeded"))
      ∷ (codes "net_slippage_loss", number (as_i64 net_slippage_loss))
      ∷ (codes "max_drawdown_limit", number (as_i64 max_drawdown_limit))
      ∷ (codes "window", number (pos window))
      ∷ []
  reason_details (custom message) =
      (codes "type", text (codes "Custom")) ∷ (codes "message", text message) ∷ []

  abbrev pub decision_details : HaltDecision Float → List (List ℕ × Detail Float)
  decision_details continue = []
  decision_details (halt reason) = reason_details reason

  -- The getter `details`.
  abbrev pub details : PyHaltDecision Float → List (List ℕ × Detail Float)
  details d = decision_details d.decision

  -- On the left the message of the `StrategyHaltedError` that is raised.
  unfoldable pub unwrap_or_raise : PyHaltDecision Float → List ℕ ⊎ Unit {0}
  unwrap_or_raise d =
      if d.should_halt
      then inl (
          codes "Execution halted by Driftbrake: "
          ++ unwrap_or d.reason_name (codes "Unknown driftbrake halt"))
      else inr tt

  -- `HaltDecision.__repr__`
  unfoldable pub decision_repr : PyHaltDecision Float → List ℕ
  decision_repr d =
      if d.should_halt
      then codes "HaltDecision(should_halt=True, reason='"
        ++ unwrap_or d.reason_name (codes "")
        ++ codes "')"
      else codes "HaltDecision(should_halt=False)"

  abbrev pub wrap_decision : HaltDecision Float → PyHaltDecision Float
  wrap_decision continue = record { should_halt = false; reason_name = none; decision = continue }
  wrap_decision (halt reason) = record {
    should_halt = true;
    reason_name = some (reason_type reason);
    decision = halt reason;
  }

-- `ReconcilePolicy.evaluate`
unfoldable pub py_evaluate :
    (fl : Floats)
    → Profile
    → PyReconcilePolicy (Floats.Float fl)
    → PyReconcileHistory
    → Outcome (PyHaltDecision (Floats.Float fl))
unfolding evaluate
py_evaluate fl profile policy history = do
  decision ← evaluate fl profile policy.inner history.inner
  value (wrap_decision decision)
