-- ===== src/Reconcile/Policy.antt =====
-- reconcile/src/lib.rs: `evaluate` runs the six checks in order and returns at the first that halts.
pub mod Halting
pub mod Windows
pub mod Laws
pub mod DualGuard
pub mod Monotone
use driftbrake.Base.{Option, none, some, Outcome, value, panic, ◌>>=◌, Profile}
use driftbrake.Core.Types.{ReconcileHistory, HaltReason, HaltDecision, continue, halt}
use driftbrake.Float.{Floats}
use driftbrake.Reconcile.Config.{ReconcilePolicy}
use driftbrake.Reconcile.Guards.{
  check_revert_burst, check_revert_gas, check_fast, check_drawdown, check_volume_weighted,
  check_slow,
}

-- `if let Some(reason) = check { return Halt(reason) }`, and the rest of the body.
abbrev pub or_else {ℓ} :
    {Float : Type 0} {A : Type ℓ} → (HaltReason Float → A) → Option (HaltReason Float) → A → A
or_else stop none rest = rest
or_else stop (some reason) rest = stop reason

abbrev pub stop_with : {Float : Type 0} → HaltReason Float → Outcome (HaltDecision Float)
stop_with reason = value (halt reason)

unfoldable pub evaluate :
    (fl : Floats)
    → Profile
    → ReconcilePolicy (Floats.Float fl)
    → ReconcileHistory
    → Outcome (HaltDecision (Floats.Float fl))
evaluate fl profile policy h =
    or_else stop_with (check_revert_burst fl profile h policy.revert_burst) (do
      gas ← check_revert_gas fl profile h policy.revert_gas
      or_else stop_with gas (
          or_else stop_with (check_fast fl profile h policy.fast) (do
            loss ← check_drawdown fl profile h policy.drawdown
            or_else stop_with loss (do
              drift ← check_volume_weighted fl profile h policy.volume_weighted
              or_else stop_with drift
                  (or_else stop_with (check_slow fl profile h policy.slow) (value continue))))))
