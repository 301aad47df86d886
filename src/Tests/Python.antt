-- ===== src/Tests/Python.antt =====
-- The Python classes on a history that halts.
use driftbrake.Base.{ℕ, ◌≡◌, refl, ◌↔◌, ◌<◌, ◌^◌, some, value, panic, debug, [], ◌∷◌}
use driftbrake.Base.Int.{pos}
use driftbrake.Base.Text.{codes}
use driftbrake.Core.Types.{halt, fast_guard, revert_gas_budget_exceeded, net_drawdown_exceeded}
use driftbrake.Core.History.{ratio, recent_ratios}
use driftbrake.Float.Rational.{Fraction, fraction_div, fraction_of_i128}
use driftbrake.Reconcile.Policy.{evaluate}
use driftbrake.Reconcile.Guards.{check_fast, check_revert_burst, check_revert_gas}
use driftbrake.Bindings.{
  PyHaltDecision, PyReconcileHistory, PyReconcilePolicy, number, reason_details, py_evaluate,
  wrap_decision,
}
use driftbrake.Bindings.Policy.{institutional, institutional_defaults}
use driftbrake.Bindings.Laws.{
  entry, IsConsistent, IsI64, py_evaluate-IsConsistent, reason_details_exact, institutional_lem,
}
use driftbrake.Tests.Sample.{rationals, policy, drifted, percent}

abbrev py_policy : PyReconcilePolicy Fraction
py_policy = record { inner = policy }

abbrev py_drifted : PyReconcileHistory
py_drifted = record { inner = drifted }

abbrev part : ℕ → Fraction
part n = fraction_div (fraction_of_i128 (pos n)) (fraction_of_i128 (pos 100))

abbrev decided : PyHaltDecision Fraction
decided = wrap_decision (halt (fast_guard (part 40 ∷ part 30 ∷ []) (percent 50)))

py_evaluate-IsConsistent_example :
    (evaluate rationals debug policy drifted ≡ value (PyHaltDecision.decision decided))
    × IsConsistent decided
unfolding py_evaluate check_revert_burst check_revert_gas check_fast recent_ratios ratio
py_evaluate-IsConsistent_example =
    py_evaluate-IsConsistent rationals debug py_policy py_drifted decided refl

institutional_lem_example :
    institutional rationals debug
      (record (institutional_defaults rationals debug) { fast_window = 0 })
    ≡ panic
institutional_lem_example =
    institutional_lem rationals debug
      (record (institutional_defaults rationals debug) { fast_window = 0 })

-- A cost of 2 ^ 64 + 5 wei.
reason_details_exact_example :
    ((entry {Float = Fraction}
          (codes "gas_cost_burned")
          (reason_details (revert_gas_budget_exceeded 18446744073709551621 100 10))
        ≡ some (number (pos 18446744073709551621)))
      ↔ (18446744073709551621 < 2 ^ 64))
    × ((entry {Float = Fraction}
            (codes "net_slippage_loss")
            (reason_details (net_drawdown_exceeded (pos 7) (pos 5) 10))
          ≡ some (number (pos 7)))
        ↔ IsI64 (pos 7))
reason_details_exact_example = reason_details_exact 18446744073709551621 100 10 (pos 7) (pos 5)
