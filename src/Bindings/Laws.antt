-- ===== src/Bindings/Laws.antt =====
-- driftbrake-py/src/lib.rs: what Python reads of a decision, and which arguments build a policy.
use mathlib.Core.Option
use driftbrake.Base.{
  ℕ, ◌≡◌, refl, sym, subst, ◌↔◌, ◌<◌, ◌^◌, Bool, true, false, ◌&&◌, Option, none, some, List, [],
  ◌∷◌, ◌++◌, ◌⊎◌, inl, inr, value, panic, ◌>>=◌, >>=-eq-value, Profile, debug, release, arith,
  if◌then◌else◌, ltb, value_inj,
}
use driftbrake.Base.Int.{ℤ, pos, negsuc, to_bits}
use driftbrake.Base.Text.{codes, same_text}
use driftbrake.Core.Types.{
  HaltReason, fast_guard, slow_guard, revert_burst, revert_gas_budget_exceeded,
  volume_weighted_drift, net_drawdown_exceeded, custom, HaltDecision, continue, halt,
}
use driftbrake.Float.{Floats}
use driftbrake.Reconcile.Config.{ReconcilePolicy, institutional_default}
use driftbrake.Reconcile.Policy.{evaluate}
use driftbrake.Bindings.{
  PyHaltDecision, PyReconcileHistory, PyReconcilePolicy, Detail, text, number, as_u64, as_i64,
  reason_type, reason_details, details, unwrap_or_raise, wrap_decision, py_evaluate,
}
use driftbrake.Bindings.Policy.{
  PolicyArgs, institutional, policy_py_new, py_default_dual_guard, new_defaults,
  institutional_defaults,
}

-- `dict[key]`
abbrev pub entry : {Float : Type 0} → List ℕ → List (List ℕ × Detail Float) → Option (Detail Float)
entry key [] = none
entry key (item ∷ items) = if same_text item.0 key then some item.1 else entry key items

module _ {Float : Type 0} where
  -- What a caller of `unwrap_or_raise` is to see, in terms of the decision alone.
  abbrev pub outcome_of : HaltDecision Float → List ℕ ⊎ Unit {0}
  outcome_of continue = inr tt
  outcome_of (halt reason) = inl (codes "Execution halted by Driftbrake: " ++ reason_type reason)

  abbrev pub halts : HaltDecision Float → Bool
  halts continue = false
  halts (halt reason) = true

  -- The four views that Python has of a decision agree.
  abbrev pub IsConsistent : PyHaltDecision Float → Type 0
  IsConsistent d =
      (d.should_halt ≡ halts d.decision)
      × (entry (codes "type") (details d) ≡ Option.map text d.reason_name)
      × (unwrap_or_raise d ≡ outcome_of d.decision)

  reason-IsConsistent : (reason : HaltReason Float) → IsConsistent (wrap_decision (halt reason))
  unfolding reason_type reason_details unwrap_or_raise
  reason-IsConsistent (fast_guard window threshold) = (refl, refl, refl)
  reason-IsConsistent (slow_guard mean_ratio window_size threshold) = (refl, refl, refl)
  reason-IsConsistent (revert_burst consecutive_reverts limit) = (refl, refl, refl)
  reason-IsConsistent (revert_gas_budget_exceeded burned limit window) = (refl, refl, refl)
  reason-IsConsistent (volume_weighted_drift ratio threshold window) = (refl, refl, refl)
  reason-IsConsistent (net_drawdown_exceeded loss limit window) = (refl, refl, refl)
  reason-IsConsistent (custom message) = (refl, refl, refl)

  wrap_decision-IsConsistent : (d : HaltDecision Float) → IsConsistent (wrap_decision d)
  unfolding unwrap_or_raise
  wrap_decision-IsConsistent continue = (refl, refl, refl)
  wrap_decision-IsConsistent (halt reason) = reason-IsConsistent reason

  decision-wrap_decision : (d : HaltDecision Float) → PyHaltDecision.decision (wrap_decision d) ≡ d
  decision-wrap_decision continue = refl
  decision-wrap_decision (halt reason) = refl

-- Whenever the Python `evaluate` returns, it holds the decision of `ReconcilePolicy::evaluate`, and
-- its flag, its reason's name, the "type" of its details and its exception all agree with it.
pub py_evaluate-IsConsistent :
    (fl : Floats) (profile : Profile) (policy : PyReconcilePolicy (Floats.Float fl))
    (history : PyReconcileHistory) (d : PyHaltDecision (Floats.Float fl))
    → py_evaluate fl profile policy history ≡ value d
    → (evaluate fl profile policy.inner history.inner ≡ value d.decision) × IsConsistent d
unfolding py_evaluate
py_evaluate-IsConsistent fl profile policy history d h =
    let (decision, e, e') =
      >>=-eq-value (evaluate fl profile policy.inner history.inner) (λ x. value (wrap_decision x))
        h in
    let same = value_inj e' in
    (
      rw (e, sym (decision-wrap_decision decision), same) refl,
      subst IsConsistent same (wrap_decision-IsConsistent decision),
    )

-- The range of `i64`.
abbrev pub IsI64 : ℤ → Type 0
IsI64 (pos n) = n < 2 ^ 63
IsI64 (negsuc n) = n < 2 ^ 63

as_u64_exact : (n : ℕ) → (as_u64 n ≡ n) ↔ (n < 2 ^ 64)
unfolding as_u64
as_u64_exact n = (λ h. omega arith, λ h. omega arith)

as_i64_exact : (z : ℤ) → (as_i64 z ≡ z) ↔ IsI64 z
unfolding as_i64 to_bits
as_i64_exact (pos n) = (λ h. ground arith, λ h. ground arith)
as_i64_exact (negsuc n) = (λ h. ground arith, λ h. ground arith)

-- The details of a halt by the revert gas budget show the burned cost itself exactly if it is below
-- 2 ^ 64, and those of a halt by the drawdown the loss itself exactly if it is in the range of `i64`.
pub reason_details_exact :
    {Float : Type 0} (burned limit window : ℕ) (loss max_loss : ℤ)
    → ((entry {Float = Float}
            (codes "gas_cost_burned")
            (reason_details (revert_gas_budget_exceeded burned limit window))
          ≡ some (number (pos burned)))
        ↔ (burned < 2 ^ 64))
      × ((entry {Float = Float}
              (codes "net_slippage_loss")
              (reason_details (net_drawdown_exceeded loss max_loss window))
            ≡ some (number loss))
          ↔ IsI64 loss)
unfolding reason_details
reason_details_exact burned limit window loss max_loss = (
  (λ h. (as_u64_exact burned).0 cc, λ h. rw ((as_u64_exact burned).1 h) refl),
  (λ h. (as_i64_exact loss).0 cc, λ h. rw ((as_i64_exact loss).1 h) refl),
)

-- The assertions of the constructors, for the arguments that are given.
abbrev pub positive_if : {A : Type 0} → Option A → ℕ → Bool
positive_if none window = true
positive_if (some a) window = ltb 0 window

abbrev pub limit_positive : Option ℕ → Bool
limit_positive none = true
limit_positive (some limit) = ltb 0 limit

abbrev pub ordered_in : Profile → Bool → Bool
ordered_in debug b = b
ordered_in release b = true

module _ (fl : Floats) (profile : Profile) where
  open fl use {Float, lt}

  abbrev pub accepts : PolicyArgs Float → Bool
  accepts args =
      ltb 0 args.fast_window
      && ltb 0 args.slow_window
      && ordered_in profile (lt args.fast_threshold args.slow_threshold)
      && limit_positive args.revert_burst_limit
      && positive_if args.volume_weighted_threshold args.volume_weighted_window
      && positive_if args.revert_gas_budget args.revert_gas_window
      && positive_if args.drawdown_limit args.drawdown_window

  -- Each argument in its place, and a guard for each that is given.
  abbrev pub described : PolicyArgs Float → ReconcilePolicy Float
  described args = record {
    fast = record { threshold = args.fast_threshold; window = args.fast_window };
    slow = record { threshold = args.slow_threshold; window = args.slow_window };
    revert_burst = Option.map (λ n. record { limit = n }) args.revert_burst_limit;
    revert_gas =
        Option.map (λ n. record { budget_limit = n; window = args.revert_gas_window })
          args.revert_gas_budget;
    volume_weighted =
        Option.map (λ x. record { threshold = x; window = args.volume_weighted_window })
          args.volume_weighted_threshold;
    drawdown =
        Option.map (λ n. record { max_drawdown_limit = n; window = args.drawdown_window })
          args.drawdown_limit;
  }

  -- With any arguments the constructor panics exactly if the fast or the slow window is zero, the limit of
  -- consecutive reverts is given as zero, or the window of a volume-weighted, gas or drawdown guard that
  -- is given is zero, or in a debug build if the fast threshold is not below the slow one, so that a gas
  -- budget or a drawdown limit of zero is accepted; else it returns the policy that holds each argument in its place and a guard for each that is given, no other.
  pub institutional_lem :
      (args : PolicyArgs Float)
      → institutional fl profile args
        ≡ (if accepts args then value (record { inner = described args }) else panic)
  unfolding institutional
  institutional_lem args = ground arith

  -- The defaults in the signatures: a Python `ReconcilePolicy()` is the default dual guard, and
  -- `institutional()` is the `institutional_default` of the Rust library, panics included.
  defaults-agree :
      (policy_py_new fl profile (new_defaults fl profile) ≡ py_default_dual_guard fl profile)
      × (institutional fl profile (institutional_defaults fl profile)
          ≡ (institutional_default fl profile >>= λ p. value (record { inner = p })))
  unfolding policy_py_new py_default_dual_guard institutional institutional_default
  defaults-agree = ground arith
