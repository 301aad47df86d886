-- ===== src/Reconcile/Policy/Monotone.antt =====
-- Raising a threshold never makes a guard miss what it caught (docs/whitepaper.md, Property 3).
use driftbrake.Base.{
  ℕ, ◌<◌, ◌≡◌, ap, ◌∙◌, ◌⊎◌, inl, inr, true, List, [], ◌∷◌, ◌++◌, All, arith, length, Profile,
  value, length-append,
}
use driftbrake.Core.Types.{ReconcileHistory, continue}
use driftbrake.Core.History.{Pair}
use driftbrake.Core.History.Ratios.{valid_pairs}
use driftbrake.Float.{Floats, FloatLaws}
use driftbrake.Reconcile.Config.{FastGuardConfig, SlowGuardConfig, ReconcilePolicy, policy_new}
use driftbrake.Reconcile.Guards.Drift.{FastHalt, SlowHalt, rho}
use driftbrake.Reconcile.Policy.{evaluate}
use driftbrake.Reconcile.Policy.Laws.{Decides}
use driftbrake.Reconcile.Policy.DualGuard.{
  Halts, Decides→Halts, Halts→Condition, evaluate_dual_guard,
}

module _ (fl : Floats) where
  open fl use {Float, lt, le}

  -- The same windows, and thresholds that are at least as high.
  pub record IsTighter (fast : FastGuardConfig Float) (slow : SlowGuardConfig Float)
      (fast' : FastGuardConfig Float) (slow' : SlowGuardConfig Float) : Type 0 where
    pub fast_window : fast.window ≡ fast'.window
    pub slow_window : slow.window ≡ slow'.window
    pub fast_threshold : le fast.threshold fast'.threshold ≡ true
    pub slow_threshold : le slow.threshold slow'.threshold ≡ true

module _ (fl : Floats) (laws : FloatLaws fl) where
  open fl use {Float, lt, le}

  below_tighter :
      (t t' : Float) (window : List Pair)
      → le t t' ≡ true
      → All (λ pair. lt (rho fl pair) t ≡ true) window
      → All (λ pair. lt (rho fl pair) t' ≡ true) window
  below_tighter t t' [] h below = tt
  below_tighter t t' (pair ∷ window) h below =
      (laws.lt_le_trans (rho fl pair) t t' below.0 h, below_tighter t t' window h below.1)

  module _ (fast fast' : FastGuardConfig Float) (slow slow' : SlowGuardConfig Float)
      (tighter : IsTighter fl fast slow fast' slow') (h : ReconcileHistory) where
    FastHalt-tighter : FastHalt fl fast h → FastHalt fl fast' h
    FastHalt-tighter (front, window, split, len, below) = (
      front,
      window,
      split,
      len ∙ tighter.fast_window,
      below_tighter fast.threshold fast'.threshold window tighter.fast_threshold below,
    )

    SlowHalt-tighter : SlowHalt fl slow h → SlowHalt fl slow' h
    SlowHalt-tighter (front, window, split, len, below) = (
      front,
      window,
      split,
      len ∙ tighter.slow_window,
      laws.lt_le_trans _ slow.threshold slow'.threshold below tighter.slow_threshold,
    )

    -- On one history, of two policies that `new` accepts, the one with higher thresholds and the same
    -- windows halts if the other does. The one law of floats used: x < y and y ≤ z give x < z.
    pub evaluate_tighter :
        (profile profile' : Profile) (policy policy' : ReconcilePolicy Float)
        → policy_new fl profile fast slow ≡ value policy
        → policy_new fl profile' fast' slow' ≡ value policy'
        → Halts (evaluate fl profile policy h)
        → Halts (evaluate fl profile' policy' h)
    evaluate_tighter profile profile' policy policy' built built' halts =
        Decides→Halts _ _ (evaluate_dual_guard fl profile' fast' slow' policy' built' h) (
          tighter_condition
            (Halts→Condition _ _ (evaluate_dual_guard fl profile fast slow policy built h) halts))
      where
        tighter_condition :
            FastHalt fl fast h ⊎ SlowHalt fl slow h → FastHalt fl fast' h ⊎ SlowHalt fl slow' h
        tighter_condition (inl f) = inl (FastHalt-tighter f)
        tighter_condition (inr s) = inr (SlowHalt-tighter s)

module _ (fl : Floats) (profile : Profile) (fast : FastGuardConfig (Floats.Float fl))
    (slow : SlowGuardConfig (Floats.Float fl)) (policy : ReconcilePolicy (Floats.Float fl))
    (built : policy_new fl profile fast slow ≡ value policy) where
  -- With fewer pairs of positive prediction than either window, a policy that `new` built continues.
  pub evaluate_short :
      (h : ReconcileHistory)
      → length (valid_pairs h) < fast.window
      → length (valid_pairs h) < slow.window
      → evaluate fl profile policy h ≡ value continue
  evaluate_short h few_fast few_slow =
      decided (evaluate_dual_guard fl profile fast slow policy built h)
    where
      too_long :
          (front window : List Pair) (n : ℕ)
          → valid_pairs h ≡ front ++ window
          → length window ≡ n
          → length (valid_pairs h) < n
          → ⊥
      too_long front window n split len few =
          omega (arith, ap length split, length-append front window)

      decided :
          Decides (evaluate fl profile policy h) (FastHalt fl fast h ⊎ SlowHalt fl slow h)
          → evaluate fl profile policy h ≡ value continue
      decided (inl (e, _)) = e
      decided (inr (reason, e, inl (front, window, split, len, _))) =
          absurd (too_long front window fast.window split len few_fast)
      decided (inr (reason, e, inr (front, window, split, len, _))) =
          absurd (too_long front window slow.window split len few_slow)
