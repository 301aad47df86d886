-- ===== src/Reconcile/Policy/DualGuard.antt =====
-- Policies as `ReconcilePolicy::new` builds them, with the fast and the slow guard alone.
use driftbrake.Base.{
  ◌<◌, ◌≡◌, refl, ◌⊎◌, inl, inr, true, none, arith, Profile, release, Outcome, value, panic,
}
use driftbrake.Core.Types.{ReconcileHistory, HaltReason, HaltDecision, halt}
use driftbrake.Float.{Floats}
use driftbrake.Reconcile.Config.{FastGuardConfig, SlowGuardConfig, ReconcilePolicy, policy_new}
use driftbrake.Reconcile.Guards.{check_revert_gas, check_drawdown, check_volume_weighted}
use driftbrake.Reconcile.Guards.Drift.{FastHalt, SlowHalt}
use driftbrake.Reconcile.Policy.{evaluate}
use driftbrake.Reconcile.Policy.Laws.{Decides, evaluate_of_checks}

module _ {Float : Type 0} where
  Decides-map :
      (body : Outcome (HaltDecision Float)) (C D : Type 0)
      → (C → D)
      → (D → C)
      → Decides body C
      → Decides body D
  Decides-map body C D to from (inl (e, fails)) = inl (e, λ d. fails (from d))
  Decides-map body C D to from (inr (reason, e, c)) = inr (reason, e, to c)

  abbrev pub Halts : Outcome (HaltDecision Float) → Type 0
  Halts body = (reason : HaltReason Float) × (body ≡ value (halt reason))

  pub Decides→Halts :
      (body : Outcome (HaltDecision Float)) (C : Type 0) → Decides body C → C → Halts body
  Decides→Halts body C (inl (e, fails)) c = absurd (fails c)
  Decides→Halts body C (inr (reason, e, _)) c = (reason, e)

  pub Halts→Condition :
      (body : Outcome (HaltDecision Float)) (C : Type 0) → Decides body C → Halts body → C
  Halts→Condition body C (inl (e, fails)) (reason, e') = absurd (cc)
  Halts→Condition body C (inr (reason, e, c)) halts = c

module _ (fl : Floats) (profile : Profile) where
  open fl use {Float, lt, le}

  -- A policy with these two guards and no other.
  abbrev pub dual_policy : FastGuardConfig Float → SlowGuardConfig Float → ReconcilePolicy Float
  dual_policy fast slow = record {
    fast = fast;
    slow = slow;
    revert_burst = none;
    revert_gas = none;
    volume_weighted = none;
    drawdown = none;
  }

  -- Both windows are positive and, with debug assertions, the slow threshold is above the fast one.
  abbrev pub IsAccepted : FastGuardConfig Float → SlowGuardConfig Float → Type 0
  IsAccepted fast slow =
      (0 < fast.window)
      × (0 < slow.window)
      × ((profile ≡ release) ⊎ (lt fast.threshold slow.threshold ≡ true))

  -- `new` builds the policy with exactly the two guards from configurations that are accepted, and
  -- panics on every other.
  pub policy_new_lem :
      (fast : FastGuardConfig Float) (slow : SlowGuardConfig Float)
      → ((policy_new fl profile fast slow ≡ value (dual_policy fast slow)) × IsAccepted fast slow)
        ⊎ ((policy_new fl profile fast slow ≡ panic) × (¬ IsAccepted fast slow))
  unfolding policy_new
  policy_new_lem fast slow = ground arith

  module _ (fast : FastGuardConfig Float) (slow : SlowGuardConfig Float)
      (policy : ReconcilePolicy Float)
      (built : policy_new fl profile fast slow ≡ value policy) where
    built_shape : policy ≡ dual_policy fast slow
    unfolding policy_new
    built_shape = ground arith

    -- The policy halts if the fast or the slow condition holds, continues if neither does, and does
    -- not panic, on every history and in both profiles.
    pub evaluate_dual_guard :
        (h : ReconcileHistory)
        → Decides (evaluate fl profile policy h) (FastHalt fl fast h ⊎ SlowHalt fl slow h)
    unfolding check_revert_gas check_drawdown check_volume_weighted
    evaluate_dual_guard h = rw built_shape (
        Decides-map _ _ (FastHalt fl fast h ⊎ SlowHalt fl slow h) two six (
          evaluate_of_checks fl profile _ h (none, refl, inl (refl, λ c. c))
            (none, refl, inl (refl, λ c. c)) (none, refl, inl (refl, λ c. c))))
      where
        two :
            ⊥ ⊎ (⊥ ⊎ (FastHalt fl fast h ⊎ (⊥ ⊎ (⊥ ⊎ SlowHalt fl slow h))))
            → FastHalt fl fast h ⊎ SlowHalt fl slow h
        two (inr (inr (inl f))) = inl f
        two (inr (inr (inr (inr (inr s))))) = inr s
        two (inl x) = absurd x
        two (inr (inl x)) = absurd x
        two (inr (inr (inr (inl x)))) = absurd x
        two (inr (inr (inr (inr (inl x))))) = absurd x

        six :
            FastHalt fl fast h ⊎ SlowHalt fl slow h
            → ⊥ ⊎ (⊥ ⊎ (FastHalt fl fast h ⊎ (⊥ ⊎ (⊥ ⊎ SlowHalt fl slow h))))
        six (inl f) = inr (inr (inl f))
        six (inr s) = inr (inr (inr (inr (inr s))))
