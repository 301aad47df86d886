-- ===== src/Reconcile/Policy/Laws.antt =====
-- `evaluate` against the disjunction of the six conditions, and how it depends on the thresholds.
use driftbrake.Base.{
  ℕ, ◌≡◌, refl, sym, ◌⊎◌, inl, inr, Option, none, some, Profile, Outcome, value, ◌>>=◌, subst,
}
use driftbrake.Core.Types.{ReconcileHistory, HaltReason, HaltDecision, continue, halt}
use driftbrake.Float.{Floats}
use driftbrake.Reconcile.Config.{ReconcilePolicy}
use driftbrake.Reconcile.Guards.{check_revert_gas, check_drawdown, check_volume_weighted}
use driftbrake.Reconcile.Guards.Drift.{FastHalt, SlowHalt}
use driftbrake.Reconcile.Policy.{evaluate, or_else, stop_with}
use driftbrake.Reconcile.Policy.Halting.{
  BurstHalt, GasHalt, DrawdownHalt, VolumeHalt, IsBounded, Agrees, check_revert_burst-Agrees,
  check_revert_gas-Agrees, check_fast-Agrees, check_slow-Agrees,
}
use driftbrake.Reconcile.Policy.Windows.{check_drawdown-Agrees, check_volume_weighted-Agrees}

-- A body that continues where the condition fails and halts where it holds; so it does not panic.
abbrev pub Decides : {Float : Type 0} → Outcome (HaltDecision Float) → Type 0 → Type 0
Decides {Float} body Condition =
    ((body ≡ value continue) × (¬ Condition))
    ⊎ ((reason : HaltReason Float) × (body ≡ value (halt reason)) × Condition)

module _ {Float : Type 0} where
  or_else-Decides :
      (check : Option (HaltReason Float)) (rest : Outcome (HaltDecision Float)) (C D : Type 0)
      → Agrees check C
      → Decides rest D
      → Decides (or_else stop_with check rest) (C ⊎ D)
  or_else-Decides none rest C D (inl (e, fails)) (inl (r, others)) = inl (r, absent)
    where
      absent : C ⊎ D → ⊥
      absent (inl c) = fails c
      absent (inr d) = others d
  or_else-Decides none rest C D (inl (e, fails)) (inr (reason, r, d)) = inr (reason, r, inr d)
  or_else-Decides none rest C D (inr (reason, e, c)) decided = absurd (cc)
  or_else-Decides (some reason) rest C D (inl (e, fails)) decided = absurd (cc)
  or_else-Decides (some reason) rest C D (inr (reason', e, c)) decided = inr (reason, refl, inl c)

  bind-Decides :
      (check : Outcome (Option (HaltReason Float))) (rest : Outcome (HaltDecision Float))
      (C D : Type 0)
      → (o : Option (HaltReason Float)) × (check ≡ value o) × Agrees o C
      → Decides rest D
      → Decides (check >>= λ o. or_else stop_with o rest) (C ⊎ D)
  bind-Decides check rest C D (o, e, agrees) decided =
      subst
        (λ (m : Outcome (Option (HaltReason Float))).
          Decides (m >>= λ o. or_else stop_with o rest) (C ⊎ D))
        (sym e) (or_else-Decides o rest C D agrees decided)

  last-Decides :
      (check : Option (HaltReason Float)) (C : Type 0)
      → Agrees check C
      → Decides (or_else stop_with check (value continue)) C
  last-Decides none C (inl (e, fails)) = inl (refl, fails)
  last-Decides none C (inr (reason, e, c)) = absurd (cc)
  last-Decides (some reason) C (inl (e, fails)) = absurd (cc)
  last-Decides (some reason) C (inr (reason', e, c)) = inr (reason, refl, c)

module _ (fl : Floats) (profile : Profile) where
  open fl use {Float, lt, le}

  -- The six conditions, in the order of the code.
  abbrev pub Condition : ReconcilePolicy Float → ReconcileHistory → Type 0
  Condition policy h =
      BurstHalt policy.revert_burst h
      ⊎ (GasHalt policy.revert_gas h
          ⊎ (FastHalt fl policy.fast h
              ⊎ (DrawdownHalt policy.drawdown h
                  ⊎ (VolumeHalt fl policy.volume_weighted h ⊎ SlowHalt fl policy.slow h))))

  pub evaluate_of_checks :
      (policy : ReconcilePolicy Float) (h : ReconcileHistory)
      → (o : Option (HaltReason Float)) × (check_revert_gas fl profile h policy.revert_gas
          ≡ value o)
        × Agrees o (GasHalt policy.revert_gas h)
      → (o : Option (HaltReason Float)) × (check_drawdown fl profile h policy.drawdown ≡ value o)
        × Agrees o (DrawdownHalt policy.drawdown h)
      → (o : Option (HaltReason Float)) × (check_volume_weighted fl profile h policy.volume_weighted
          ≡ value o)
        × Agrees o (VolumeHalt fl policy.volume_weighted h)
      → Decides (evaluate fl profile policy h) (Condition policy h)
  unfolding evaluate
  evaluate_of_checks policy h gas loss drift =
      or_else-Decides _ _ _ _ (check_revert_burst-Agrees fl profile h policy.revert_burst) (
        bind-Decides _ _ _ _ gas (
          or_else-Decides _ _ _ _ (check_fast-Agrees fl profile h policy.fast) (
            bind-Decides _ _ _ _ loss (
              bind-Decides _ _ _ _ drift
                (last-Decides _ _ (check_slow-Agrees fl profile h policy.slow))))))

  -- On a history all of whose amounts are at most `m` away from zero, where 2 * m for each pair in the
  -- drawdown window, and for each pair in the volume-weighted window, adds up to less than 2 ^ 127, and
  -- the gas cost in the gas window is below 2 ^ 128, in either build profile: `evaluate` does not panic; it
  -- halts if one of the six conditions over exact integers holds, and continues if none does. They are
  -- those of the checks: so many trailing reverts; gas used times gas price over the reverts of a window of
  -- entries above the budget; every ratio of a window below the fast threshold; the sum of predicted less
  -- realized over a window of pairs above the limit; the ratio of the sums of a window of valid pairs below
  -- its threshold; the mean ratio of a window below the slow threshold.
  pub evaluate_decides :
      (policy : ReconcilePolicy Float) (h : ReconcileHistory) (m : ℕ)
      → IsBounded m policy h
      → Decides (evaluate fl profile policy h) (Condition policy h)
  evaluate_decides policy h m bounded =
      evaluate_of_checks policy h
        (check_revert_gas-Agrees fl profile h policy.revert_gas bounded.gas)
        (check_drawdown-Agrees fl profile h m policy.drawdown bounded.amounts bounded.drawdown_sum)
        (check_volume_weighted-Agrees fl profile h m policy.volume_weighted bounded.amounts
          bounded.volume_sums)
