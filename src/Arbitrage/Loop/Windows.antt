-- ===== src/Arbitrage/Loop/Windows.antt =====
-- examples/toy-arbitrage/src/main.rs: the windows of the histories that the loop goes on from, against the
-- conditions of the two guards.
use driftbrake.Base.{
  ◌≡◌, refl, sym, ap, subst, ◌∙◌, ◌⊎◌, inl, inr, true, List, [], ◌∷◌, ◌++◌, All, map, filter,
  length, value, panic, Profile, arith, filter-append, append-nil, ◌<◌,
}
use mathlib.Core.List.{append_assoc}
use driftbrake.Base.Int.{pos, ◌<ℤ◌}
use driftbrake.Core.Types.{PredictedProfit, RealizedProfit, ReconcileHistory, continue, halt}
use driftbrake.Core.History.{Pair, new, append, record_revert, is_valid}
use driftbrake.Core.History.Ratios.{valid_pairs}
use driftbrake.Float.{Floats}
use driftbrake.Reconcile.Config.{FastGuardConfig, SlowGuardConfig, ReconcilePolicy, policy_new}
use driftbrake.Reconcile.Guards.Drift.{rho, mean, FastHalt, SlowHalt}
use driftbrake.Reconcile.Policy.{evaluate}
use driftbrake.Reconcile.Policy.Laws.{Decides}
use driftbrake.Reconcile.Policy.DualGuard.{policy_new_lem, evaluate_dual_guard}
use driftbrake.Poller.{Environment}
use driftbrake.Arbitrage.Rpc.Signing.{UnsignedTx}
use driftbrake.Arbitrage.Loop.{Services, Settings, Loop}
use driftbrake.Arbitrage.Loop.Turns.{IsPredicted, IsNextHistory}
use driftbrake.Arbitrage.Loop.Halts.{Run, start, idle, submitting, again-IsLawful}

-- Where a list ends, in one that has a last element.
snoc_cases :
    {A : Type 0} (ys back xs : List A) (x : A)
    → ys ++ back ≡ xs ++ (x ∷ [])
    → (back ≡ []) ⊎ ((rest : List A) × (back ≡ rest ++ (x ∷ [])) × (xs ≡ ys ++ rest))
snoc_cases [] back xs x e = inr (xs, e, refl)
snoc_cases (y ∷ ys) back [] x e = inl (nil ys back (cc))
  where
    nil : {A : Type 0} (ys back : List A) → ys ++ back ≡ [] → back ≡ []
    nil [] back e = e
    nil (y ∷ ys) back e = absurd (cc)
snoc_cases (y ∷ ys) back (z ∷ xs) x e = elim (snoc_cases ys back xs x (cc)) [
  | inl none_left ↦ inl none_left
  | inr (rest, last, same) ↦ inr (rest, last, cc)
]

module _ (fl : Floats) (fast : FastGuardConfig (Floats.Float fl))
    (slow : SlowGuardConfig (Floats.Float fl)) where
  open fl use {lt}

  -- A window on which one of the two conditions holds.
  abbrev pub IsDrifted : List Pair → Type 0
  IsDrifted window =
      ((length window ≡ fast.window) × All (λ pair. lt (rho fl pair) fast.threshold ≡ true) window)
      ⊎ ((length window ≡ slow.window) × (lt (mean fl (map (rho fl) window)) slow.threshold ≡ true))

  -- No window of the valid pairs is drifted, wherever it stands.
  abbrev pub IsSteady : ReconcileHistory → Type 0
  IsSteady h =
      (front window back : List Pair)
      → valid_pairs h ≡ front ++ (window ++ back)
      → ¬ IsDrifted window

  valid_pairs-append_valid :
      (h : ReconcileHistory) (p : PredictedProfit) (r : RealizedProfit)
      → pos 0 <ℤ p.wei
      → valid_pairs (append h p r) ≡ valid_pairs h ++ ((p, r) ∷ [])
  unfolding append
  valid_pairs-append_valid h p r positive =
      filter-append is_valid h.pairs ((p, r) ∷ [])
      ∙ ap (λ (l : List Pair). valid_pairs h ++ l) included
    where
      included : filter is_valid ((p, r) ∷ []) ≡ (p, r) ∷ []
      included = ground arith

  new-IsSteady : 0 < fast.window → 0 < slow.window → IsSteady new
  new-IsSteady f s [] [] back e (inl (size, low)) = omega (arith, f, size)
  new-IsSteady f s [] [] back e (inr (size, low)) = omega (arith, s, size)
  new-IsSteady f s [] (w ∷ window) back e d = absurd (cc)
  new-IsSteady f s (x ∷ front) window back e d = absurd (cc)

  module _ (profile : Profile) (policy : ReconcilePolicy (Floats.Float fl))
      (built : policy_new fl profile fast slow ≡ value policy) where
    accepted : (0 < fast.window) × (0 < slow.window)
    accepted = elim (policy_new_lem fl profile fast slow) [
      | inl (e, ok) ↦ (ok.0, ok.1)
      | inr (e, refused) ↦ (let clash : value policy ≡ panic = sym built ∙ e in absurd (cc))
    ]

    continue-IsSteady :
        (before after : ReconcileHistory) (pair : Pair)
        → valid_pairs after ≡ valid_pairs before ++ (pair ∷ [])
        → evaluate fl profile policy after ≡ value continue
        → IsSteady before
        → IsSteady after
    continue-IsSteady before after pair grown e steady front window back split d =
        elim (snoc_cases (front ++ window) back (valid_pairs before) pair
          (append_assoc front window back ∙ sym split ∙ grown)) [
            | inl ended ↦ halts (evaluate_dual_guard fl profile fast slow policy built after) (
                at_end d (
                  split
                  ∙ ap (λ (l : List Pair). front ++ (window ++ l)) ended
                  ∙ ap (λ (l : List Pair). front ++ l) (append-nil window)))
            | inr (rest, last, same) ↦
                steady front window rest (same ∙ append_assoc front window rest) d
          ]
      where
        at_end :
            IsDrifted window
            → valid_pairs after ≡ front ++ window
            → FastHalt fl fast after ⊎ SlowHalt fl slow after
        at_end (inl (size, low)) s = inl (front, window, s, size, low)
        at_end (inr (size, low)) s = inr (front, window, s, size, low)

        halts :
            Decides
              (evaluate fl profile policy after)
              (FastHalt fl fast after ⊎ SlowHalt fl slow after)
            → ¬ (FastHalt fl fast after ⊎ SlowHalt fl slow after)
        halts (inl (c, fails)) h = fails h
        halts (inr (reason, c, holds)) h =
            let clash : value continue ≡ value (halt reason) = sym e ∙ c in absurd (cc)

module _ (fl : Floats) (profile : Profile) (env : Environment) (services : Services env)
    (settings : Settings (Floats.Float fl)) (fast : FastGuardConfig (Floats.Float fl))
    (slow : SlowGuardConfig (Floats.Float fl))
    (built : policy_new fl profile fast slow ≡ value settings.halt_policy) where
  next-IsSteady :
      (tx : UnsignedTx) (before after : ReconcileHistory)
      → IsNextHistory fl profile env services settings tx before after
      → IsSteady fl fast slow before
      → IsSteady fl fast slow after
  unfolding record_revert
  next-IsSteady tx before after (inl same) h = subst (IsSteady fl fast slow) (sym same) h
  next-IsSteady tx before after (inr (inl (event, of_tx, recorded))) h =
      subst (IsSteady fl fast slow) (sym recorded) h
  next-IsSteady tx before after (inr (inr (predicted, profit, of_tx, appended, e))) h =
      continue-IsSteady fl fast slow profile settings.halt_policy built before after
        (predicted, profit)
        (ap valid_pairs appended
          ∙ valid_pairs-append_valid fl fast slow before predicted profit (positive of_tx.0))
        e h
    where
      positive : IsPredicted fl profile env services settings tx predicted → pos 0 <ℤ predicted.wei
      positive (at, then, raw, ran, decoded, holds) = holds

  pub Run-IsSteady :
      (first : Loop fl profile env services) (txs : List UnsignedTx)
      (last : Loop fl profile env services)
      → first.history ≡ new
      → Run fl profile env services settings first txs last
      → IsSteady fl fast slow last.history
  Run-IsSteady first txs last empty start =
      let (f, s) = accepted fl fast slow profile settings.halt_policy built in
      subst (IsSteady fl fast slow) (sym empty) (new-IsSteady fl fast slow f s)
  Run-IsSteady first txs last empty (idle txs' s t run e) =
      let lawful = again-IsLawful fl profile env services settings s t e in
      subst (IsSteady fl fast slow) (sym lawful.1) (Run-IsSteady first txs' s empty run)
  Run-IsSteady first txs last empty (submitting txs' tx s t run e) =
      let lawful = again-IsLawful fl profile env services settings s t e in
      next-IsSteady tx s.history t.history lawful.2 (Run-IsSteady first txs' s empty run)
