-- ===== src/Benchmark/Sweep/FirstHalt.antt =====
-- `run_to_first_halt` finds the first prefix of a sequence on which the policy halts.
use driftbrake.Base.{
  ℕ, zero, suc, ◌+◌, ◌-◌, ◌≤◌, ◌<◌, ◌≡◌, refl, sym, ◌∙◌, ◌⊎◌, inl, inr, [], ◌∷◌, none, some, take,
  length, arith, Outcome, value, panic, Profile,
}
use driftbrake.Core.Types.{ReconcileHistory, HaltDecision, continue, halt}
use driftbrake.Core.History.{Pair, new, append}
use driftbrake.Float.{Floats}
use driftbrake.Reconcile.Config.{ReconcilePolicy}
use driftbrake.Reconcile.Policy.{evaluate}
use driftbrake.Reconcile.Policy.DualGuard.{Halts}
use driftbrake.Benchmark.Sweep.{Sequence, run_from, run_to_first_halt}

-- The history after the pairs of a sequence.
abbrev pub replay : ReconcileHistory → Sequence → ReconcileHistory
replay h [] = h
replay h (pair ∷ rest) = replay (append h pair.0 pair.1) rest

pub decision_cases :
    {Float : Type 0} (m : Outcome (HaltDecision Float))
    → (m ≡ panic) ⊎ ((m ≡ value continue) ⊎ Halts m)
decision_cases panic = inl refl
decision_cases (value continue) = inr (inl refl)
decision_cases (value (halt reason)) = inr (inr (reason, refl))

module _ (fl : Floats) (profile : Profile) (policy : ReconcilePolicy (Floats.Float fl)) where
  pub step_continue :
      (h : ReconcileHistory) (i : ℕ) (pair : Pair) (rest : Sequence)
      → evaluate fl profile policy (append h pair.0 pair.1) ≡ value continue
      → run_from fl profile policy h i (pair ∷ rest)
        ≡ run_from fl profile policy (append h pair.0 pair.1) (i + 1) rest
  unfolding run_from
  step_continue h i pair rest e = rw e

  pub step_halt :
      (h : ReconcileHistory) (i : ℕ) (pair : Pair) (rest : Sequence)
      → Halts (evaluate fl profile policy (append h pair.0 pair.1))
      → run_from fl profile policy h i (pair ∷ rest) ≡ value (some (i + 1))
  unfolding run_from
  step_halt h i pair rest (reason, e) = rw e

  pub step_panic :
      (h : ReconcileHistory) (i : ℕ) (pair : Pair) (rest : Sequence)
      → evaluate fl profile policy (append h pair.0 pair.1) ≡ panic
      → run_from fl profile policy h i (pair ∷ rest) ≡ panic
  unfolding run_from
  step_panic h i pair rest e = rw e

  pub run_from-some :
      (h : ReconcileHistory) (i : ℕ) (seq : Sequence) (n : ℕ)
      → run_from fl profile policy h i seq ≡ value (some n)
      → (k : ℕ) × (n ≡ i + suc k)
        × (k < length seq)
        × Halts (evaluate fl profile policy (replay h (take (suc k) seq)))
        × (run_from fl profile policy h i (take k seq) ≡ value none)
  run_from-some h i [] n e = unfold run_from in absurd (cc)
  run_from-some h i (pair ∷ rest) n e =
      elim (decision_cases (evaluate fl profile policy (append h pair.0 pair.1))) [
        | inl p ↦ absurd (cc (step_panic h i pair rest p))
        | inr (inl c) ↦
            let (k, en, lt, halts, before) =
              run_from-some (append h pair.0 pair.1) (i + 1) rest n
                (sym (step_continue h i pair rest c) ∙ e) in
            (
              suc k,
              omega arith,
              omega arith,
              halts,
              step_continue h i pair (take k rest) c ∙ before,
            )
        | inr (inr halts) ↦ (
          0,
          let same : n ≡ i + 1 = ground (arith, step_halt h i pair rest halts) in same,
          omega arith,
          halts,
          unfold run_from in refl,
        )
      ]

  -- A result `n` is positive and at most the length; the policy halts on the first `n` pairs, and the run
  -- on the first `n - 1` pairs finds no halt.
  pub run_to_first_halt-some :
      (seq : Sequence) (n : ℕ)
      → run_to_first_halt fl profile policy seq ≡ value (some n)
      → (0 < n)
        × (n ≤ length seq)
        × Halts (evaluate fl profile policy (replay new (take n seq)))
        × (run_to_first_halt fl profile policy (take (n - 1) seq) ≡ value none)
  unfolding run_to_first_halt
  run_to_first_halt-some seq n e =
      let (k, en, lt, halts, before) = run_from-some new 0 seq n e in
      let is_suc : n ≡ suc k = omega arith in
      let pred : n - 1 ≡ k = omega arith in
      (omega arith, omega arith, rw is_suc halts, rw pred before)

  run_from-none :
      (h : ReconcileHistory) (i : ℕ) (seq : Sequence) (j : ℕ)
      → run_from fl profile policy h i seq ≡ value none
      → j < length seq
      → evaluate fl profile policy (replay h (take (suc j) seq)) ≡ value continue
  run_from-none h i [] j e short = absurd (omega arith)
  run_from-none h i (pair ∷ rest) zero e short =
      elim (decision_cases (evaluate fl profile policy (append h pair.0 pair.1))) [
        | inl p ↦ absurd (cc (step_panic h i pair rest p))
        | inr (inl c) ↦ c
        | inr (inr halts) ↦ absurd (cc (step_halt h i pair rest halts))
      ]
  run_from-none h i (pair ∷ rest) (suc j) e short =
      elim (decision_cases (evaluate fl profile policy (append h pair.0 pair.1))) [
        | inl p ↦ absurd (cc (step_panic h i pair rest p))
        | inr (inl c) ↦
            run_from-none (append h pair.0 pair.1) (i + 1) rest j
              (sym (step_continue h i pair rest c) ∙ e) (omega arith)
        | inr (inr halts) ↦ absurd (cc (step_halt h i pair rest halts))
      ]

  -- A result `none` means: the policy continues on every prefix that is not empty.
  pub run_to_first_halt-none :
      (seq : Sequence) (j : ℕ)
      → run_to_first_halt fl profile policy seq ≡ value none
      → j < length seq
      → evaluate fl profile policy (replay new (take (suc j) seq)) ≡ value continue
  unfolding run_to_first_halt
  run_to_first_halt-none seq j e short = run_from-none new 0 seq j e short
