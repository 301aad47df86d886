-- ===== src/Benchmark/Sweep/Tighter.antt =====
-- Runs and batches under higher thresholds: no halt is found later, and none is missed.
use driftbrake.Base.{
  ℕ, ◌+◌, ◌≤◌, ◌≡◌, ◌≢◌, refl, sym, ◌∙◌, ◌⊎◌, inl, inr, List, [], ◌∷◌, Option, none, some, length,
  arith, value, Profile,
}
use driftbrake.Core.Types.{ReconcileHistory, continue}
use driftbrake.Core.History.{new, append}
use driftbrake.Float.{Floats, FloatLaws}
use driftbrake.Reconcile.Config.{FastGuardConfig, SlowGuardConfig, ReconcilePolicy, policy_new}
use driftbrake.Reconcile.Policy.{evaluate}
use driftbrake.Reconcile.Policy.DualGuard.{Halts, evaluate_dual_guard}
use driftbrake.Reconcile.Policy.Monotone.{IsTighter, evaluate_tighter}
use driftbrake.Benchmark.Sweep.{Sequence, run_from, run_to_first_halt, halt_times, collect}
use driftbrake.Benchmark.Sweep.FirstHalt.{
  decision_cases, step_continue, step_halt, step_panic, run_from-some,
}

module _ (fl : Floats) (profile : Profile) (fast : FastGuardConfig (Floats.Float fl))
    (slow : SlowGuardConfig (Floats.Float fl)) (policy : ReconcilePolicy (Floats.Float fl))
    (built : policy_new fl profile fast slow ≡ value policy) where
  decides_cases :
      (h : ReconcileHistory)
      → (evaluate fl profile policy h ≡ value continue) ⊎ Halts (evaluate fl profile policy h)
  decides_cases h = elim (evaluate_dual_guard fl profile fast slow policy built h) [
    | inl (e, _) ↦ inl e
    | inr (reason, e, _) ↦ inr (reason, e)
  ]

  run_from_total :
      (h : ReconcileHistory) (i : ℕ) (seq : Sequence)
      → (o : Option ℕ) × (run_from fl profile policy h i seq ≡ value o)
  run_from_total h i [] = unfold run_from in (none, refl)
  run_from_total h i (pair ∷ rest) = elim (decides_cases (append h pair.0 pair.1)) [
    | inl c ↦
        let (o, e) = run_from_total (append h pair.0 pair.1) (i + 1) rest in
        (o, step_continue fl profile policy h i pair rest c ∙ e)
    | inr halts ↦ (some (i + 1), step_halt fl profile policy h i pair rest halts)
  ]

  halt_times_step :
      (seq : Sequence) (rest : List Sequence) (o : Option ℕ) (times : List ℕ)
      → run_from fl profile policy new 0 seq ≡ value o
      → halt_times fl profile fast slow rest ≡ value times
      → halt_times fl profile fast slow (seq ∷ rest) ≡ value (collect o times)
  unfolding halt_times run_to_first_halt
  halt_times_step seq rest o times run others = rw (built, run, others)

  halt_times_total :
      (batch : List Sequence)
      → (times : List ℕ) × (halt_times fl profile fast slow batch ≡ value times)
  halt_times_total [] = unfold halt_times in ([], refl)
  halt_times_total (seq ∷ rest) =
      let (o, run) = run_from_total new 0 seq in
      let (times, others) = halt_times_total rest in
      (collect o times, halt_times_step seq rest o times run others)

module _ (fl : Floats) (laws : FloatLaws fl) (profile : Profile)
    (fast fast' : FastGuardConfig (Floats.Float fl))
    (slow slow' : SlowGuardConfig (Floats.Float fl)) (tighter : IsTighter fl fast slow fast' slow')
    (policy policy' : ReconcilePolicy (Floats.Float fl))
    (built : policy_new fl profile fast slow ≡ value policy)
    (built' : policy_new fl profile fast' slow' ≡ value policy') where
  run_from_tighter :
      (h : ReconcileHistory) (i : ℕ) (seq : Sequence) (n : ℕ)
      → run_from fl profile policy h i seq ≡ value (some n)
      → (k : ℕ) × (run_from fl profile policy' h i seq ≡ value (some k)) × (k ≤ n)
  run_from_tighter h i [] n e = unfold run_from in absurd (cc)
  run_from_tighter h i (pair ∷ rest) n e =
      elim (decision_cases (evaluate fl profile policy (append h pair.0 pair.1))) [
        | inl p ↦ absurd (cc (step_panic fl profile policy h i pair rest p))
        | inr (inr halts) ↦ (
          i + 1,
          step_halt fl profile policy' h i pair rest (
              evaluate_tighter fl laws fast fast' slow slow' tighter (append h pair.0 pair.1)
                profile profile policy policy' built built' halts),
          let same : n ≡ i + 1 = ground (arith, step_halt fl profile policy h i pair rest halts) in
              omega arith,
        )
        | inr (inl c) ↦
            let (k, later, le) =
              run_from_tighter (append h pair.0 pair.1) (i + 1) rest n
                (sym (step_continue fl profile policy h i pair rest c) ∙ e) in
            elim (decides_cases fl profile fast' slow' policy' built' (append h pair.0 pair.1)) [
              | inl c' ↦ (k, step_continue fl profile policy' h i pair rest c' ∙ later, le)
              | inr halts' ↦ (
                i + 1,
                step_halt fl profile policy' h i pair rest halts',
                let (j, en, lt, _, _) =
                      run_from-some fl profile policy (append h pair.0 pair.1) (i + 1) rest n
                        (sym (step_continue fl profile policy h i pair rest c) ∙ e) in
                    omega arith,
              )
            ]
      ]

  -- Of two policies that `new` accepts, the one with higher thresholds and the same windows halts on
  -- every sequence on which the other halts, and not later.
  pub run_to_first_halt_tighter :
      (seq : Sequence) (n : ℕ)
      → run_to_first_halt fl profile policy seq ≡ value (some n)
      → (k : ℕ) × (run_to_first_halt fl profile policy' seq ≡ value (some k)) × (k ≤ n)
  unfolding run_to_first_halt
  run_to_first_halt_tighter seq n e = run_from_tighter new 0 seq n e

  -- Over a batch on which the first configuration returns its halting times, the tighter one, with both
  -- accepted by `new`, returns at least as many.
  pub halt_times_tighter :
      (batch : List Sequence) (times : List ℕ)
      → halt_times fl profile fast slow batch ≡ value times
      → (times' : List ℕ) × (halt_times fl profile fast' slow' batch ≡ value times')
        × (length times ≤ length times')
  halt_times_tighter [] times e =
      unfold halt_times in ([], refl, (let none_yet : times ≡ [] = cc in rw none_yet (omega arith)))
  halt_times_tighter (seq ∷ rest) times e =
      let (o, run) = run_from_total fl profile fast slow policy built new 0 seq in
      let (o', run') = run_from_total fl profile fast' slow' policy' built' new 0 seq in
      let (ts, others) = halt_times_total fl profile fast slow policy built rest in
      let (ts', others', le) = halt_times_tighter rest ts others in
      let same : times ≡ collect o ts =
        cc (halt_times_step fl profile fast slow policy built seq rest o ts run others) in
      (
        collect o' ts',
        halt_times_step fl profile fast' slow' policy' built' seq rest o' ts' run' others',
        rw same (longer o o' ts ts' le (caught o o' run run')),
      )
    where
      caught :
          (o o' : Option ℕ)
          → run_from fl profile policy new 0 seq ≡ value o
          → run_from fl profile policy' new 0 seq ≡ value o'
          → (o ≡ none) ⊎ (o' ≢ none)
      caught none o' run run' = inl refl
      caught (some n) o' run run' =
          let (k, run'', le) = run_from_tighter new 0 seq n run in inr (λ e. cc)

      longer :
          (o o' : Option ℕ) (ts ts' : List ℕ)
          → length ts ≤ length ts'
          → (o ≡ none) ⊎ (o' ≢ none)
          → length (collect o ts) ≤ length (collect o' ts')
      longer none none ts ts' le c = le
      longer none (some k) ts ts' le c = omega arith
      longer (some n) (some k) ts ts' le c = omega arith
      longer (some n) none ts ts' le (inl e) = absurd (cc)
      longer (some n) none ts ts' le (inr ne) = absurd (ne refl)
