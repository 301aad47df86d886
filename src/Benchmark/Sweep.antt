-- ===== src/Benchmark/Sweep.antt =====
-- benchmark/src/sweep.rs: one policy over one sequence of pairs, and the sweep over a grid.
pub mod FirstHalt
pub mod Tighter
use driftbrake.Base.{
  ℕ, ◌+◌, ◌-◌, List, [], ◌∷◌, Option, none, some, length, Outcome, value, ◌>>=◌, Profile,
}
use driftbrake.Base.Int.{arith_u64}
use driftbrake.Core.Types.{
  PredictedProfit, RealizedProfit, ReconcileHistory, HaltDecision, continue, halt,
}
use driftbrake.Core.History.{Pair, new, append}
use driftbrake.Float.{Floats}
use driftbrake.Reconcile.Config.{FastGuardConfig, SlowGuardConfig, ReconcilePolicy, policy_new}
use driftbrake.Reconcile.Policy.{evaluate}

abbrev pub Sequence : Type 0
Sequence = List Pair

pub record SweepResult (Float : Type 0) : Type 0 where
  pub fast : FastGuardConfig Float
  pub slow : SlowGuardConfig Float
  pub false_halt_rate : Float
  pub missed_catch_rate : Float
  pub mean_time_to_catch : Option Float

-- `return Some(i + 1)` on a halt, or the rest of the loop.
abbrev pub halt_or {ℓ} : {Float : Type 0} {A : Type ℓ} → HaltDecision Float → A → A → A
halt_or continue stop rest = rest
halt_or (halt reason) stop rest = stop

-- `Iterator::sum` over `usize`.
unfoldable pub sum_usize : Profile → List ℕ → ℕ → Outcome ℕ
sum_usize profile [] acc = value acc
sum_usize profile (n ∷ rest) acc = do
  acc' ← arith_u64 profile (acc + n)
  sum_usize profile rest acc'

-- `filter_map(..).collect()`, one element.
abbrev pub collect : Option ℕ → List ℕ → List ℕ
collect none times = times
collect (some n) times = n ∷ times

module _ (fl : Floats) (profile : Profile) where
  open fl use {Float, of_nat, div}

  -- The loop at index `i`, over what is left of the sequence.
  unfoldable pub run_from :
      ReconcilePolicy Float → ReconcileHistory → ℕ → Sequence → Outcome (Option ℕ)
  run_from policy history i [] = value none
  run_from policy history i (pair ∷ rest) =
      let history' = append history pair.0 pair.1 in
      let later = run_from policy history' (i + 1) rest in
      evaluate fl profile policy history' >>= λ decision.
      halt_or decision (value (some (i + 1))) later

  unfoldable pub run_to_first_halt : ReconcilePolicy Float → Sequence → Outcome (Option ℕ)
  run_to_first_halt policy sequence = run_from policy new 0 sequence

  -- A fresh policy for each sequence; the halting times of those that halt, in order.
  unfoldable pub halt_times :
      FastGuardConfig Float → SlowGuardConfig Float → List Sequence → Outcome (List ℕ)
  halt_times fast slow [] = value []
  halt_times fast slow (seq ∷ rest) = do
    policy ← policy_new fl profile fast slow
    time ← run_to_first_halt policy seq
    times ← halt_times fast slow rest
    value (collect time times)

  -- `(!catch_times.is_empty()).then(..)`
  abbrev pub mean_time : ℕ → List ℕ → Option Float
  mean_time total [] = none
  mean_time total (t ∷ times) = some (div (of_nat total) (of_nat (length (t ∷ times))))

  -- One point of the grid. `filter(..).count()` is the number of sequences that halt.
  unfoldable pub sweep_point :
      List Sequence
      → List Sequence
      → FastGuardConfig Float
      → SlowGuardConfig Float
      → Outcome (SweepResult Float)
  sweep_point healthy_batch drifted_batch fast slow = do
    false_times ← halt_times fast slow healthy_batch
    catch_times ← halt_times fast slow drifted_batch
    total ← sum_usize profile catch_times 0
    let missed = length drifted_batch - length catch_times
    value (record {
      fast = fast;
      slow = slow;
      false_halt_rate = div (of_nat (length false_times)) (of_nat (length healthy_batch));
      missed_catch_rate = div (of_nat missed) (of_nat (length drifted_batch));
      mean_time_to_catch = mean_time total catch_times;
    })

  unfoldable pub sweep :
      List Sequence
      → List Sequence
      → List (FastGuardConfig Float × SlowGuardConfig Float)
      → Outcome (List (SweepResult Float))
  sweep healthy_batch drifted_batch [] = value []
  sweep healthy_batch drifted_batch ((fast, slow) ∷ grid) = do
    result ← sweep_point healthy_batch drifted_batch fast slow
    results ← sweep healthy_batch drifted_batch grid
    value (result ∷ results)
