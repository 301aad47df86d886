-- ===== src/Arbitrage/Loop/Drift.antt =====
-- examples/toy-arbitrage/src/main.rs as a whole: the loop, from what `main` has built before it, against
-- the conditions of the two guards.
use driftbrake.Base.{
  ◌≡◌, ◌∙◌, sym, subst, List, ◌++◌, Option, none, some, ◌⊎◌, inl, inr, Outcome, value, Profile,
}
use driftbrake.Core.Types.{
  PredictedProfit, RealizedProfit, HaltReason, HaltDecision, continue, halt,
}
use driftbrake.Core.History.{Pair, append}
use driftbrake.Core.History.Ratios.{valid_pairs}
use driftbrake.Float.{Floats}
use driftbrake.Reconcile.Config.{fast_default, slow_default, default_dual_guard}
use driftbrake.Reconcile.Guards.Drift.{FastHalt, SlowHalt}
use driftbrake.Reconcile.Policy.{evaluate}
use driftbrake.Reconcile.Policy.Laws.{Decides}
use driftbrake.Reconcile.Policy.DualGuard.{evaluate_dual_guard}
use driftbrake.Poller.{Environment}
use driftbrake.Arbitrage.Hex.{ok}
use driftbrake.Arbitrage.Json.{Json}
use driftbrake.Arbitrage.Rpc.{Network}
use driftbrake.Arbitrage.Rpc.Signing.{UnsignedTx, Signer}
use driftbrake.Arbitrage.Loop.{Services, Loop, stopped, step}
use driftbrake.Arbitrage.Loop.Turns.{IsLawful}
use driftbrake.Arbitrage.Loop.Steps.{step-IsLawful}
use driftbrake.Arbitrage.Loop.Halts.{Run}
use driftbrake.Arbitrage.Loop.Windows.{IsDrifted, Run-IsSteady}
use driftbrake.Arbitrage.Startup.{CliArgs}
use driftbrake.Arbitrage.Startup.Dotenv.{Env}
use driftbrake.Arbitrage.Startup.Prepare.{Keys, Prepared, prepare}
use driftbrake.Arbitrage.Startup.Prepare.Ready.{prepare-IsReady}

-- The loop that `main` starts with what it has read and built never goes on after drift: in the history
-- of a state that it goes on from, among the confirmed trades with a positive prediction, in their order,
-- no 3 in a row all have a ratio below 0.50, and no 20 in a row have ratios with a mean below 0.70,
-- wherever they stand and whatever the chain does.
pub prepare-Run :
    ⦃js : Json⦄ (fl : Floats) (profile : Profile) (sg : Signer) (keys : Keys sg) (network : Network)
    (env : Env) (cli : CliArgs) (p : Prepared fl profile sg keys network) (chain : Environment)
    (services : Services chain) (first : Loop fl profile chain services) (txs : List UnsignedTx)
    (last : Loop fl profile chain services) (front window back : List Pair)
    → prepare fl profile sg keys network env cli ≡ ok p
    → first.history ≡ p.history
    → Run fl profile chain services p.settings first txs last
    → valid_pairs last.history ≡ front ++ (window ++ back)
    → ¬ IsDrifted fl (fast_default fl) (slow_default fl) window
unfolding default_dual_guard
prepare-Run fl profile sg keys network env cli p chain services first txs last front window back
      made begun run split =
    let ready = prepare-IsReady fl profile sg keys network env cli p made in
    Run-IsSteady fl profile chain services p.settings (fast_default fl) (slow_default fl) ready.1
      first txs last (begun ∙ ready.0) run front window back split

halt-Decides :
    {Float : Type 0} (body : Outcome (HaltDecision Float)) (Condition : Type 0)
    (reason : HaltReason Float)
    → body ≡ value (halt reason)
    → Decides body Condition
    → Condition
halt-Decides body Condition reason e (inl (other, fails)) =
    let clash : value (halt reason) ≡ value continue = sym e ∙ other in absurd (cc)
halt-Decides body Condition reason e (inr (r, other, holds)) = holds

-- Where a turn of that loop stops, it has booked a confirmed trade, and on the history with it the last
-- 3 ratios are all below 0.50 or the mean of the last 20 is below 0.70: nothing else halts the strategy.
pub prepare-stopped :
    ⦃js : Json⦄ (fl : Floats) (profile : Profile) (sg : Signer) (keys : Keys sg) (network : Network)
    (env : Env) (cli : CliArgs) (p : Prepared fl profile sg keys network) (chain : Environment)
    (services : Services chain) (last : Loop fl profile chain services) (tx : Option UnsignedTx)
    (reason : HaltReason (Floats.Float fl)) (end : Loop fl profile chain services)
    → prepare fl profile sg keys network env cli ≡ ok p
    → step fl profile chain services p.settings last ≡ (tx, stopped reason end)
    → ((predicted : PredictedProfit) × (profit : RealizedProfit) × (end.history
          ≡ append last.history predicted profit))
      × (FastHalt fl (fast_default fl) end.history ⊎ SlowHalt fl (slow_default fl) end.history)
unfolding default_dual_guard
prepare-stopped fl profile sg keys network env cli p chain services last none reason end made e =
    absurd (
      subst (IsLawful fl profile chain services p.settings last) e
        (step-IsLawful fl profile chain services p.settings last))
prepare-stopped fl profile sg keys network env cli p chain services last (some tx) reason end made
      e =
    let ready = prepare-IsReady fl profile sg keys network env cli p made in
    let (same, (predicted, profit, earned, appended, halted)) =
      subst (IsLawful fl profile chain services p.settings last) e
        (step-IsLawful fl profile chain services p.settings last) in
    (
      (predicted, profit, appended),
      halt-Decides (evaluate fl profile p.settings.halt_policy end.history)
          (FastHalt fl (fast_default fl) end.history ⊎ SlowHalt fl (slow_default fl) end.history)
          reason halted
          (evaluate_dual_guard fl profile (fast_default fl) (slow_default fl) p.settings.halt_policy
            ready.1 end.history),
    )
