-- ===== src/Arbitrage/Loop/Halts.antt =====
-- examples/toy-arbitrage/src/main.rs: runs of the loop, and the policy's answer on their histories.
use driftbrake.Base.{
  ◌≡◌, refl, sym, ap, subst, ◌∙◌, inl, inr, List, [], ◌∷◌, ◌++◌, Option, none, some, value, Profile,
}
use driftbrake.Core.Types.{
  PredictedProfit, RealizedProfit, ReconcileHistory, HistoryEntry, confirmed_pair, reverted_tx,
  continue,
}
use driftbrake.Core.History.{new, append, record_revert}
use driftbrake.Float.{Floats}
use driftbrake.Reconcile.Policy.{evaluate}
use driftbrake.Poller.{Environment}
use driftbrake.Arbitrage.Rpc.Signing.{UnsignedTx}
use driftbrake.Arbitrage.Loop.{Services, Settings, Loop, again, step}
use driftbrake.Arbitrage.Loop.Turns.{IsNextHistory, IsLawful}
use driftbrake.Arbitrage.Loop.Steps.{step-IsLawful}

-- The last entry of a timeline.
abbrev newest : List HistoryEntry → Option HistoryEntry
newest [] = none
newest (e ∷ []) = some e
newest (e ∷ f ∷ es) = newest (f ∷ es)

newest-append : (es : List HistoryEntry) (e : HistoryEntry) → newest (es ++ (e ∷ [])) ≡ some e
newest-append [] e = refl
newest-append (x ∷ []) e = refl
newest-append (x ∷ y ∷ es) e = newest-append (y ∷ es) e

module _ (fl : Floats) (profile : Profile) (env : Environment) (services : Services env)
    (settings : Settings (Floats.Float fl)) where
  -- Turns from a first state, with the transactions that were submitted, in order.
  pub data Run (first : Loop fl profile env services)
      : List UnsignedTx → Loop fl profile env services → Type 0 where
    start : Run first [] first
    idle :
        (txs : List UnsignedTx) (s t : Loop fl profile env services)
        → Run first txs s
        → step fl profile env services settings s ≡ (none, again t)
        → Run first txs t
    submitting :
        (txs : List UnsignedTx) (tx : UnsignedTx) (s t : Loop fl profile env services)
        → Run first txs s
        → step fl profile env services settings s ≡ (some tx, again t)
        → Run first (txs ++ (tx ∷ [])) t

  -- What a turn that goes on has done.
  pub again-IsLawful :
      (s t : Loop fl profile env services) {tx : Option UnsignedTx}
      → step fl profile env services settings s ≡ (tx, again t)
      → IsLawful fl profile env services settings s (tx, again t)
  again-IsLawful s t e =
      subst (IsLawful fl profile env services settings s) e
        (step-IsLawful fl profile env services settings s)

  -- If the newest entry is a confirmed pair, then the policy has let the strategy go on.
  abbrev pub IsCleared : ReconcileHistory → Type 0
  IsCleared h =
      (predicted : PredictedProfit) (profit : RealizedProfit)
      → newest h.timeline ≡ some (confirmed_pair predicted profit)
      → evaluate fl profile settings.halt_policy h ≡ value continue

  next-IsCleared :
      (tx : UnsignedTx) (before after : ReconcileHistory)
      → IsNextHistory fl profile env services settings tx before after
      → IsCleared before
      → IsCleared after
  unfolding append record_revert
  next-IsCleared tx before after (inl same) cleared = subst IsCleared (sym same) cleared
  next-IsCleared tx before after (inr (inl (event, from, recorded))) cleared = λ predicted profit e.
      let timeline = ap (λ (h : ReconcileHistory). newest h.timeline) recorded in
      let reverted = newest-append before.timeline (reverted_tx event) in
      let clash : some (reverted_tx event) ≡ some (confirmed_pair predicted profit) =
        sym (timeline ∙ reverted) ∙ e in
      cc
  next-IsCleared tx before after (inr (inr (p, r, earned, appended, evaluated))) cleared =
      λ predicted profit e. evaluated

  Run-IsCleared :
      (first : Loop fl profile env services) (txs : List UnsignedTx)
      (last : Loop fl profile env services)
      → first.history ≡ new
      → Run first txs last
      → IsCleared last.history
  Run-IsCleared first txs last empty start =
      subst IsCleared (sym empty) (λ predicted profit e. absurd (cc))
  Run-IsCleared first txs last empty (idle txs' s t run e) =
      let lawful = again-IsLawful s t e in
      subst IsCleared (sym lawful.1) (Run-IsCleared first txs' s empty run)
  Run-IsCleared first txs last empty (submitting txs' tx s t run e) =
      let lawful = again-IsLawful s t e in
      next-IsCleared tx s.history t.history lawful.2 (Run-IsCleared first txs' s empty run)

  -- In a run that starts with an empty history, whatever the chain does, if the newest entry of the history
  -- of a state that the loop goes on from is a confirmed pair, then the policy answers `Continue` on that
  -- history: after a confirmed trade on which it halts, no turn follows.
  evaluate-Run :
      (first : Loop fl profile env services) (txs : List UnsignedTx)
      (last : Loop fl profile env services) (predicted : PredictedProfit) (profit : RealizedProfit)
      → first.history ≡ new
      → Run first txs last
      → newest last.history.timeline ≡ some (confirmed_pair predicted profit)
      → evaluate fl profile settings.halt_policy last.history ≡ value continue
  evaluate-Run first txs last predicted profit empty run newest_pair =
      Run-IsCleared first txs last empty run predicted profit newest_pair
