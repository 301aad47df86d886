-- ===== src/Arbitrage/Loop/Entries.antt =====
-- examples/toy-arbitrage/src/main.rs: where the entries of the history come from that the loop decides on.
use driftbrake.Base.{
  ◌≡◌, sym, subst, inl, inr, List, [], ◌∷◌, ◌++◌, All, All-append_left, All-append_right, Profile,
}
use driftbrake.Core.Types.{ReconcileHistory, HistoryEntry, confirmed_pair, reverted_tx}
use driftbrake.Core.History.{new, append, record_revert}
use driftbrake.Float.{Floats}
use driftbrake.Poller.{Environment}
use driftbrake.Arbitrage.Rpc.Signing.{UnsignedTx}
use driftbrake.Arbitrage.Loop.{Services, Settings, Loop}
use driftbrake.Arbitrage.Loop.Turns.{IsRealized, IsReverted, IsNextHistory}
use driftbrake.Arbitrage.Loop.Halts.{Run, start, idle, submitting, again-IsLawful}

-- The entries are those of the transactions, in their order, at most one for each.
pub data Booked (P : UnsignedTx → HistoryEntry → Type 0)
    : List UnsignedTx → List HistoryEntry → Type 0 where
  none_yet : Booked P [] []
  unbooked :
      (txs : List UnsignedTx) (tx : UnsignedTx) (entries : List HistoryEntry)
      → Booked P txs entries
      → Booked P (txs ++ (tx ∷ [])) entries
  booked :
      (txs : List UnsignedTx) (tx : UnsignedTx) (entries : List HistoryEntry) (entry : HistoryEntry)
      → Booked P txs entries
      → P tx entry
      → Booked P (txs ++ (tx ∷ [])) (entries ++ (entry ∷ []))

pub Booked-map :
    {P Q : UnsignedTx → HistoryEntry → Type 0} {R : UnsignedTx → Type 0}
    → ((tx : UnsignedTx) (entry : HistoryEntry) → R tx → P tx entry → Q tx entry)
    → (txs : List UnsignedTx) (entries : List HistoryEntry) → All R txs
    → Booked P txs entries
    → Booked Q txs entries
Booked-map {R = R} f txs entries h none_yet = none_yet
Booked-map {R = R} f txs entries h (unbooked txs' tx entries' before) =
    unbooked txs' tx entries'
      (Booked-map f txs' entries' (All-append_left R txs' (tx ∷ []) h) before)
Booked-map {R = R} f txs entries h (booked txs' tx entries' entry before p) =
    booked txs' tx entries' entry
      (Booked-map f txs' entries' (All-append_left R txs' (tx ∷ []) h) before)
      (f tx entry (All-append_right R txs' (tx ∷ []) h).0 p)

module _ (fl : Floats) (profile : Profile) (env : Environment) (services : Services env)
    (settings : Settings (Floats.Float fl)) where
  -- The entry is what has become of the transaction on the chain.
  abbrev pub IsEntry : UnsignedTx → HistoryEntry → Type 0
  IsEntry tx (confirmed_pair predicted profit) =
      IsRealized fl profile env services settings tx predicted profit
  IsEntry tx (reverted_tx event) = IsReverted fl profile env services settings tx event

  next-Booked :
      (txs : List UnsignedTx) (tx : UnsignedTx) (before after : ReconcileHistory)
      → IsNextHistory fl profile env services settings tx before after
      → Booked IsEntry txs before.timeline
      → Booked IsEntry (txs ++ (tx ∷ [])) after.timeline
  unfolding append record_revert
  next-Booked txs tx before after (inl same) h =
      subst (λ (x : ReconcileHistory). Booked IsEntry (txs ++ (tx ∷ [])) x.timeline) (sym same)
        (unbooked txs tx before.timeline h)
  next-Booked txs tx before after (inr (inl (event, of_tx, recorded))) h =
      subst (λ (x : ReconcileHistory). Booked IsEntry (txs ++ (tx ∷ [])) x.timeline) (sym recorded)
        (booked txs tx before.timeline (reverted_tx event) h of_tx)
  next-Booked txs tx before after (inr (inr (predicted, profit, of_tx, appended, decision))) h =
      subst (λ (x : ReconcileHistory). Booked IsEntry (txs ++ (tx ∷ [])) x.timeline) (sym appended)
        (booked txs tx before.timeline (confirmed_pair predicted profit) h of_tx)

  -- In a run that starts with an empty history, the entries of the history are those of the submitted
  -- transactions, in their order, at most one for each. A pair's prediction is positive and that of a
  -- simulation of the transaction's call, and its profit was decoded from a confirmed receipt that the
  -- source reported for the hash that the submitter returned; a revert is that of a reverted receipt.
  pub Run-Booked :
      (first : Loop fl profile env services) (txs : List UnsignedTx)
      (last : Loop fl profile env services)
      → first.history ≡ new
      → Run fl profile env services settings first txs last
      → Booked IsEntry txs last.history.timeline
  Run-Booked first txs last empty start =
      subst (λ (x : ReconcileHistory). Booked IsEntry [] x.timeline) (sym empty) none_yet
  Run-Booked first txs last empty (idle txs' s t run e) =
      let lawful = again-IsLawful fl profile env services settings s t e in
      subst (λ (x : ReconcileHistory). Booked IsEntry txs' x.timeline) (sym lawful.1)
        (Run-Booked first txs' s empty run)
  Run-Booked first txs last empty (submitting txs' tx s t run e) =
      let lawful = again-IsLawful fl profile env services settings s t e in
      next-Booked txs' tx s.history t.history lawful.2 (Run-Booked first txs' s empty run)
