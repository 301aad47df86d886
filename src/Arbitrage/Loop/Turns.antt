-- ===== src/Arbitrage/Loop/Turns.antt =====
-- examples/toy-arbitrage/src/main.rs: what a turn of the loop may do to the nonce and to the history, and
-- where the entries of the history come from.
use driftbrake.Base.{ℕ, ◌+◌, ◌≡◌, ◌⊎◌, inr, List, Option, none, some, value, Profile}
use driftbrake.Base.Int.{pos, ◌<ℤ◌, arith_u64}
use driftbrake.Core.Types.{
  PredictedProfit, RealizedProfit, RawSimOutput, RevertEvent, ReconcileHistory, HaltDecision,
  continue, halt, TxReceipt, Log, reverted,
}
use driftbrake.Core.History.{append, record_revert}
use driftbrake.Float.{Floats}
use driftbrake.Reconcile.Policy.{evaluate}
use driftbrake.Poller.{Environment, revert_event}
use driftbrake.Poller.Settling.{IsReported, IsDecoded}
use driftbrake.Arbitrage.Decoder.{decode_predicted}
use driftbrake.Arbitrage.Rpc.Signing.{UnsignedTx}
use driftbrake.Arbitrage.Loop.{
  Services, Settings, Loop, arb_candidate, Turn, again, stopped, failed, panicked, unfinished,
}

module _ (fl : Floats) (profile : Profile) (env : Environment) (services : Services env)
    (settings : Settings (Floats.Float fl)) where
  open env use {World}
  open services use {simulate, submit}

  -- The submitter has answered with the hash.
  abbrev pub IsSubmitted : UnsignedTx → List ℕ → Type 0
  IsSubmitted tx tx_hash =
      (before : World) × (after : World) × (submit before tx ≡ (after, value (inr tx_hash)))

  -- The profit is positive and was decoded from a simulation of the transaction's call.
  abbrev pub IsPredicted : UnsignedTx → PredictedProfit → Type 0
  IsPredicted tx predicted =
      (before : World) × (after : World) × (raw : RawSimOutput) × (simulate before
          (arb_candidate fl profile env services settings tx.payload)
        ≡ (after, inr raw))
      × (decode_predicted raw ≡ inr predicted)
      × (pos 0 <ℤ predicted.wei)

  -- The profit was decoded from a confirmed receipt that the source reported for the transaction.
  abbrev pub IsRealized : UnsignedTx → PredictedProfit → RealizedProfit → Type 0
  IsRealized tx predicted profit =
      IsPredicted tx predicted
      × ((tx_hash : List ℕ) × (world : World) × IsSubmitted tx tx_hash
          × IsDecoded env tx_hash world (value (inr profit)))

  -- The event is that of a reverted receipt that the source reported for the transaction.
  abbrev pub IsReverted : UnsignedTx → RevertEvent → Type 0
  IsReverted tx event =
      (tx_hash : List ℕ) × (receipt : TxReceipt) × (logs : List Log) × (seen : World) × IsSubmitted
        tx tx_hash
      × IsReported env tx_hash seen receipt logs
      × (receipt.status ≡ reverted)
      × (event ≡ revert_event tx_hash receipt)

  -- How the history may differ after a turn that has submitted a transaction: by nothing, by its revert,
  -- or by its pair, after which the policy lets the strategy go on.
  abbrev pub IsNextHistory : UnsignedTx → ReconcileHistory → ReconcileHistory → Type 0
  IsNextHistory tx before after =
      (after ≡ before)
      ⊎ (((event : RevertEvent) × IsReverted tx event × (after ≡ record_revert before event))
          ⊎ ((predicted : PredictedProfit) × (profit : RealizedProfit) × IsRealized tx predicted
                profit
              × (after ≡ append before predicted profit)
              × (evaluate fl profile settings.halt_policy after ≡ value continue)))

  -- The newest pair is that of the transaction, and on it the policy halts.
  abbrev pub IsHalted :
      UnsignedTx → ReconcileHistory → ReconcileHistory → HaltDecision (Floats.Float fl) → Type 0
  IsHalted tx before after decision =
      (predicted : PredictedProfit) × (profit : RealizedProfit) × IsRealized tx predicted profit
      × (after ≡ append before predicted profit)
      × (evaluate fl profile settings.halt_policy after ≡ value decision)

  abbrev pub IsLawful :
      Loop fl profile env services → Option UnsignedTx × Turn fl profile env services → Type 0
  IsLawful self (none, again next) = (next.nonce ≡ self.nonce) × (next.history ≡ self.history)
  IsLawful self (some tx, again next) =
      (tx.nonce ≡ self.nonce)
      × (arith_u64 profile (self.nonce + 1) ≡ value next.nonce)
      × IsNextHistory tx self.history next.history
  IsLawful self (some tx, stopped reason last) =
      (tx.nonce ≡ self.nonce) × IsHalted tx self.history last.history (halt reason)
  IsLawful self (none, stopped reason last) = ⊥
  IsLawful self (some tx, failed error) = Unit {0}
  IsLawful self (some tx, panicked) = Unit {0}
  IsLawful self (some tx, unfinished) = Unit {0}
  IsLawful self (none, failed error) = Unit {0}
  IsLawful self (none, panicked) = Unit {0}
  IsLawful self (none, unfinished) = Unit {0}
