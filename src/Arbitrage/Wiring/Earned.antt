-- ===== src/Arbitrage/Wiring/Earned.antt =====
-- examples/toy-arbitrage/src/main.rs as a whole: what stands behind each entry of the history.
use driftbrake.Base.{
  ℕ, ◌+◌, ◌*◌, ◌^◌, ◌<◌, ◌≡◌, refl, ap, ◌⊎◌, inl, inr, List, Option, some, All, Outcome, value,
  panic, value_inj,
}
use driftbrake.Base.Int.{pos, ◌<ℤ◌}
use driftbrake.Core.Types.{
  PredictedProfit, RealizedProfit, HistoryEntry, confirmed_pair, reverted_tx, Log, TxReceipt,
  confirmed, reverted, DecodeError, RawSimOutput,
}
use driftbrake.Core.History.{new}
use driftbrake.Poller.{revert_event}
use driftbrake.Backend.{SimError}
use driftbrake.Backend.Simulate.{Vm}
use driftbrake.Backend.Decoding.{Ran, simulate-decode_predicted}
use driftbrake.Arbitrage.Decoder.{decode_realized, inject_drift}
use driftbrake.Arbitrage.Hex.{RpcError, Fallible}
use driftbrake.Arbitrage.Json.{Json}
use driftbrake.Arbitrage.Rpc.Receipts.{get_receipt}
use driftbrake.Arbitrage.Rpc.Receipts.Laws.{IsLog, IsReceipt}
use driftbrake.Arbitrage.Rpc.Receipts.Shape.{get_receipt-IsShaped}
use driftbrake.Arbitrage.Rpc.Signing.{UnsignedTx}
use driftbrake.Arbitrage.Rpc.Signing.Laws.{IsUnsignedTx}
use driftbrake.Arbitrage.Rpc.Signing.Submit.{SignerLaws, IsBroadcast, submit-IsBroadcast}
use driftbrake.Arbitrage.Loop.{Loop, arb_candidate}
use driftbrake.Arbitrage.Loop.Turns.{IsSubmitted, IsPredicted}
use driftbrake.Arbitrage.Loop.Halts.{Run}
use driftbrake.Arbitrage.Loop.Entries.{Booked, Booked-map, IsEntry, Run-Booked}
use driftbrake.Arbitrage.Wiring.{
  Outside, System, client_at, engine_at, profit_topic, State, with_drift, environment, services,
}
use driftbrake.Poller.Settling.{IsReported, IsDecoded}

-- The ranges of the fields, on a chain whose `v` fits in a `u64`.
abbrev pub IsSendable : UnsignedTx → Type 0
IsSendable tx = IsUnsignedTx tx × (tx.chain_id * 2 + 38 < 2 ^ 64)

module _ ⦃js : Json⦄ (system : System) where
  open system use {fl, profile, sg, prepared, vm, join_error, outside}
  open outside use {World}

  -- REVM has run the transaction's call with success, and the low 128 bits of the first word of its output,
  -- as a signed number, are the prediction, which is positive.
  abbrev pub IsForeseen : UnsignedTx → PredictedProfit → Type 0
  IsForeseen tx predicted =
      (world : World) × Ran fl vm (engine_at system world)
        (arb_candidate fl profile (environment system) (services system) prepared.settings
          tx.payload)
        predicted (Vm.fresh_db vm (engine_at system world).db_factory)
      × (pos 0 <ℤ predicted.wei)

  -- The node's reply is read as that receipt, of that hash, with fields within their ranges.
  abbrev pub IsFound : List ℕ → TxReceipt → List Log → Type 0
  IsFound tx_hash receipt logs =
      ((world : World) × (get_receipt join_error (client_at system world) tx_hash
          ≡ inr (some (receipt, logs))))
      × (receipt.tx_hash ≡ tx_hash)
      × IsReceipt receipt
      × All IsLog logs

  reported-IsFound :
      (tx_hash : List ℕ) (seen : State system) (receipt : TxReceipt) (logs : List Log)
      → IsReported (environment system) tx_hash seen receipt logs
      → IsFound tx_hash receipt logs
  reported-IsFound tx_hash seen receipt logs (asked, e) =
      let found = ap (λ (x : State system × (RpcError ⊎ Option (TxReceipt × List Log))). x.1) e in
      let (v, asking, there, read, hash, ranges, within) =
        get_receipt-IsShaped join_error (client_at system asked.0) tx_hash receipt logs found in
      ((asked.0, found), hash, ranges, within)

  predicted-IsForeseen :
      (tx : UnsignedTx) (predicted : PredictedProfit)
      → IsPredicted fl profile (environment system) (services system) prepared.settings tx predicted
      → IsForeseen tx predicted
  predicted-IsForeseen tx predicted (before, after, raw, ran, decoded, positive) =
      let candidate =
        arb_candidate fl profile (environment system) (services system) prepared.settings
          tx.payload in
      (
        before.0,
        (simulate-decode_predicted fl vm (Outside.first_over outside before.0 candidate)
            (engine_at system before.0) candidate raw predicted
            (ap (λ (x : State system × (SimError ⊎ RawSimOutput)). x.1) ran) decoded).1,
        positive,
      )

  -- The decoder's answer on the receipt, and what the injected drift makes of it.
  abbrev pub IsNet : TxReceipt → List Log → RealizedProfit → Type 0
  IsNet receipt logs profit =
      (calls : ℕ) × (net : RealizedProfit) × (decode_realized profile (profit_topic system) receipt
          logs
        ≡ value (inr net))
      × ((inject_drift fl prepared.drift_after prepared.damping calls (inr net)).1 ≡ inr profit)

  abbrev second :
      State system × Outcome (DecodeError ⊎ RealizedProfit) → Outcome (DecodeError ⊎ RealizedProfit)
  second (state, answer) = answer

  drifted :
      (state after : State system) (answer : Outcome (DecodeError ⊎ RealizedProfit))
      (profit : RealizedProfit)
      → with_drift system state answer ≡ (after, value (inr profit))
      → (net : RealizedProfit) × (answer ≡ value (inr net))
        × ((inject_drift fl prepared.drift_after prepared.damping state.1 (inr net)).1 ≡ inr profit)
  unfolding inject_drift
  drifted state after panic profit e =
      let clash : panic ≡ value (inr profit) = ap second e in absurd (cc)
  drifted state after (value (inl error)) profit e =
      let clash : value (inl error) ≡ value (inr profit) = ap second e in absurd (cc)
  drifted state after (value (inr net)) profit e = (net, refl, value_inj (ap second e))

  decoded-IsNet :
      (tx_hash : List ℕ) (after : State system) (profit : RealizedProfit)
      → IsDecoded (environment system) tx_hash after (value (inr profit))
      → (receipt : TxReceipt) × (logs : List Log) × IsFound tx_hash receipt logs
        × (receipt.status ≡ confirmed)
        × IsNet receipt logs profit
  decoded-IsNet tx_hash after profit (receipt, logs, seen, reported, status, e) =
      let (net, decoded, same) =
        drifted seen after (decode_realized profile (profit_topic system) receipt logs) profit e in
      (
        receipt,
        logs,
        reported-IsFound tx_hash seen receipt logs reported,
        status,
        (seen.1, net, decoded, same),
      )

  module _ (laws : SignerLaws sg) where
    -- The node was sent the transaction, signed, and replied with a text that reads as the hash.
    abbrev pub IsSentAs : UnsignedTx → List ℕ → Type 0
    IsSentAs tx tx_hash =
        (world : World) × IsBroadcast sg laws profile (client_at system world) prepared.signing_key
          tx tx_hash

    sent-IsSentAs :
        (tx : UnsignedTx) (tx_hash : List ℕ)
        → IsSendable tx
        → IsSubmitted fl profile (environment system) (services system) prepared.settings tx tx_hash
        → IsSentAs tx tx_hash
    sent-IsSentAs tx tx_hash (ranges, fits) (before, after, e) = (
      before.0,
      submit-IsBroadcast sg laws join_error profile (client_at system before.0) prepared.signing_key
          tx tx_hash ranges fits (ap (λ (x : State system × Fallible RpcError (List ℕ)). x.1) e),
    )

    -- What stands behind an entry of the history.
    abbrev pub IsEarned : UnsignedTx → HistoryEntry → Type 0
    IsEarned tx (confirmed_pair predicted profit) =
        IsForeseen tx predicted
        × ((tx_hash : List ℕ) × (receipt : TxReceipt) × (logs : List Log) × IsSentAs tx tx_hash
            × IsFound tx_hash receipt logs
            × (receipt.status ≡ confirmed)
            × IsNet receipt logs profit)
    IsEarned tx (reverted_tx event) =
        (tx_hash : List ℕ) × (receipt : TxReceipt) × (logs : List Log) × IsSentAs tx tx_hash
        × IsFound tx_hash receipt logs
        × (receipt.status ≡ reverted)
        × (event ≡ revert_event tx_hash receipt)

    entry-IsEarned :
        (tx : UnsignedTx) (entry : HistoryEntry)
        → IsSendable tx
        → IsEntry fl profile (environment system) (services system) prepared.settings tx entry
        → IsEarned tx entry
    entry-IsEarned tx (confirmed_pair predicted profit) sendable
          (foreseen, (tx_hash, world, sent, decoded)) =
        let (receipt, logs, found, status, net) = decoded-IsNet tx_hash world profit decoded in
        (
          predicted-IsForeseen tx predicted foreseen,
          (tx_hash, receipt, logs, sent-IsSentAs tx tx_hash sendable sent, found, status, net),
        )
    entry-IsEarned tx (reverted_tx event) sendable
          (tx_hash, receipt, logs, seen, sent, reported, status, same) =
        (
          tx_hash,
          receipt,
          logs,
          sent-IsSentAs tx tx_hash sendable sent,
          reported-IsFound tx_hash seen receipt logs reported,
          status,
          same,
        )

    -- In a run of the whole program from what main has prepared, with an empty history, whose
    -- transactions are within the ranges of their types, on a chain whose v fits in a u64: the entries
    -- of the history are those of the submitted transactions, in their order, at most one for each. For
    -- each entry, at moments that are left open, the node was sent bytes that a strict reader reads as
    -- the signed transaction, and replied with a text that reads as a hash of 32 bytes, and
    -- `get_receipt` for this hash gave the receipt of the entry. A pair's prediction is positive and the
    -- low 128 bits, as a signed number, of the first word of REVM's output for the transaction's call,
    -- and its profit is the decoder's on the confirmed receipt, after the injected drift; a revert is
    -- that of a reverted receipt. The laws of the signer are taken as given.
    pub Run-IsEarned :
        (first : Loop fl profile (environment system) (services system)) (txs : List UnsignedTx)
        (last : Loop fl profile (environment system) (services system))
        → first.history ≡ new
        → Run fl profile (environment system) (services system) prepared.settings first txs last
        → All IsSendable txs
        → Booked IsEarned txs last.history.timeline
    Run-IsEarned first txs last empty run sendable =
        Booked-map entry-IsEarned txs last.history.timeline sendable (
          Run-Booked fl profile (environment system) (services system) prepared.settings first txs
            last empty run)
