-- ===== src/Poller.antt =====
-- receipt-poller/src/lib.rs and source.rs: the configuration, and the polling loop.
pub mod Settling
use driftbrake.Base.{
  ℕ, zero, suc, ◌+◌, ◌*◌, ◌≤◌, Bool, ◌&&◌, List, Option, none, some, ◌⊎◌, inl, inr, ltb, leb,
  if◌then◌else◌, Outcome, value, panic, ◌>>◌, Profile,
}
use driftbrake.Base.Int.{arith_u64}
use driftbrake.Core.Types.{
  PredictedProfit, RealizedProfit, Log, TxStatus, confirmed, reverted, TxReceipt, RevertEvent,
  DecodeError, ReconcileHistory,
}
use driftbrake.Core.History.{append, record_revert}
use driftbrake.Float.{Floats}
use driftbrake.Reconcile.Config.{require}

pub data PollOutcome : Type 0 where
  realized : RealizedProfit → PollOutcome
  reverted_by : RevertEvent → PollOutcome
  decode_failed : DecodeError → PollOutcome
  timed_out : PollOutcome

-- `Err(PollError::Source(e))` is `source e`.
pub data PollResult (Error : Type 0) : Type 0 where
  settled : PollOutcome → PollResult Error
  source : Error → PollResult Error

pub record PollerConfig (Float : Type 0) : Type 0 where
  pub block_time_ms : ℕ
  pub poll_interval_fraction : Float
  pub confirmation_timeout_blocks : ℕ

module _ (fl : Floats) where
  open fl use {Float, of_nat, decimal, mul, lt, le, to_u64}

  unfoldable pub config_new : ℕ → Float → ℕ → Outcome (PollerConfig Float)
  config_new block_time_ms fraction blocks =
      require (ltb 0 block_time_ms)
      >> require (lt (decimal 0 1) fraction && le fraction (decimal 10 1))
      >> require (ltb 0 blocks)
      >> value (record {
        block_time_ms = block_time_ms;
        poll_interval_fraction = fraction;
        confirmation_timeout_blocks = blocks;
      })

  unfoldable pub poll_interval : PollerConfig Float → ℕ
  poll_interval config = to_u64 (mul (of_nat config.block_time_ms) config.poll_interval_fraction)

  unfoldable pub timeout : Profile → PollerConfig Float → Outcome ℕ
  timeout profile config =
      arith_u64 profile (config.block_time_ms * config.confirmation_timeout_blocks)

-- What is outside of the crate: the receipt source, the decoder, which may keep a state and may panic,
-- and the clock in milliseconds.
pub record Environment : Type 1 where
  pub World : Type 0
  pub Error : Type 0
  pub get_receipt : World → List ℕ → World × (Error ⊎ Option (TxReceipt × List Log))
  pub decode_realized :
      World → TxReceipt → List Log → World × Outcome (DecodeError ⊎ RealizedProfit)
  pub now : World → ℕ
  pub sleep : ℕ → World → World

-- The clock does not run backwards, and a sleep takes its time.
pub record ClockLaws (env : Environment) : Type 0 where
  pub get_receipt_takes_time :
      (w : Environment.World env) (tx_hash : List ℕ)
      → Environment.now env w ≤ Environment.now env (Environment.get_receipt env w tx_hash).0
  pub sleep_lasts :
      (d : ℕ) (w : Environment.World env)
      → Environment.now env w + d ≤ Environment.now env (Environment.sleep env d w)

-- The revert that is recorded for a receipt.
abbrev pub revert_event : List ℕ → TxReceipt → RevertEvent
revert_event tx_hash receipt = record {
  tx_hash = tx_hash;
  block_number = receipt.block_number;
  reason = none;
  gas_used = receipt.gas_used;
  effective_gas_price = receipt.effective_gas_price;
}

module _ (env : Environment) where
  open env use {World, Error, get_receipt, decode_realized, now, sleep}

  -- The decoder's answer.
  abbrev pub book_decoded :
      PredictedProfit
      → ReconcileHistory
      → World × Outcome (DecodeError ⊎ RealizedProfit)
      → Outcome (World × ReconcileHistory × PollOutcome)
  book_decoded predicted history (world, panic) = panic
  book_decoded predicted history (world, value (inl decode_err)) =
      value (world, history, decode_failed decode_err)
  book_decoded predicted history (world, value (inr profit)) =
      value (world, append history predicted profit, realized profit)

  -- `match receipt.status`
  abbrev pub book_status :
      TxStatus
      → List ℕ
      → PredictedProfit
      → ReconcileHistory
      → World
      → TxReceipt
      → List Log
      → Outcome (World × ReconcileHistory × PollOutcome)
  book_status reverted tx_hash predicted history world receipt logs =
      let event = revert_event tx_hash receipt in
      value (world, record_revert history event, reverted_by event)
  book_status confirmed tx_hash predicted history world receipt logs =
      book_decoded predicted history (decode_realized world receipt logs)

  -- A receipt has appeared: the history and the outcome.
  unfoldable pub book :
      List ℕ
      → PredictedProfit
      → ReconcileHistory
      → World
      → TxReceipt
      → List Log
      → Outcome (World × ReconcileHistory × PollOutcome)
  book tx_hash predicted history world receipt logs =
      book_status receipt.status tx_hash predicted history world receipt logs

  -- What a call of `poll_until_settled` leaves: the world, the history and the result, or a panic.
  abbrev pub Polled : Type 0
  Polled = Outcome (World × ReconcileHistory × PollResult Error)

  -- `return Ok(..)`
  abbrev pub settle : Outcome (World × ReconcileHistory × PollOutcome) → Polled
  settle panic = panic
  settle (value (world, history, outcome)) = value (world, history, settled outcome)

  -- One answer of the source; `again` is the rest of the loop.
  abbrev pub on_answer :
      ℕ
      → List ℕ
      → PredictedProfit
      → ReconcileHistory
      → World
      → Error ⊎ Option (TxReceipt × List Log)
      → Option Polled
      → Option Polled
  on_answer deadline tx_hash predicted history world (inl error) again =
      some (value (world, history, source error))
  on_answer deadline tx_hash predicted history world (inr (some (receipt, logs))) again =
      some (settle (book tx_hash predicted history world receipt logs))
  on_answer deadline tx_hash predicted history world (inr none) again =
      if leb deadline (now world) then some (value (world, history, settled timed_out)) else again

  -- The loop, at most `fuel` rounds; `none` is a loop that has not ended by then.
  unfoldable pub poll :
      (fuel interval deadline : ℕ)
      → List ℕ
      → PredictedProfit
      → ReconcileHistory
      → World
      → Option Polled
  poll zero interval deadline tx_hash predicted history world = none
  poll (suc fuel) interval deadline tx_hash predicted history world =
      let answer = get_receipt world tx_hash in
      let again = poll fuel interval deadline tx_hash predicted history (sleep interval answer.0) in
      on_answer deadline tx_hash predicted history answer.0 answer.1 again

  -- The deadline is `timeout` after the start. A round that does not end the loop takes at least a
  -- millisecond where the interval does, so one round more than the timeout is enough.
  abbrev pub poll_within :
      ℕ → List ℕ → PredictedProfit → ReconcileHistory → World → Outcome ℕ → Option Polled
  poll_within interval tx_hash predicted history world panic = some panic
  poll_within interval tx_hash predicted history world (value wait) =
      poll (suc wait) interval (now world + wait) tx_hash predicted history world

  unfoldable pub poll_until_settled :
      (fl : Floats)
      → Profile
      → PollerConfig (Floats.Float fl)
      → List ℕ
      → PredictedProfit
      → ReconcileHistory
      → World
      → Option Polled
  poll_until_settled fl profile config tx_hash predicted history world =
      poll_within (poll_interval fl config) tx_hash predicted history world
        (timeout fl profile config)
