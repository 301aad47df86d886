-- ===== src/Arbitrage/Loop.antt =====
-- examples/toy-arbitrage/src/main.rs: the loop, one turn at a time, with `read_reserves` of pools.rs. The
-- poller and its surroundings are those of `Poller`; simulation and submission are services on the same
-- state of the world.
pub mod Turns
pub mod Steps
pub mod Halts
pub mod Entries
pub mod Finishing
pub mod Windows
pub mod Nonces
pub mod Drift
use driftbrake.Base.{
  ℕ, ◌+◌, ◌^◌, Bool, true, false, List, [], ◌∷◌, ◌++◌, Option, none, some, ◌⊎◌, inl, inr, Outcome,
  value, panic, Profile, replicate, if◌then◌else◌,
}
use driftbrake.Base.Int.{pos, ltb_ℤ, arith_u64}
use driftbrake.Base.Text.{codes}
use driftbrake.Core.Types.{
  PredictedProfit, RawSimOutput, DecodeError, ReconcileHistory, HaltReason, HaltDecision, continue,
  halt,
}
use driftbrake.Float.{Floats}
use driftbrake.Reconcile.Config.{ReconcilePolicy}
use driftbrake.Reconcile.Policy.{evaluate}
use driftbrake.Poller.{
  Environment, PollerConfig, PollOutcome, realized, reverted_by, decode_failed, timed_out, settled,
  source, Polled, poll_until_settled,
}
use driftbrake.Backend.{CandidateTx, SimError}
use driftbrake.Arbitrage.Abi.{
  function_selector, encode_arb_call, encode_no_arg_call, decode_reserves, PoolReserves,
}
use driftbrake.Arbitrage.Prices.{price_token0_in_token1, price_divergence}
use driftbrake.Arbitrage.Decoder.{decode_predicted}
use driftbrake.Arbitrage.Hex.{RpcError, Fallible}
use driftbrake.Arbitrage.Rpc.Signing.{UnsignedTx}

abbrev pub executor_address : List ℕ
executor_address = replicate 20 0x99

abbrev pub pool_a : List ℕ
pool_a = replicate 20 0xa1

abbrev pub pool_b : List ℕ
pool_b = replicate 20 0xb2

abbrev pub trade_notional : ℕ
trade_notional = 10 ^ 18

abbrev pub arb_gas_limit : ℕ
arb_gas_limit = 500000

-- `TxSubmitter` and `SimEngine`, and keccak256.
pub record Services (env : Environment) : Type 0 where
  pub simulate :
      Environment.World env → CandidateTx → Environment.World env × (SimError ⊎ RawSimOutput)
  pub submit :
      Environment.World env → UnsignedTx → Environment.World env × Fallible RpcError (List ℕ)
  pub keccak256 : List ℕ → List ℕ

-- What `main` has read before the loop.
pub record Settings (Float : Type 0) : Type 0 where
  pub caller : List ℕ
  pub gas_price : ℕ
  pub chain_id : ℕ
  pub block_time_ms : ℕ
  pub poller_config : PollerConfig Float
  pub halt_policy : ReconcilePolicy Float

-- The errors that end `main` by `?`.
pub data Failure (Error : Type 0) : Type 0 where
  sim : SimError → Failure Error
  malformed_reserves : Failure Error
  submission : RpcError → Failure Error
  settlement : Error → Failure Error

-- `PoolReadError`, and `decode_reserves(&raw).ok_or(..)`
abbrev pub or_reserves : {Error : Type 0} → Option PoolReserves → Failure Error ⊎ PoolReserves
or_reserves none = inl malformed_reserves
or_reserves (some reserves) = inr reserves

abbrev pub reserves_of : {Error : Type 0} → SimError ⊎ RawSimOutput → Failure Error ⊎ PoolReserves
reserves_of (inl e) = inl (sim e)
reserves_of (inr raw) = or_reserves (decode_reserves raw)

module _ (fl : Floats) (profile : Profile) (env : Environment) (services : Services env) where
  open fl use {Float, decimal, lt}
  open env use {World, Error, sleep}
  open services use {simulate, submit, keccak256}

  pub record Loop : Type 0 where
    pub world : World
    pub nonce : ℕ
    pub history : ReconcileHistory

  -- How a turn ends: with the next turn, by the `break` on a halt, by an error, by a panic. `unfinished` is
  -- a poll that has used up its fuel.
  pub data Turn : Type 0 where
    again : Loop → Turn
    stopped : HaltReason Float → Loop → Turn
    failed : Failure Error → Turn
    panicked unfinished : Turn

  unfoldable pub read_reserves : World → List ℕ → List ℕ → World × (Failure Error ⊎ PoolReserves)
  read_reserves world caller pool =
      let tx : CandidateTx = record {
        caller = caller;
        to = pool;
        tx_value = 0;
        payload = encode_no_arg_call (function_selector keccak256 (codes "getReserves()"));
        gas_limit = 100000;
      } in
      let answer = simulate world tx in (answer.0, reserves_of answer.1)

  module _ (settings : Settings Float) where
    -- The sleep at the end of a turn.
    abbrev pub rest : World → ℕ → ReconcileHistory → Turn
    rest world nonce history =
        again
          (record { world = sleep settings.block_time_ms world; nonce = nonce; history = history })

    abbrev pub on_decision : World → ℕ → ReconcileHistory → Outcome (HaltDecision Float) → Turn
    on_decision world nonce history panic = panicked
    on_decision world nonce history (value continue) = rest world nonce history
    on_decision world nonce history (value (halt reason)) =
        stopped reason (record { world = world; nonce = nonce; history = history })

    -- The policy is evaluated after a realized profit only.
    abbrev pub on_outcome : World → ℕ → ReconcileHistory → PollOutcome → Turn
    on_outcome world nonce history (realized profit) =
        on_decision world nonce history (evaluate fl profile settings.halt_policy history)
    on_outcome world nonce history (reverted_by event) = rest world nonce history
    on_outcome world nonce history (decode_failed error) = rest world nonce history
    on_outcome world nonce history timed_out = rest world nonce history

    abbrev pub on_settled : ℕ → Option (Polled env) → Turn
    on_settled nonce none = unfinished
    on_settled nonce (some panic) = panicked
    on_settled nonce (some (value (world, history, source error))) = failed (settlement error)
    on_settled nonce (some (value (world, history, settled outcome))) =
        on_outcome world nonce history outcome

    abbrev pub poll_with : World → List ℕ → PredictedProfit → ReconcileHistory → Outcome ℕ → Turn
    poll_with world tx_hash predicted history panic = panicked
    poll_with world tx_hash predicted history (value nonce) =
        on_settled nonce
          (poll_until_settled env fl profile settings.poller_config tx_hash predicted history world)

    -- `nonce += 1` comes after the submission.
    abbrev pub on_submitted : Loop → PredictedProfit → World × Fallible RpcError (List ℕ) → Turn
    on_submitted self predicted (world, panic) = panicked
    on_submitted self predicted (world, value (inl error)) = failed (submission error)
    on_submitted self predicted (world, value (inr tx_hash)) =
        poll_with world tx_hash predicted self.history (arith_u64 profile (self.nonce + 1))

    abbrev pub unsigned_tx : Loop → List ℕ → UnsignedTx
    unsigned_tx self calldata = record {
      nonce = self.nonce;
      gas_price = settings.gas_price;
      gas_limit = arb_gas_limit;
      to = executor_address;
      tx_value = 0;
      payload = calldata;
      chain_id = settings.chain_id;
    }

    -- The transaction that was given to the submitter, and the turn's end.
    abbrev pub trade : Loop → World → List ℕ → PredictedProfit → Bool → Option UnsignedTx × Turn
    trade self world calldata predicted false = (none, rest world self.nonce self.history)
    trade self world calldata predicted true = (
      some (unsigned_tx self calldata),
      on_submitted self predicted (submit world (unsigned_tx self calldata)),
    )

    abbrev pub on_predicted :
        Loop → World → List ℕ → DecodeError ⊎ PredictedProfit → Option UnsignedTx × Turn
    on_predicted self world calldata (inl error) = (none, rest world self.nonce self.history)
    on_predicted self world calldata (inr predicted) =
        trade self world calldata predicted (ltb_ℤ (pos 0) predicted.wei)

    abbrev pub on_simulated :
        Loop → List ℕ → World × (SimError ⊎ RawSimOutput) → Option UnsignedTx × Turn
    on_simulated self calldata (world, inl error) = (none, failed (sim error))
    on_simulated self calldata (world, inr raw) =
        on_predicted self world calldata (decode_predicted raw)

    -- The cheaper pool is bought from.
    abbrev pub arb_calldata : PoolReserves → PoolReserves → List ℕ
    arb_calldata a b =
        let selector = function_selector keccak256 (codes "executeArb(address,address,uint256)") in
        if lt (price_token0_in_token1 fl a) (price_token0_in_token1 fl b)
        then encode_arb_call selector pool_a pool_b trade_notional
        else encode_arb_call selector pool_b pool_a trade_notional

    abbrev pub arb_candidate : List ℕ → CandidateTx
    arb_candidate calldata = record {
      caller = settings.caller;
      to = executor_address;
      tx_value = 0;
      payload = calldata;
      gas_limit = arb_gas_limit;
    }

    abbrev pub on_divergence :
        Loop → World → PoolReserves → PoolReserves → Bool → Option UnsignedTx × Turn
    on_divergence self world a b false = (none, rest world self.nonce self.history)
    on_divergence self world a b true =
        let calldata = arb_calldata a b in
        on_simulated self calldata (simulate world (arb_candidate calldata))

    abbrev pub on_reserves_b :
        Loop → PoolReserves → World × (Failure Error ⊎ PoolReserves) → Option UnsignedTx × Turn
    on_reserves_b self a (world, inl error) = (none, failed error)
    on_reserves_b self a (world, inr b) =
        on_divergence self world a b (lt (decimal 2 2) (price_divergence fl a b))

    abbrev pub on_reserves_a :
        Loop → World × (Failure Error ⊎ PoolReserves) → Option UnsignedTx × Turn
    on_reserves_a self (world, inl error) = (none, failed error)
    on_reserves_a self (world, inr a) =
        on_reserves_b self a (read_reserves world settings.caller pool_b)

    -- One turn of the loop.
    unfoldable pub step : Loop → Option UnsignedTx × Turn
    step self = on_reserves_a self (read_reserves self.world settings.caller pool_a)
