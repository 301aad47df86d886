-- ===== src/Arbitrage/Loop/Finishing.antt =====
-- examples/toy-arbitrage/src/main.rs: a turn of the loop comes to an end.
use driftbrake.Base.{
  ℕ, ◌+◌, ◌≤◌, ◌⊎◌, inl, inr, Bool, true, false, List, Option, some, Outcome, value, panic, Profile,
  arith,
}
use driftbrake.Base.Int.{pos, ltb_ℤ, arith_u64}
use driftbrake.Core.Types.{
  PredictedProfit, RawSimOutput, DecodeError, ReconcileHistory, HaltDecision, continue, halt,
}
use driftbrake.Float.{Floats}
use driftbrake.Reconcile.Policy.{evaluate}
use driftbrake.Poller.{
  Environment, ClockLaws, realized, reverted_by, decode_failed, timed_out, settled, source, Polled,
  poll_within, poll_interval, timeout, poll_until_settled,
}
use driftbrake.Poller.Settling.{poll_ends}
use driftbrake.Backend.{SimError}
use driftbrake.Arbitrage.Abi.{PoolReserves}
use driftbrake.Arbitrage.Decoder.{decode_predicted}
use driftbrake.Arbitrage.Hex.{RpcError, Fallible}
use driftbrake.Arbitrage.Rpc.Signing.{UnsignedTx}
use driftbrake.Arbitrage.Prices.{price_divergence}
use driftbrake.Arbitrage.Loop.{
  pool_a, pool_b, Services, Settings, Failure, Loop, Turn, again, stopped, failed, panicked,
  unfinished, on_decision, on_settled, poll_with, on_submitted, unsigned_tx, trade, on_predicted,
  on_simulated, arb_calldata, on_divergence, on_reserves_b, on_reserves_a, read_reserves, step,
  arb_candidate,
}

module _ (fl : Floats) (profile : Profile) (env : Environment) (services : Services env)
    (settings : Settings (Floats.Float fl)) where
  open env use {World, Error}

  abbrev pub IsOver : Option UnsignedTx × Turn fl profile env services → Type 0
  IsOver (tx, again next) = Unit {0}
  IsOver (tx, stopped reason last) = Unit {0}
  IsOver (tx, failed error) = Unit {0}
  IsOver (tx, panicked) = Unit {0}
  IsOver (tx, unfinished) = ⊥

  decision-IsOver :
      (tx : Option UnsignedTx) (world : World) (nonce : ℕ) (history : ReconcileHistory)
      (decision : Outcome (HaltDecision (Floats.Float fl)))
      → IsOver (tx, on_decision fl profile env services settings world nonce history decision)
  decision-IsOver tx world nonce history panic = tt
  decision-IsOver tx world nonce history (value continue) = tt
  decision-IsOver tx world nonce history (value (halt reason)) = tt

  settled-IsOver :
      (tx : Option UnsignedTx) (nonce : ℕ) (result : Polled env)
      → IsOver (tx, on_settled fl profile env services settings nonce (some result))
  settled-IsOver tx nonce panic = tt
  settled-IsOver tx nonce (value (world, after, source error)) = tt
  settled-IsOver tx nonce (value (world, after, settled (realized profit))) =
      decision-IsOver tx world nonce after (evaluate fl profile settings.halt_policy after)
  settled-IsOver tx nonce (value (world, after, settled (reverted_by event))) = tt
  settled-IsOver tx nonce (value (world, after, settled (decode_failed error))) = tt
  settled-IsOver tx nonce (value (world, after, settled timed_out)) = tt

  module _ (clock : ClockLaws env) (positive : 1 ≤ poll_interval fl settings.poller_config)
      (self : Loop fl profile env services) where
    waited-IsOver :
        (tx : Option UnsignedTx) (world : World) (tx_hash : List ℕ) (predicted : PredictedProfit)
        (nonce : ℕ) (wait : Outcome ℕ)
        → IsOver (
          tx,
          on_settled fl profile env services settings nonce (
              poll_within env
                (poll_interval fl settings.poller_config)
                tx_hash
                predicted
                self.history
                world
                wait),
        )
    waited-IsOver tx world tx_hash predicted nonce panic = tt
    waited-IsOver tx world tx_hash predicted nonce (value d) =
        let (result, e) =
          poll_ends env tx_hash predicted self.history clock d
            (poll_interval fl settings.poller_config) (Environment.now env world + d) world positive
            (omega arith) in
        rw e (settled-IsOver tx nonce result)

    polled-IsOver :
        (tx : Option UnsignedTx) (world : World) (tx_hash : List ℕ) (predicted : PredictedProfit)
        (nonce : Outcome ℕ)
        → IsOver (
          tx,
          poll_with fl profile env services settings world tx_hash predicted self.history nonce,
        )
    unfolding poll_until_settled
    polled-IsOver tx world tx_hash predicted panic = tt
    polled-IsOver tx world tx_hash predicted (value nonce) =
        waited-IsOver tx world tx_hash predicted nonce (timeout fl profile settings.poller_config)

    submitted-IsOver :
        (tx : Option UnsignedTx) (predicted : PredictedProfit)
        (answer : World × Fallible RpcError (List ℕ))
        → IsOver (tx, on_submitted fl profile env services settings self predicted answer)
    submitted-IsOver tx predicted (world, panic) = tt
    submitted-IsOver tx predicted (world, value (inl error)) = tt
    submitted-IsOver tx predicted (world, value (inr tx_hash)) =
        polled-IsOver tx world tx_hash predicted (arith_u64 profile (self.nonce + 1))

    predicted-IsOver :
        (world : World) (calldata : List ℕ) (decoded : DecodeError ⊎ PredictedProfit)
        → IsOver (on_predicted fl profile env services settings self world calldata decoded)
    predicted-IsOver world calldata (inl error) = tt
    predicted-IsOver world calldata (inr predicted) = profitable (ltb_ℤ (pos 0) predicted.wei)
      where
        profitable :
            (b : Bool)
            → IsOver (trade fl profile env services settings self world calldata predicted b)
        profitable false = tt
        profitable true =
            let tx = unsigned_tx fl profile env services settings self calldata in
            submitted-IsOver (some tx) predicted (Services.submit services world tx)

    simulated-IsOver :
        (calldata : List ℕ) (answer : World × (SimError ⊎ RawSimOutput))
        → IsOver (on_simulated fl profile env services settings self calldata answer)
    simulated-IsOver calldata (world, inl error) = tt
    simulated-IsOver calldata (world, inr raw) =
        predicted-IsOver world calldata (decode_predicted raw)

    divergence-IsOver :
        (world : World) (a b : PoolReserves) (far : Bool)
        → IsOver (on_divergence fl profile env services settings self world a b far)
    divergence-IsOver world a b false = tt
    divergence-IsOver world a b true =
        let calldata = arb_calldata fl profile env services settings a b in
        simulated-IsOver calldata (
          Services.simulate services world
            (arb_candidate fl profile env services settings calldata))

    reserves_b-IsOver :
        (a : PoolReserves) (answer : World × (Failure Error ⊎ PoolReserves))
        → IsOver (on_reserves_b fl profile env services settings self a answer)
    reserves_b-IsOver a (world, inl error) = tt
    reserves_b-IsOver a (world, inr b) =
        divergence-IsOver world a b (Floats.lt fl (Floats.decimal fl 2 2) (price_divergence fl a b))

    reserves_a-IsOver :
        (answer : World × (Failure Error ⊎ PoolReserves))
        → IsOver (on_reserves_a fl profile env services settings self answer)
    reserves_a-IsOver (world, inl error) = tt
    reserves_a-IsOver (world, inr a) =
        reserves_b-IsOver a (read_reserves fl profile env services world settings.caller pool_b)

    -- Where the clock does not run backwards, a sleep takes its time and the poll's interval is at least a
    -- millisecond, every turn comes to an end: its poll does not run out of fuel, whatever the services
    -- and the chain answer.
    pub step-IsOver : IsOver (step fl profile env services settings self)
    unfolding step
    step-IsOver =
        reserves_a-IsOver (read_reserves fl profile env services self.world settings.caller pool_a)
