-- ===== src/Arbitrage/Loop/Steps.antt =====
-- examples/toy-arbitrage/src/main.rs: what one turn of the loop does to the nonce and to the history.
use driftbrake.Base.{
  ℕ, suc, ◌+◌, ◌≡◌, refl, ◌⊎◌, inl, inr, Bool, true, false, List, Option, none, some, Outcome,
  value, panic, Profile, ltb→lt,
}
use driftbrake.Base.Int.{pos, ltb_ℤ, arith_u64}
use driftbrake.Core.Types.{
  PredictedProfit, RealizedProfit, RawSimOutput, DecodeError, ReconcileHistory, HaltDecision,
  continue, halt,
}
use driftbrake.Core.History.{append}
use driftbrake.Float.{Floats}
use driftbrake.Reconcile.Policy.{evaluate}
use driftbrake.Poller.{
  Environment, realized, reverted_by, decode_failed, timed_out, settled, source, Polled,
  poll_within, poll_interval, timeout, poll_until_settled,
}
use driftbrake.Backend.{SimError}
use driftbrake.Arbitrage.Abi.{PoolReserves}
use driftbrake.Arbitrage.Decoder.{decode_predicted}
use driftbrake.Arbitrage.Hex.{RpcError, Fallible}
use driftbrake.Arbitrage.Rpc.Signing.{UnsignedTx}
use driftbrake.Arbitrage.Prices.{price_divergence}
use driftbrake.Arbitrage.Loop.{
  pool_a, pool_b, Services, Settings, Failure, Loop, on_decision, on_settled, poll_with,
  on_submitted, unsigned_tx, trade, on_predicted, on_simulated, arb_calldata, on_divergence,
  on_reserves_b, on_reserves_a, read_reserves, step, arb_candidate,
}
use driftbrake.Poller.Settling.{IsBookedBy, poll-IsBookedBy}
use driftbrake.Arbitrage.Loop.Turns.{IsSubmitted, IsPredicted, IsRealized, IsLawful}

module _ (fl : Floats) (profile : Profile) (env : Environment) (services : Services env)
    (settings : Settings (Floats.Float fl)) where
  open env use {World, Error}

  module _ (self : Loop fl profile env services) (tx : UnsignedTx) (same : tx.nonce ≡ self.nonce)
      (predicted : PredictedProfit)
      (foreseen : IsPredicted fl profile env services settings tx predicted) where
    decision-IsLawful :
        (world : World) (nonce : ℕ) (profit : RealizedProfit) (after : ReconcileHistory)
        (decision : Outcome (HaltDecision (Floats.Float fl)))
        → arith_u64 profile (self.nonce + 1) ≡ value nonce
        → IsRealized fl profile env services settings tx predicted profit
        → after ≡ append self.history predicted profit
        → evaluate fl profile settings.halt_policy after ≡ decision
        → IsLawful fl profile env services settings self
            (some tx, on_decision fl profile env services settings world nonce after decision)
    decision-IsLawful world nonce profit after panic n earned h e = tt
    decision-IsLawful world nonce profit after (value continue) n earned h e =
        (same, n, inr (inr (predicted, profit, earned, h, e)))
    decision-IsLawful world nonce profit after (value (halt reason)) n earned h e =
        (same, (predicted, profit, earned, h, e))

    settled-IsLawful :
        (nonce deadline : ℕ) (tx_hash : List ℕ) (result : Option (Polled env))
        → arith_u64 profile (self.nonce + 1) ≡ value nonce
        → IsSubmitted fl profile env services settings tx tx_hash
        → IsBookedBy env tx_hash predicted self.history deadline result
        → IsLawful fl profile env services settings self
            (some tx, on_settled fl profile env services settings nonce result)
    settled-IsLawful nonce deadline tx_hash none n sent h = tt
    settled-IsLawful nonce deadline tx_hash (some panic) n sent h = tt
    settled-IsLawful nonce deadline tx_hash (some (value (world, after, source error))) n sent h =
        tt
    settled-IsLawful nonce deadline tx_hash (some (value (world, after, settled (realized profit))))
          n sent h =
        decision-IsLawful world nonce profit after (evaluate fl profile settings.halt_policy after)
          n (foreseen, (tx_hash, world, sent, h.0)) h.1 refl
    settled-IsLawful nonce deadline tx_hash
          (some (value (world, after, settled (reverted_by event)))) n sent
          (receipt, logs, reported, status, recorded, kept) =
        (
          same,
          n,
          inr (
              inl (event, (tx_hash, receipt, logs, world, sent, reported, status, recorded), kept)),
        )
    settled-IsLawful nonce deadline tx_hash
          (some (value (world, after, settled (decode_failed error)))) n sent h =
        (same, n, inl h.1)
    settled-IsLawful nonce deadline tx_hash (some (value (world, after, settled timed_out))) n sent
          h =
        (same, n, inl h.1)

    waited-IsLawful :
        (world : World) (tx_hash : List ℕ) (nonce : ℕ) (wait : Outcome ℕ)
        → arith_u64 profile (self.nonce + 1) ≡ value nonce
        → IsSubmitted fl profile env services settings tx tx_hash
        → IsLawful fl profile env services settings self (
          some tx,
          on_settled fl profile env services settings nonce (
              poll_within env
                (poll_interval fl settings.poller_config)
                tx_hash
                predicted
                self.history
                world
                wait),
        )
    waited-IsLawful world tx_hash nonce panic n sent = tt
    waited-IsLawful world tx_hash nonce (value d) n sent =
        settled-IsLawful nonce (Environment.now env world + d) tx_hash _ n sent (
          poll-IsBookedBy env tx_hash predicted self.history (suc d)
            (poll_interval fl settings.poller_config) (Environment.now env world + d) world)

    polled-IsLawful :
        (world : World) (tx_hash : List ℕ) (nonce : Outcome ℕ)
        → arith_u64 profile (self.nonce + 1) ≡ nonce
        → IsSubmitted fl profile env services settings tx tx_hash
        → IsLawful fl profile env services settings self (
          some tx,
          poll_with fl profile env services settings world tx_hash predicted self.history nonce,
        )
    unfolding poll_until_settled
    polled-IsLawful world tx_hash panic n sent = tt
    polled-IsLawful world tx_hash (value nonce) n sent =
        waited-IsLawful world tx_hash nonce (timeout fl profile settings.poller_config) n sent

    submitted-IsLawful :
        (before : World) (answer : World × Fallible RpcError (List ℕ))
        → Services.submit services before tx ≡ answer
        → IsLawful fl profile env services settings self
            (some tx, on_submitted fl profile env services settings self predicted answer)
    submitted-IsLawful before (world, panic) e = tt
    submitted-IsLawful before (world, value (inl error)) e = tt
    submitted-IsLawful before (world, value (inr tx_hash)) e =
        polled-IsLawful world tx_hash (arith_u64 profile (self.nonce + 1)) refl (before, world, e)

  module _ (self : Loop fl profile env services) where
    trade-IsLawful :
        (before world : World) (calldata : List ℕ) (raw : RawSimOutput)
        (predicted : PredictedProfit) (b : Bool)
        → Services.simulate services before
            (arb_candidate fl profile env services settings calldata)
          ≡ (world, inr raw)
        → decode_predicted raw ≡ inr predicted
        → ltb_ℤ (pos 0) predicted.wei ≡ b
        → IsLawful fl profile env services settings self
            (trade fl profile env services settings self world calldata predicted b)
    trade-IsLawful before world calldata raw predicted false ran decoded e = (refl, refl)
    trade-IsLawful before world calldata raw predicted true ran decoded e =
        let tx = unsigned_tx fl profile env services settings self calldata in
        submitted-IsLawful self tx refl predicted (before, world, raw, ran, decoded, ltb→lt _ _ e)
          world (Services.submit services world tx) refl

    predicted-IsLawful :
        (before world : World) (calldata : List ℕ) (raw : RawSimOutput)
        (decoded : DecodeError ⊎ PredictedProfit)
        → Services.simulate services before
            (arb_candidate fl profile env services settings calldata)
          ≡ (world, inr raw)
        → decode_predicted raw ≡ decoded
        → IsLawful fl profile env services settings self
            (on_predicted fl profile env services settings self world calldata decoded)
    predicted-IsLawful before world calldata raw (inl error) ran e = (refl, refl)
    predicted-IsLawful before world calldata raw (inr predicted) ran e =
        trade-IsLawful before world calldata raw predicted (ltb_ℤ (pos 0) predicted.wei) ran e refl

    simulated-IsLawful :
        (before : World) (calldata : List ℕ) (answer : World × (SimError ⊎ RawSimOutput))
        → Services.simulate services before
            (arb_candidate fl profile env services settings calldata)
          ≡ answer
        → IsLawful fl profile env services settings self
            (on_simulated fl profile env services settings self calldata answer)
    simulated-IsLawful before calldata (world, inl error) e = tt
    simulated-IsLawful before calldata (world, inr raw) e =
        predicted-IsLawful before world calldata raw (decode_predicted raw) e refl

    divergence-IsLawful :
        (world : World) (a b : PoolReserves) (far : Bool)
        → IsLawful fl profile env services settings self
            (on_divergence fl profile env services settings self world a b far)
    divergence-IsLawful world a b false = (refl, refl)
    divergence-IsLawful world a b true =
        let calldata = arb_calldata fl profile env services settings a b in
        simulated-IsLawful world calldata
          (Services.simulate services world
            (arb_candidate fl profile env services settings calldata))
          refl

    reserves_b-IsLawful :
        (a : PoolReserves) (answer : World × (Failure Error ⊎ PoolReserves))
        → IsLawful fl profile env services settings self
            (on_reserves_b fl profile env services settings self a answer)
    reserves_b-IsLawful a (world, inl error) = tt
    reserves_b-IsLawful a (world, inr b) =
        divergence-IsLawful world a b
          (Floats.lt fl (Floats.decimal fl 2 2) (price_divergence fl a b))

    reserves_a-IsLawful :
        (answer : World × (Failure Error ⊎ PoolReserves))
        → IsLawful fl profile env services settings self
            (on_reserves_a fl profile env services settings self answer)
    reserves_a-IsLawful (world, inl error) = tt
    reserves_a-IsLawful (world, inr a) =
        reserves_b-IsLawful a (read_reserves fl profile env services world settings.caller pool_b)

  -- A turn of the loop that goes on either submits nothing and keeps nonce and history, or submits one
  -- transaction with the nonce at hand, adds one to it, and has in its history nothing new, the revert of
  -- that transaction, or its pair, after which the policy continues. A turn that stops has submitted a
  -- transaction with the nonce at hand, and the policy halts on the history with its pair. The pair's
  -- prediction is positive and that of a simulation of the transaction's call, and its profit was decoded
  -- from a confirmed receipt that the source reported for the submitted hash; a revert is that of a
  -- reverted one. (A turn may also end by an error or a panic.)
  pub step-IsLawful :
      (self : Loop fl profile env services)
      → IsLawful fl profile env services settings self (step fl profile env services settings self)
  unfolding step
  step-IsLawful self =
      reserves_a-IsLawful self
        (read_reserves fl profile env services self.world settings.caller pool_a)
