-- ===== src/Arbitrage/Wiring.antt =====
-- examples/toy-arbitrage/src/main.rs: the loop's surroundings, built of what `main` has prepared: the
-- receipts of the node, the decoder that injects drift, the simulation by REVM over the node's database,
-- and the submitter.
pub mod Earned
use driftbrake.Base.{ℕ, List, ◌⊎◌, Option, Outcome, value, panic, Profile}
use driftbrake.Base.Text.{codes}
use driftbrake.Core.Types.{Log, TxReceipt, RawSimOutput, RealizedProfit, DecodeError}
use driftbrake.Float.{Floats}
use driftbrake.Poller.{Environment}
use driftbrake.Backend.{CandidateTx, SimError, RevmBackend}
use driftbrake.Backend.Simulate.{Vm, First, simulate}
use driftbrake.Arbitrage.Abi.{event_topic0}
use driftbrake.Arbitrage.Decoder.{decode_realized, inject_drift}
use driftbrake.Arbitrage.Hex.{RpcError, Fallible}
use driftbrake.Arbitrage.Json.{Json}
use driftbrake.Arbitrage.Rpc.{JsonRpcClient, Network}
use driftbrake.Arbitrage.Rpc.Database.{RpcDbFactory}
use driftbrake.Arbitrage.Rpc.Receipts.{get_receipt}
use driftbrake.Arbitrage.Rpc.Signing.{UnsignedTx, Signer, submit}
use driftbrake.Arbitrage.Loop.{Services}
use driftbrake.Arbitrage.Startup.Prepare.{Keys, Prepared}

-- What is outside of the process: the node as it is at a moment, how the outside has changed when a call
-- is over, whether a simulation is over before its timeout, and the clock.
pub record Outside ⦃js : Json⦄ : Type 1 where
  pub World : Type 0
  pub node : World → Network
  pub after_receipt : World → List ℕ → World
  pub after_simulation : World → CandidateTx → World
  pub after_submission : World → UnsignedTx → World
  pub first_over : World → CandidateTx → First
  pub now : World → ℕ
  pub sleep : ℕ → World → World

-- The process and its outside: what `main` has prepared, the crates behind it, and the outside.
pub record System ⦃js : Json⦄ : Type 1 where
  pub fl : Floats
  pub profile : Profile
  pub sg : Signer
  pub keys : Keys sg
  pub network : Network
  pub prepared : Prepared fl profile sg keys network
  pub vm : Vm RpcDbFactory
  pub join_error : List ℕ
  pub outside : Outside

module _ ⦃js : Json⦄ (system : System) where
  open system use {fl, profile, sg, prepared, vm, join_error, outside}
  open outside use {
    World, node, after_receipt, after_simulation, after_submission, first_over, now, sleep,
  }

  -- The client, whose node is the one of that moment.
  abbrev pub client_at : World → JsonRpcClient
  client_at world = record (prepared.client) { network = node world }

  abbrev pub engine_at : World → RevmBackend fl RpcDbFactory
  engine_at world = record (prepared.engine) {
    db_factory = record (prepared.engine.db_factory) { client = client_at world };
  }

  abbrev pub profit_topic : List ℕ
  profit_topic = event_topic0 (Signer.keccak256 sg) (codes "Profit(uint256)")

  -- The outside, and `calls_so_far` of the decoder.
  abbrev pub State : Type 0
  State = World × ℕ

  -- `DriftInjectingDecoder` around the answer of `ToyArbRealizedDecoder`.
  abbrev pub with_drift :
      State
      → Outcome (DecodeError ⊎ RealizedProfit)
      → State × Outcome (DecodeError ⊎ RealizedProfit)
  with_drift state panic = (state, panic)
  with_drift (world, calls) (value answer) =
      let (calls_after, drifted) =
        inject_drift fl prepared.drift_after prepared.damping calls answer in
      ((world, calls_after), value drifted)

  abbrev pub environment : Environment
  environment = record {
    World = State;
    Error = RpcError;
    get_receipt = λ (world, calls) tx_hash.
        ((after_receipt world tx_hash, calls), get_receipt join_error (client_at world) tx_hash);
    decode_realized =
        λ state receipt logs. with_drift state (decode_realized profile profit_topic receipt logs);
    now = λ (world, calls). now world;
    sleep = λ d (world, calls). (sleep d world, calls);
  }

  abbrev pub services : Services environment
  services = record {
    simulate = λ (world, calls) tx. (
      (after_simulation world tx, calls),
      simulate fl vm (first_over world tx) (engine_at world) tx,
    );
    submit = λ (world, calls) tx. (
      (after_submission world tx, calls),
      submit sg join_error profile (client_at world) prepared.signing_key tx,
    );
    keccak256 = Signer.keccak256 sg;
  }
