-- ===== src/Arbitrage/Startup/Prepare.antt =====
-- examples/toy-arbitrage/src/main.rs: `main` up to its loop, after `load_dotenv` and `parse_args`. The
-- values of the variables are bytes here.
pub mod Ready
use driftbrake.Base.{
  ℕ, ◌-◌, ◌^◌, Bool, true, false, List, ◌∷◌, ◌++◌, Option, none, some, ◌⊎◌, inl, inr, Outcome,
  value, panic, Profile,
}
use driftbrake.Base.Text.{codes}
use driftbrake.Core.Types.{ReconcileHistory}
use driftbrake.Core.History.{new}
use driftbrake.Float.{Floats}
use driftbrake.Reconcile.Config.{default_dual_guard}
use driftbrake.Poller.{config_new}
use driftbrake.Backend.{BlockContext, RevmBackend, backend_new}
use driftbrake.Arbitrage.Hex.{RpcError, Fallible, ◌>>=◌, ok, lower_hex}
use driftbrake.Arbitrage.Json.{Json}
use driftbrake.Arbitrage.Rpc.{JsonRpcClient, Network}
use driftbrake.Arbitrage.Rpc.Database.{RpcDbFactory}
use driftbrake.Arbitrage.Rpc.Signing.{Signer}
use driftbrake.Arbitrage.Loop.{Settings}
use driftbrake.Arbitrage.Startup.{
  CliArgs, parse_or, address_from_point, hex_to_bytes32, fetch_block_context, fetch_nonce,
  fetch_gas_price,
}
use driftbrake.Arbitrage.Startup.Dotenv.{Env}

-- The rest of the `k256` crate that `main` uses: a key from its bytes, and the uncompressed point of its
-- public key; and how an `RpcError` is printed.
pub record Keys (sg : Signer) : Type 0 where
  pub from_bytes : List ℕ → List ℕ ⊎ Signer.SigningKey sg
  pub encoded_point : Signer.SigningKey sg → List ℕ
  pub show_error : RpcError → List ℕ

-- A call that may panic.
abbrev pub lift : {E A : Type 0} → Outcome A → Fallible E A
lift panic = panic
lift (value a) = ok a

abbrev pub required : Env → List ℕ → Fallible (List ℕ) (List ℕ)
required env name = elim (env name) [
  | none ↦
      value (
        inl (codes "set " ++ name ++ codes " " ++ (0xe2 ∷ 0x80 ∷ 0x94 ∷ codes " see .env.example")))
  | some v ↦ ok v
]

module _ ⦃js : Json⦄ (fl : Floats) (profile : Profile) (sg : Signer) (keys : Keys sg)
    (network : Network) where
  open fl use {Float, decimal}
  open sg use {SigningKey, keccak256}
  open keys use {from_bytes, encoded_point, show_error}

  -- The variables of `main` that the loop uses.
  pub record Prepared : Type 0 where
    pub client : JsonRpcClient
    pub signing_key : SigningKey
    pub engine : RevmBackend fl RpcDbFactory
    pub drift_after : ℕ
    pub damping : Float
    pub nonce : ℕ
    pub history : ReconcileHistory
    pub settings : Settings Float

  -- The drift that the realized decoder injects.
  abbrev pub drift_of : Bool → ℕ → ℕ × Float
  drift_of true drift_after = (drift_after, decimal 3 1)
  drift_of false drift_after = (2 ^ 64 - 1, decimal 10 1)

  -- `RpcDbFactory::new(client.clone(), format!("0x{:x}", block.number))`
  abbrev pub factory_at : JsonRpcClient → BlockContext → RpcDbFactory
  factory_at client block = record {
    client = client;
    block_tag = codes "0x" ++ lower_hex block.number;
  }

  unfoldable pub prepare : Env → CliArgs → Fallible (List ℕ) Prepared
  prepare env cli = do
    rpc_url ← required env (codes "TESTNET_RPC_URL")
    private_key_hex ← required env (codes "PRIVATE_KEY")
    let chain_id = parse_or 11155111 (env (codes "CHAIN_ID"))
    let block_time_ms = parse_or 12000 (env (codes "BLOCK_TIME_MS"))
    let client : JsonRpcClient = record { url = rpc_url; network = network }
    key_bytes ← hex_to_bytes32 private_key_hex
    signing_key ← value (from_bytes key_bytes)
    let caller = address_from_point keccak256 (encoded_point signing_key)
    block ← value (fetch_block_context show_error client)
    engine ←
        lift (
          backend_new fl RpcDbFactory (factory_at client block) block block_time_ms (decimal 5 1) 4)
    poller_config ← lift (config_new fl block_time_ms (decimal 5 1) 10)
    nonce ← value (fetch_nonce show_error client caller)
    gas_price ← value (fetch_gas_price show_error client)
    halt_policy ← lift (default_dual_guard fl profile)
    ok (record {
      client = client;
      signing_key = signing_key;
      engine = engine;
      drift_after = (drift_of cli.inject_drift cli.drift_after).0;
      damping = (drift_of cli.inject_drift cli.drift_after).1;
      nonce = nonce;
      history = new;
      settings = record {
        caller = caller;
        gas_price = gas_price;
        chain_id = chain_id;
        block_time_ms = block_time_ms;
        poller_config = poller_config;
        halt_policy = halt_policy;
      };
    })
