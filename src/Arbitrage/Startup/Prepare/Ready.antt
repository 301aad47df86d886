-- ===== src/Arbitrage/Startup/Prepare/Ready.antt =====
-- examples/toy-arbitrage/src/main.rs: what is known of the variables when the loop starts.
use driftbrake.Base.{◌≡◌, refl, subst, inr, Outcome, value, panic, Profile, value_inj}
use driftbrake.Base.Text.{codes}
use driftbrake.Core.History.{new}
use driftbrake.Float.{Floats}
use driftbrake.Reconcile.Config.{default_dual_guard}
use driftbrake.Poller.{config_new}
use driftbrake.Backend.{BlockContext, backend_new}
use driftbrake.Arbitrage.Hex.{ok}
use driftbrake.Arbitrage.Hex.Bounds.{>>=-eq-ok, ok_inj}
use driftbrake.Arbitrage.Json.{Json}
use driftbrake.Arbitrage.Rpc.{JsonRpcClient, Network}
use driftbrake.Arbitrage.Rpc.Database.{RpcDbFactory}
use driftbrake.Arbitrage.Rpc.Signing.{Signer}
use driftbrake.Arbitrage.Startup.{
  CliArgs, parse_or, address_from_point, hex_to_bytes32, fetch_block_context, fetch_nonce,
  fetch_gas_price,
}
use driftbrake.Arbitrage.Startup.Dotenv.{Env}
use driftbrake.Arbitrage.Startup.Prepare.{Keys, lift, required, Prepared, factory_at, prepare}

lift-ok : {E A : Type 0} (m : Outcome A) {a : A} → lift {E = E} m ≡ ok a → m ≡ value a
lift-ok panic h = cc
lift-ok (value b) h = cc

module _ ⦃js : Json⦄ (fl : Floats) (profile : Profile) (sg : Signer) (keys : Keys sg)
    (network : Network) where
  open fl use {decimal}

  -- The parts were built by their constructors, with the constants of `main`.
  abbrev pub IsReady : Prepared fl profile sg keys network → Type 0
  IsReady p =
      (p.history ≡ new)
      × (default_dual_guard fl profile ≡ value p.settings.halt_policy)
      × (config_new fl p.settings.block_time_ms (decimal 5 1) 10 ≡ value p.settings.poller_config)
      × ((block : BlockContext) × (backend_new fl RpcDbFactory
              (factory_at fl profile sg keys network p.client block) block p.settings.block_time_ms
              (decimal 5 1) 4
            ≡ value p.engine))
      × (fetch_nonce (Keys.show_error keys) p.client p.settings.caller ≡ inr p.nonce)

  pub prepare-IsReady :
      (env : Env) (cli : CliArgs) (p : Prepared fl profile sg keys network)
      → prepare fl profile sg keys network env cli ≡ ok p
      → IsReady p
  unfolding prepare
  prepare-IsReady env cli p h =
      let (rpc_url, e0, h0) = >>=-eq-ok (required env (codes "TESTNET_RPC_URL")) _ h in
      let (key_hex, e1, h1) = >>=-eq-ok (required env (codes "PRIVATE_KEY")) _ h0 in
      let client : JsonRpcClient = record { url = rpc_url; network = network } in
      let block_time_ms = parse_or 12000 (env (codes "BLOCK_TIME_MS")) in
      let (key_bytes, e2, h2) = >>=-eq-ok (hex_to_bytes32 key_hex) _ h1 in
      let (key, e3, h3) = >>=-eq-ok (value (Keys.from_bytes keys key_bytes)) _ h2 in
      let caller = address_from_point (Signer.keccak256 sg) (Keys.encoded_point keys key) in
      let (block, e4, h4) =
        >>=-eq-ok (value (fetch_block_context (Keys.show_error keys) client)) _ h3 in
      let built =
        backend_new fl RpcDbFactory (factory_at fl profile sg keys network client block) block
          block_time_ms (decimal 5 1) 4 in
      let (engine, e5, h5) = >>=-eq-ok (lift built) _ h4 in
      let (config, e6, h6) = >>=-eq-ok (lift (config_new fl block_time_ms (decimal 5 1) 10)) _ h5 in
      let (nonce, e7, h7) =
        >>=-eq-ok (value (fetch_nonce (Keys.show_error keys) client caller)) _ h6 in
      let (price, e8, h8) =
        >>=-eq-ok (value (fetch_gas_price (Keys.show_error keys) client)) _ h7 in
      let (policy, e9, h9) = >>=-eq-ok (lift (default_dual_guard fl profile)) _ h8 in
      subst IsReady (ok_inj h9) (
        refl,
        lift-ok (default_dual_guard fl profile) e9,
        lift-ok (config_new fl block_time_ms (decimal 5 1) 10) e6,
        (block, lift-ok built e5),
        value_inj e7,
      )
