-- ===== src/Lib.antt =====
-- Driftbrake halts a trading strategy whose realized profits fall behind the simulated ones. A history
-- of pairs (predicted, realized) and of reverts is kept by core/; reconcile/ decides on it whether to
-- halt; journal/ keeps it in a file across restarts; receipt-poller/ feeds it from the chain; and
-- benchmark/ runs the policy over synthetic sequences to tune the thresholds.
--
-- The parts and their models:
--   core/src/types.rs, core/src/error.rs: Core/Types (the data), Core/History (`append`,
--     `record_revert`, `consecutive_reverts`, `recent_revert_gas_burned`, `recent_ratios`).
--   reconcile/src/lib.rs: Reconcile/Config (configurations and construction), Reconcile/Guards (one
--     function for each check), Reconcile/Policy (`evaluate`, the checks in order). Their conditions,
--     over exact integers, are in Reconcile/Guards/Drift and Reconcile/Policy/Halting; those of the gas
--     and the drawdown checks follow the code, which differs there from docs/whitepaper.md.
--   journal/src/lib.rs: Journal/Crc, Journal/Frame (payloads, frames, the reading of one frame),
--     Journal/Recover (the loop), Journal/File (open, write, drop, compact over a record of what the
--     paths hold). `append` and `record_revert` are the one function `write_entry` of an entry.
--   receipt-poller/src/lib.rs and source.rs: Poller (`poll_until_settled`, its loop and configuration).
--   benchmark/src/sweep.rs: Benchmark/Sweep (`run_to_first_halt`, `sweep`).
--   benchmark/src/rng.rs and synthetic.rs: Benchmark/Generate (the seeded generator, the batches).
--   driftbrake-py/src/batch.rs: Batch (`run_sweep_raw`, its grid and its loop over rows).
--   driftbrake-py/src/lib.rs: Bindings (the decision and `evaluate`), Bindings/History and
--     Bindings/Policy (the other two classes, with the defaults of the constructors).
--   revm-backend/src: Backend (inputs, environments, `convert_result`), Backend/Simulate (`simulate`),
--     Backend/Permits (the semaphore as a step relation, with the calls in any order).
--   examples/toy-arbitrage/src: Arbitrage/Rlp (rlp.rs; Rlp/Reading is a reader that takes only the
--     shortest encoding, against which the encoder is read back), Arbitrage/Abi (abi.rs and the reserves of
--     pools.rs), Arbitrage/Prices (its prices), Arbitrage/Decoder (decoder.rs). Of rpc.rs: Arbitrage/Hex
--     (hexadecimal text), Arbitrage/Rpc (`call`), Rpc/Receipts (`get_receipt`), Rpc/Database (`RpcDb`),
--     Rpc/Signing (`signing_hash`, `signed_tx_rlp`, `submit`), over Arbitrage/Json for serde_json. Of
--     main.rs: Arbitrage/Startup (`load_dotenv`, the arguments, the first requests; `main` up to the loop
--     as `prepare`), Arbitrage/Loop (one turn of the loop as `step`, which calls `poll_until_settled` and
--     `evaluate` of the parts above, over an `Environment` and `Services`) and Arbitrage/Wiring (both of
--     these as `main` builds them: receipts by RPC, the decoder that injects drift, the backend, the
--     submitter).
--
-- Numbers. `i128` is an integer with a range, unsigned types are natural numbers, and the arithmetic
-- that can overflow goes through `arith_i128`, `arith_u128` and `arith_u64` of Base/Int, which panic in
-- the profile `debug` and wrap in the profile `release`. `f64` is the interface `Floats`: nothing is
-- assumed of it but, where a theorem says so, a law of comparison in `FloatLaws`, which holds of
-- IEEE 754 with NaN. Float/Rational fills the interface with exact fractions for the runs in Tests.
--
-- Bounds and fuel. `Journal.Recover.recover` gives its loop one round for each byte; a frame has at least
-- nine. `Poller.poll_until_settled` gives its loop one round for each millisecond of the timeout, and
-- one more; each round that does not end the loop sleeps.
--
-- Environment. The receipt source, the decoder and the clock of the poller are the record `Environment`,
-- with `ClockLaws` for the clock; a decoder may keep a state and may panic. In Arbitrage/Wiring the node,
-- which may reply differently at each moment, and the clock are the record `Outside`. A device fault of
-- the journal is the number of bytes that a write still stores. The time of day is an argument.
--
-- External crates are parameters: keccak256; ureq as `Network`; serde_json as the interface `Json`, an
-- instance argument, with what it documents of the values of `json!` in `JsonLaws`; revm and ruint as
-- `Revm` and `Vm`; k256 as `Signer`; tokio's `JoinError` as the text `join_error`, which a panic in a
-- blocking task becomes. The `FromStr` and `from_str_radix` of the standard library's integers are
-- written out. Tests/Documents fills `Json` with a data type in which its laws hold. A text is the list
-- of its bytes, and in Arbitrage/Startup/Dotenv that of its characters.
--
-- Not modelled: the facade crate driftbrake (it only re-exports), the trait declarations of core (their
-- clients take them as parameters), the registration of the Python module, what the example prints, and
-- the output of benchmark. In the journal: failures of seek, `set_len` and metadata, and of the
-- reopening after a compaction.
pub mod Base
pub mod Float
pub mod Core
pub mod Reconcile
pub mod Benchmark
pub mod Journal
pub mod Poller
pub mod Tests
pub mod Batch
pub mod Bindings
pub mod Backend
pub mod Arbitrage
