-- ===== src/Tests/Example.antt =====
-- `main` of the example, with a node whose replies are fixed and a chain on which one trade is done.
use driftbrake.Base.{
  ℕ, ◌≡◌, refl, List, [], ◌∷◌, ◌++◌, Option, none, some, inr, false, debug, replicate, arith,
  if◌then◌else◌,
}
use driftbrake.Base.Text.{codes, same_text}
use driftbrake.Core.History.{new, append, recent_ratios, ratio}
use driftbrake.Float.Rational.{Fraction, fraction_decimal}
use driftbrake.Reconcile.Config.{fast_default, slow_default, policy_new, default_dual_guard}
use driftbrake.Reconcile.Policy.DualGuard.{dual_policy}
use driftbrake.Poller.{config_new}
use driftbrake.Backend.{BlockContext, backend_new}
use driftbrake.Arbitrage.Hex.{
  ok, lower_hex, hex_to_bytes, parse_pairs, from_str_radix_16, parse_digits, to_digit,
}
use driftbrake.Arbitrage.Json.{get_str}
use driftbrake.Arbitrage.Rpc.{JsonRpcClient, Network, json, call, array_32}
use driftbrake.Arbitrage.Rpc.Receipts.Laws.{response}
use driftbrake.Arbitrage.Rpc.Signing.{
  UnsignedTx, Signer, submit, sign_normalized, signed_tx_rlp, signature_v, broadcast,
}
use driftbrake.Arbitrage.Rpc.Signing.Submit.{SignerLaws, IsBroadcast, submit-IsBroadcast}
use driftbrake.Arbitrage.Loop.{Settings, Loop, again, step, read_reserves, pool_a, pool_b}
use driftbrake.Arbitrage.Loop.Halts.{submitting, start}
use driftbrake.Arbitrage.Loop.Windows.{IsDrifted}
use driftbrake.Arbitrage.Loop.Drift.{prepare-Run}
use driftbrake.Core.History.Ratios.{valid_pairs}
use driftbrake.Arbitrage.Startup.{
  CliArgs, hex_to_bytes32, fetch_block_context, get_u64, get_u128, trim_0x, fetch_nonce,
  fetch_gas_price, address_from_point, parse_u64, parse_decimal,
}
use driftbrake.Arbitrage.Startup.Dotenv.{Env}
use driftbrake.Arbitrage.Startup.Prepare.{Keys, Prepared, prepare}
use driftbrake.Base.Int.{of_bits, arith_u64}
use driftbrake.Base.Bytes.{to_be, of_be}
use driftbrake.Poller.{poll_until_settled, timeout, poll, book}
use driftbrake.Reconcile.Policy.{evaluate}
use driftbrake.Reconcile.Guards.{
  check_revert_burst, check_revert_gas, check_fast, check_drawdown, check_volume_weighted,
  check_slow,
}
use driftbrake.Arbitrage.Abi.{encode_u256, decode_u256_word, decode_reserves, encode_arb_call}
use driftbrake.Arbitrage.Prices.{price_divergence}
use driftbrake.Arbitrage.Decoder.{decode_predicted}
use driftbrake.Tests.Trading.{chain, services}
use driftbrake.Tests.Documents.{Document, null, string, document}
use driftbrake.Tests.Sample.{rationals, predicted, realized, zeros_32}

abbrev pub variables : Env
variables name =
    if same_text name (codes "TESTNET_RPC_URL")
    then some (codes "http://localhost:8545")
    else if same_text name (codes "PRIVATE_KEY")
    then some (replicate 64 49)
    else if same_text name (codes "BLOCK_TIME_MS")
    then some (codes "12")
    else none

abbrev pub reply_to : Option (List ℕ) → Document
reply_to none = null
reply_to (some method) =
    if same_text method (codes "eth_getBlockByNumber")
    then document.object (
        (codes "number", string (codes "0x10"))
        ∷ (codes "timestamp", string (codes "0x20"))
        ∷ (codes "gasLimit", string (codes "0x30"))
        ∷ [])
    else if same_text method (codes "eth_sendRawTransaction")
    then string (codes "0x" ++ replicate 64 49)
    else string (codes "0x7")

abbrev pub network : Network
network = record { post = λ url body. json (response (reply_to (get_str body (codes "method")))) }

-- A key is its bytes, and a signature holds nothing.
abbrev pub signer : Signer
signer = record {
  SigningKey = List ℕ;
  Signature = Unit;
  RecoveryId = Unit;
  sign_prehash_recoverable = λ key hash. inr (tt, tt);
  normalize_s = λ signature. none;
  is_y_odd = λ id. false;
  is_x_reduced = λ id. false;
  recovery_id = λ odd reduced. tt;
  to_byte = λ id. 0;
  r_bytes = λ signature. zeros_32;
  s_bytes = λ signature. zeros_32;
  keccak256 = λ bytes. zeros_32;
}

abbrev pub keys : Keys signer
keys = record {
  from_bytes = λ bytes. inr bytes;
  encoded_point = λ key. 4 ∷ zeros_32;
  show_error = λ e. [];
}

abbrev pub cli : CliArgs
cli = record { inject_drift = false; drift_after = 5 }

abbrev pub client : JsonRpcClient
client = record { url = codes "http://localhost:8545"; network = network }

abbrev block : BlockContext
block = record {
  number = 16;
  timestamp = 32;
  gas_limit = 48;
  basefee = 0;
  coinbase = replicate 20 0;
}

abbrev pub settings : Settings Fraction
settings = record {
  caller = replicate 20 0;
  gas_price = 7;
  chain_id = 11155111;
  block_time_ms = 12;
  poller_config = record {
    block_time_ms = 12;
    poll_interval_fraction = fraction_decimal 5 1;
    confirmation_timeout_blocks = 10;
  };
  halt_policy = dual_policy rationals debug (fast_default rationals) (slow_default rationals);
}

abbrev pub prepared : Prepared rationals debug signer keys network
prepared = record {
  client = client;
  signing_key = replicate 32 17;
  engine = record {
    db_factory = record { client = client; block_tag = codes "0x" ++ lower_hex 16 };
    block = block;
    block_time_ms = 12;
    timeout_fraction = fraction_decimal 5 1;
    concurrency = 4;
  };
  drift_after = 18446744073709551615;
  damping = fraction_decimal 10 1;
  nonce = 7;
  history = new;
  settings = settings;
}

pub made : prepare rationals debug signer keys network variables cli ≡ ok prepared
unfolding prepare hex_to_bytes32 parse_pairs from_str_radix_16 parse_digits to_digit
    fetch_block_context call get_u64 get_u128 trim_0x backend_new config_new fetch_nonce
    fetch_gas_price default_dual_guard policy_new address_from_point parse_u64 parse_decimal
made = refl

abbrev first : Loop rationals debug chain services
first = record { world = 0; nonce = 7; history = new }

abbrev second : Loop rationals debug chain services
second = record { world = 13; nonce = 8; history = append new (predicted 100) (realized 90) }

abbrev pub sent : UnsignedTx
sent = record {
  nonce = 7;
  gas_price = 7;
  gas_limit = 500000;
  to = replicate 20 0x99;
  tx_value = 0;
  payload = encode_arb_call (replicate 4 0) pool_a pool_b 1000000000000000000;
  chain_id = 11155111;
}

first_turn : step rationals debug chain services settings first ≡ (some sent, again second)
unfolding step read_reserves decode_reserves decode_u256_word encode_u256 to_be price_divergence
    of_be decode_predicted of_bits arith_u64 poll_until_settled timeout poll book evaluate
    check_revert_burst check_revert_gas check_fast check_drawdown check_volume_weighted check_slow
    append recent_ratios ratio
first_turn = refl

traded : valid_pairs second.history ≡ (predicted 100, realized 90) ∷ []
unfolding append
traded = refl

prepare-Run_example :
    ¬ IsDrifted rationals
      (fast_default rationals)
      (slow_default rationals)
      ((predicted 100, realized 90) ∷ [])
prepare-Run_example =
    prepare-Run rationals debug signer keys network variables cli prepared chain services first
      (sent ∷ []) second [] ((predicted 100, realized 90) ∷ []) [] made refl
      (submitting [] sent first second start first_turn) traded

abbrev transfer : UnsignedTx
transfer = record {
  nonce = 5;
  gas_price = 1000;
  gas_limit = 500000;
  to = replicate 20 0x99;
  tx_value = 0;
  payload = 1 ∷ 2 ∷ [];
  chain_id = 1;
}

pub signer_laws : SignerLaws signer
signer_laws = record {
  r_size = λ signature. refl;
  s_size = λ signature. refl;
  to_byte_le = λ id. omega arith;
  normalize_s_low = λ signature low e. refl;
}

submitted : submit signer [] debug client (replicate 32 17) transfer ≡ ok (replicate 32 17)
unfolding submit sign_normalized signed_tx_rlp signature_v arith_u64 broadcast call hex_to_bytes
    parse_pairs from_str_radix_16 parse_digits to_digit array_32
submitted = refl

submit-IsBroadcast_example :
    IsBroadcast signer signer_laws debug client (replicate 32 17) transfer (replicate 32 17)
submit-IsBroadcast_example =
    submit-IsBroadcast signer signer_laws [] debug client (replicate 32 17) transfer
      (replicate 32 17)
      (omega arith, omega arith, omega arith, refl, omega arith, omega arith, omega arith)
      (omega arith) submitted
