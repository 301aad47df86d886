-- ===== src/Tests/Whole.antt =====
-- One turn of the whole program, with a node whose replies are fixed and an execution that pays.
use driftbrake.Base.{
  ℕ, ◌+◌, ◌≡◌, refl, List, [], ◌∷◌, ◌++◌, Option, some, none, inr, value, debug, replicate, arith,
  if◌then◌else◌,
}
use driftbrake.Base.Text.{codes, same_text}
use driftbrake.Core.Types.{Log, confirmed, TxReceipt}
use driftbrake.Core.History.{new, append, recent_ratios, ratio}
use driftbrake.Backend.{success, convert_result}
use driftbrake.Backend.Simulate.{Vm, work, simulate}
use driftbrake.Base.Int.{of_bits, arith_u64, arith_u128, arith_i128, ◌-ℤ◌}
use driftbrake.Base.Bytes.{to_be, of_be}
use driftbrake.Poller.{poll_until_settled, timeout, poll, book}
use driftbrake.Reconcile.Policy.{evaluate}
use driftbrake.Reconcile.Guards.{
  check_revert_burst, check_revert_gas, check_fast, check_drawdown, check_volume_weighted,
  check_slow,
}
use driftbrake.Arbitrage.Prices.{price_divergence}
use driftbrake.Arbitrage.Decoder.{
  decode_predicted, decode_realized, find_log, net_profit, inject_drift,
}
use driftbrake.Arbitrage.Hex.{
  hex_to_bytes, parse_pairs, from_str_radix_16, parse_digits, to_digit, hex_to_u64, hex_to_u128,
  lower_hex, lower_hex_from, hex_encode,
}
use driftbrake.Arbitrage.Abi.{
  encode_address, encode_arb_call, encode_u256, decode_u256_word, decode_reserves,
}
use driftbrake.Arbitrage.Json.{get_str}
use driftbrake.Arbitrage.Rpc.{json, call, array_32}
use driftbrake.Arbitrage.Rpc.Receipts.{
  get_receipt, parse_receipt_response, parse_receipt, parse_log, parse_topic, collect,
}
use driftbrake.Arbitrage.Rpc.Signing.{
  submit, sign_normalized, signed_tx_rlp, signature_v, broadcast,
}
use driftbrake.Arbitrage.Rpc.Database.{RpcDbFactory}
use driftbrake.Arbitrage.Rpc.Receipts.Laws.{receipt_json, response}
use driftbrake.Arbitrage.Loop.{Loop, again, step, read_reserves, pool_a, pool_b}
use driftbrake.Arbitrage.Loop.Halts.{Run, start, submitting}
use driftbrake.Arbitrage.Loop.Entries.{Booked}
use driftbrake.Arbitrage.Wiring.{Outside, System, environment, services}
use driftbrake.Arbitrage.Wiring.Earned.{IsSendable, IsEarned, Run-IsEarned}
use driftbrake.Tests.Documents.{document}
use driftbrake.Tests.Example.{
  signer, keys, signer_laws, prepared, network, settings, reply_to, sent,
}
use driftbrake.Tests.Sample.{rationals, predicted, realized, zeros_32}

abbrev receipt : TxReceipt
receipt = record {
  tx_hash = replicate 32 17;
  block_number = 5000;
  status = confirmed;
  gas_used = 10;
  effective_gas_price = 1;
}

abbrev profit_log : Log
profit_log = record {
  address = replicate 20 0x99;
  topics = zeros_32 ∷ [];
  payload = encode_u256 100;
}

abbrev node_reply : Option (List ℕ) → document.Value
node_reply none = reply_to none
node_reply (some method) =
    if same_text method (codes "eth_getTransactionReceipt")
    then receipt_json receipt (profit_log ∷ [])
    else reply_to (some method)

-- The first pool is the cheaper one, and a trade returns 100.
abbrev vm : Vm RpcDbFactory
vm = record {
  Db = Unit;
  fresh_db = λ factory. value (inr tt);
  transact = λ block tx db. value (
      inr (
        success 30000 [] (
          if same_text tx.transact_to pool_a
          then encode_u256 1000 ++ encode_u256 2000
          else if same_text tx.transact_to pool_b
          then encode_u256 1000 ++ encode_u256 2200
          else encode_u256 100)));
  join_error = [];
}

abbrev outside : Outside
outside = record {
  World = ℕ;
  node = λ clock. record {
    post = λ url body. json (response (node_reply (get_str body (codes "method"))));
  };
  after_receipt = λ clock hash. clock + 1;
  after_simulation = λ clock tx. clock;
  after_submission = λ clock tx. clock;
  first_over = λ clock tx. work;
  now = λ clock. clock;
  sleep = λ d clock. clock + d;
}

abbrev system : System
system = record {
  fl = rationals;
  profile = debug;
  sg = signer;
  keys = keys;
  network = network;
  prepared = prepared;
  vm = vm;
  join_error = [];
  outside = outside;
}

abbrev first : Loop rationals debug (environment system) (services system)
first = record { world = (0, 0); nonce = 7; history = new }

sendable : IsSendable sent
unfolding encode_arb_call encode_address encode_u256 to_be
sendable = (
  (omega arith, omega arith, omega arith, refl, omega arith, omega arith, omega arith),
  omega arith,
)

abbrev second : Loop rationals debug (environment system) (services system)
second = record { world = (13, 1); nonce = 8; history = append new (predicted 100) (realized 90) }

first_turn :
    step rationals debug (environment system) (services system) settings first
    ≡ (some sent, again second)
unfolding step read_reserves decode_reserves decode_u256_word encode_u256 to_be price_divergence
    of_be decode_predicted of_bits arith_u64 poll_until_settled timeout poll book evaluate
    check_revert_burst check_revert_gas check_fast check_drawdown check_volume_weighted check_slow
    append recent_ratios ratio simulate convert_result submit sign_normalized signed_tx_rlp
    signature_v broadcast call hex_to_bytes parse_pairs from_str_radix_16 parse_digits to_digit
    array_32 get_receipt parse_receipt_response parse_receipt parse_log parse_topic collect
    hex_to_u64 hex_to_u128 lower_hex lower_hex_from hex_encode decode_realized find_log net_profit
    inject_drift arith_u128 arith_i128 ◌-ℤ◌
first_turn = refl

one_trade :
    Run rationals debug (environment system) (services system) settings first (sent ∷ []) second
one_trade = submitting [] sent first second start first_turn

Run-IsEarned_example : Booked (IsEarned system signer_laws) (sent ∷ []) second.history.timeline
Run-IsEarned_example =
    Run-IsEarned system signer_laws first (sent ∷ []) second refl one_trade (sendable, tt)
