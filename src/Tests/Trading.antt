-- ===== src/Tests/Trading.antt =====
-- A chain on which a pool is cheap by a tenth, and a trade realizes what was predicted.
use driftbrake.Base.{
  ℕ, ◌+◌, ◌≤◌, ◌≡◌, refl, List, [], ◌∷◌, ◌++◌, none, some, inr, value, debug, arith, if◌then◌else◌,
  replicate,
}
use driftbrake.Base.Text.{same_text}
use driftbrake.Base.Int.{of_bits, arith_u64}
use driftbrake.Base.Bytes.{to_be, of_be}
use driftbrake.Core.Types.{confirmed, TxReceipt, RawSimOutput}
use driftbrake.Core.History.{new, append, recent_ratios, ratio}
use driftbrake.Float.Rational.{Fraction}
use driftbrake.Arbitrage.Loop.Finishing.{IsOver, step-IsOver}
use driftbrake.Poller.{
  Environment, ClockLaws, poll_interval, poll_until_settled, timeout, poll, book,
}
use driftbrake.Reconcile.Policy.{evaluate}
use driftbrake.Reconcile.Guards.{
  check_revert_burst, check_revert_gas, check_fast, check_drawdown, check_volume_weighted,
  check_slow,
}
use driftbrake.Backend.{CandidateTx, BlockContext, RevmBackend, success, convert_result}
use driftbrake.Backend.Simulate.{Vm, work, simulate}
use driftbrake.Backend.Permits.{
  Pool, Steps, done, then_step, acquire, give_up, started, abandoned, pool_new, Steps-bound,
}
use driftbrake.Backend.Decoding.{Ran, simulate-decode_predicted}
use driftbrake.Arbitrage.Abi.{encode_u256, decode_u256_word, decode_reserves, encode_arb_call}
use driftbrake.Arbitrage.Prices.{price_divergence}
use driftbrake.Arbitrage.Decoder.{decode_predicted}
use driftbrake.Arbitrage.Rpc.Signing.{UnsignedTx}
use driftbrake.Arbitrage.Loop.{Services, Settings, Loop, again, step, read_reserves, pool_a, pool_b}
use driftbrake.Arbitrage.Loop.Turns.{IsLawful}
use driftbrake.Arbitrage.Loop.Steps.{step-IsLawful}
use driftbrake.Arbitrage.Loop.Halts.{Run, start, submitting}
use driftbrake.Arbitrage.Loop.Nonces.{IsNumbered, Run-IsNumbered}
use driftbrake.Tests.Sample.{rationals, percent, policy, predicted, realized, zeros_32}

abbrev block : BlockContext
block = record { number = 1; timestamp = 2; gas_limit = 3; basefee = 4; coinbase = replicate 20 0 }

abbrev vm : Vm Unit
vm = record {
  Db = Unit;
  fresh_db = λ f. value (inr tt);
  transact = λ b t d. value (inr (success 21000 [] (encode_u256 100)));
  join_error = [];
}

abbrev engine : RevmBackend rationals (Unit {0})
engine = record {
  db_factory = tt;
  block = block;
  block_time_ms = 12;
  timeout_fraction = percent 50;
  concurrency = 2;
}

-- One simulation runs, another one has timed out and runs on.
abbrev busy : Pool
busy = record { available = 0; running = started 1 ∷ abandoned (started 0) ∷ [] }

busy_reached : Steps (pool_new engine) busy
busy_reached =
    then_step (pool_new engine) _ busy
      (then_step (pool_new engine) _ _
        (then_step (pool_new engine) _ _ (done (pool_new engine)) (acquire 0 1 []))
        (give_up 1 (started 0) [] []))
      (acquire 1 0 (abandoned (started 0) ∷ []))

Steps-bound_example : (◌≡◌ {A = ℕ} 2 2) × (2 ≤ 2)
Steps-bound_example = Steps-bound engine busy busy_reached

abbrev candidate : CandidateTx
candidate = record {
  caller = replicate 20 1;
  to = replicate 20 2;
  tx_value = 0;
  payload = [];
  gas_limit = 100000;
}

abbrev raw : RawSimOutput
raw = record { return_data = encode_u256 100; gas_used = 21000; revert_reason = none; logs = [] }

ran : simulate rationals vm work engine candidate ≡ inr raw
unfolding simulate convert_result
ran = refl

decoded : decode_predicted raw ≡ inr (predicted 100)
unfolding decode_predicted decode_u256_word encode_u256 to_be of_be of_bits
decoded = refl

simulate-decode_predicted_example :
    (work ≡ work) × Ran rationals vm engine candidate (predicted 100) (value (inr tt))
simulate-decode_predicted_example =
    simulate-decode_predicted rationals vm work engine candidate raw (predicted 100) ran decoded

abbrev receipt : TxReceipt
receipt = record {
  tx_hash = zeros_32;
  block_number = 9;
  status = confirmed;
  gas_used = 50000;
  effective_gas_price = 3;
}

-- The world is its clock.
abbrev pub chain : Environment
chain = record {
  World = ℕ;
  Error = Unit;
  get_receipt = λ clock hash. (clock + 1, inr (some (receipt, [])));
  decode_realized = λ clock r logs. (clock, value (inr (realized 90)));
  now = λ clock. clock;
  sleep = λ d clock. clock + d;
}

abbrev output : List ℕ → RawSimOutput
output bytes = record { return_data = bytes; gas_used = 30000; revert_reason = none; logs = [] }

abbrev pub simulated : CandidateTx → RawSimOutput
simulated tx =
    if same_text tx.to pool_a
    then output (encode_u256 1000 ++ encode_u256 2000)
    else if same_text tx.to pool_b
    then output (encode_u256 1000 ++ encode_u256 2200)
    else output (encode_u256 100)

abbrev pub services : Services chain
services = record {
  simulate = λ clock tx. (clock, inr (simulated tx));
  submit = λ clock tx. (clock, value (inr zeros_32));
  keccak256 = λ bytes. zeros_32;
}

abbrev settings : Settings Fraction
settings = record {
  caller = replicate 20 1;
  gas_price = 3;
  chain_id = 1;
  block_time_ms = 12;
  poller_config = record {
    block_time_ms = 12;
    poll_interval_fraction = percent 50;
    confirmation_timeout_blocks = 3;
  };
  halt_policy = policy;
}

abbrev first : Loop rationals debug chain services
first = record { world = 0; nonce = 7; history = new }

step-IsLawful_example :
    IsLawful rationals debug chain services settings first
      (step rationals debug chain services settings first)
step-IsLawful_example = step-IsLawful rationals debug chain services settings first

chain_clock : ClockLaws chain
chain_clock = record {
  get_receipt_takes_time = λ w hash. omega arith;
  sleep_lasts = λ d w. omega arith;
}

interval : poll_interval rationals settings.poller_config ≡ 6
unfolding poll_interval
interval = refl

step-IsOver_example :
    IsOver rationals debug chain services settings
      (step rationals debug chain services settings first)
step-IsOver_example =
    step-IsOver rationals debug chain services settings chain_clock (omega (arith, interval)) first

abbrev sent : UnsignedTx
sent = record {
  nonce = 7;
  gas_price = 3;
  gas_limit = 500000;
  to = replicate 20 0x99;
  tx_value = 0;
  payload = encode_arb_call (replicate 4 0) pool_a pool_b 1000000000000000000;
  chain_id = 1;
}

abbrev second : Loop rationals debug chain services
second = record { world = 13; nonce = 8; history = append new (predicted 100) (realized 90) }

first_turn : step rationals debug chain services settings first ≡ (some sent, again second)
unfolding step read_reserves decode_reserves decode_u256_word encode_u256 to_be price_divergence
    of_be decode_predicted of_bits arith_u64 poll_until_settled timeout poll book evaluate
    check_revert_burst check_revert_gas check_fast check_drawdown check_volume_weighted check_slow
    append recent_ratios ratio
first_turn = refl

one_trade : Run rationals debug chain services settings first (sent ∷ []) second
one_trade = submitting [] sent first second start first_turn

Run-IsNumbered_example : IsNumbered rationals debug chain services settings first (sent ∷ []) second
Run-IsNumbered_example =
    Run-IsNumbered rationals debug chain services settings first (sent ∷ []) second (omega arith)
      one_trade
