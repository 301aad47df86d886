-- ===== src/Tests/Polling.antt =====
-- A source that knows the receipt from its third answer on.
use driftbrake.Base.{
  ℕ, ◌+◌, ◌*◌, ◌≡◌, refl, List, [], Option, none, some, ◌⊎◌, inr, leb, if◌then◌else◌, arith, value,
  debug,
}
use driftbrake.Core.Types.{Log, confirmed, TxReceipt}
use driftbrake.Core.History.{new}
use driftbrake.Float.Rational.{Fraction}
use driftbrake.Poller.{
  PollerConfig, Polled, Environment, ClockLaws, poll_interval, poll_until_settled,
}
use driftbrake.Poller.Settling.{IsBooked, poll_until_settled_lem}
use driftbrake.Tests.Sample.{rationals, percent, predicted, realized, zeros_32}

abbrev receipt : TxReceipt
receipt = record {
  tx_hash = zeros_32;
  block_number = 9;
  status = confirmed;
  gas_used = 50000;
  effective_gas_price = 3;
}

-- The world is its clock.
abbrev answer : ℕ → ℕ × (Unit {0} ⊎ Option (TxReceipt × List Log))
answer clock = (clock + 1, inr (if leb 12 clock then some (receipt, []) else none))

abbrev chain : Environment
chain = record {
  World = ℕ;
  Error = Unit;
  get_receipt = λ clock hash. answer clock;
  decode_realized = λ clock r logs. (clock, value (inr (realized 40)));
  now = λ clock. clock;
  sleep = λ d clock. clock + d;
}

chain_clock : ClockLaws chain
chain_clock = record {
  get_receipt_takes_time = λ w hash. omega arith;
  sleep_lasts = λ d w. omega arith;
}

abbrev config : PollerConfig Fraction
config = record {
  block_time_ms = 12;
  poll_interval_fraction = percent 50;
  confirmation_timeout_blocks = 3;
}

interval : poll_interval rationals config ≡ 6
unfolding poll_interval
interval = refl

poll_until_settled_lem_example :
    (result : Polled chain) × (poll_until_settled chain rationals debug config zeros_32
        (predicted 100)
        new
        0
      ≡ some result)
    × IsBooked chain zeros_32 (predicted 100) new (0 + 12 * 3) result
poll_until_settled_lem_example =
    poll_until_settled_lem chain zeros_32 (predicted 100) new rationals debug config 0 chain_clock
      (omega arith) (omega (arith, interval))
