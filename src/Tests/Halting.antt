-- ===== src/Tests/Halting.antt =====
-- A chain on which a trade realizes less than half of what was predicted, for the third time.
use driftbrake.Base.{◌≡◌, refl, ◌⊎◌, inr, some, value, debug}
use driftbrake.Base.Int.{of_bits, arith_u64}
use driftbrake.Base.Bytes.{to_be, of_be}
use driftbrake.Core.Types.{
  PredictedProfit, RealizedProfit, HaltReason, ReconcileHistory, fast_guard,
}
use driftbrake.Core.History.{new, append, recent_ratios, ratio}
use driftbrake.Float.Rational.{Fraction}
use driftbrake.Reconcile.Config.{fast_default, slow_default}
use driftbrake.Reconcile.Guards.{check_revert_burst, check_revert_gas, check_fast}
use driftbrake.Reconcile.Guards.Drift.{FastHalt, SlowHalt}
use driftbrake.Reconcile.Policy.{evaluate}
use driftbrake.Poller.{Environment, poll_until_settled, timeout, poll, book}
use driftbrake.Arbitrage.Abi.{encode_u256, decode_u256_word, decode_reserves}
use driftbrake.Arbitrage.Prices.{price_divergence}
use driftbrake.Arbitrage.Decoder.{decode_predicted}
use driftbrake.Arbitrage.Loop.{Services, Loop, stopped, step, read_reserves}
use driftbrake.Arbitrage.Loop.Drift.{prepare-stopped}
use driftbrake.Tests.Documents.{document}
use driftbrake.Tests.Example.{signer, keys, network, variables, cli, prepared, settings, sent, made}
use driftbrake.Tests.Trading.{chain, simulated}
use driftbrake.Tests.Sample.{rationals, predicted, realized, zeros_32}

abbrev poor_chain : Environment
poor_chain = record chain { decode_realized = λ clock r logs. (clock, value (inr (realized 40))) }

abbrev services : Services poor_chain
services = record {
  simulate = λ clock tx. (clock, inr (simulated tx));
  submit = λ clock tx. (clock, value (inr zeros_32));
  keccak256 = λ bytes. zeros_32;
}

abbrev twice : ReconcileHistory
twice = append (append new (predicted 100) (realized 40)) (predicted 100) (realized 40)

abbrev third : ReconcileHistory
third = append twice (predicted 100) (realized 40)

abbrev last : Loop rationals debug poor_chain services
last = record { world = 0; nonce = 7; history = twice }

abbrev end : Loop rationals debug poor_chain services
end = record { world = 1; nonce = 8; history = third }

abbrev reason : HaltReason Fraction
reason = fast_guard (recent_ratios rationals third 3) (fast_default rationals).threshold

halted : step rationals debug poor_chain services settings last ≡ (some sent, stopped reason end)
unfolding step read_reserves decode_reserves decode_u256_word encode_u256 to_be price_divergence
    of_be decode_predicted of_bits arith_u64 poll_until_settled timeout poll book evaluate
    check_revert_burst check_revert_gas check_fast append recent_ratios ratio
halted = refl

prepare-stopped_example :
    ((p : PredictedProfit) × (profit : RealizedProfit) × (third ≡ append twice p profit))
    × (FastHalt rationals (fast_default rationals) third
        ⊎ SlowHalt rationals (slow_default rationals) third)
prepare-stopped_example =
    prepare-stopped rationals debug signer keys network variables cli prepared poor_chain services
      last (some sent) reason end made halted
