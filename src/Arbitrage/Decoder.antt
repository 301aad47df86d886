-- ===== src/Arbitrage/Decoder.antt =====
-- examples/toy-arbitrage/src/decoder.rs: the decoders of the executor's return value and of its event.
pub mod Netting
use driftbrake.Base.{
  ℕ, ◌+◌, ◌*◌, ◌%◌, ◌^◌, List, [], ◌∷◌, Option, none, some, ◌⊎◌, inl, inr, Bool, true, false, ltb,
  ◌==◌, if◌then◌else◌, Outcome, value, ◌>>=◌, Profile,
}
use driftbrake.Base.Int.{ℤ, of_bits, ◌-ℤ◌, arith_i128, arith_u128}
use driftbrake.Core.Types.{
  PredictedProfit, RealizedProfit, Log, TxStatus, confirmed, reverted, TxReceipt, RawSimOutput,
  DecodeError, reverted_call, malformed_data, missing_profit_event, other,
}
use driftbrake.Float.{Floats}
use driftbrake.Arbitrage.Abi.{decode_u256_word}

-- "executeArb return data too short for one uint256"
abbrev pub short_return : List ℕ
short_return =
    101 ∷ 120 ∷ 101 ∷ 99 ∷ 117 ∷ 116 ∷ 101 ∷ 65 ∷ 114 ∷ 98 ∷ 32 ∷ 114 ∷ 101 ∷ 116 ∷ 117 ∷ 114 ∷ 110
    ∷ 32 ∷ 100 ∷ 97 ∷ 116 ∷ 97 ∷ 32 ∷ 116 ∷ 111 ∷ 111 ∷ 32 ∷ 115 ∷ 104 ∷ 111 ∷ 114 ∷ 116 ∷ 32 ∷ 102
    ∷ 111 ∷ 114 ∷ 32 ∷ 111 ∷ 110 ∷ 101 ∷ 32 ∷ 117 ∷ 105 ∷ 110 ∷ 116 ∷ 50 ∷ 53 ∷ 54 ∷ []

-- "Profit event data too short for one uint256"
abbrev pub short_event : List ℕ
short_event =
    80 ∷ 114 ∷ 111 ∷ 102 ∷ 105 ∷ 116 ∷ 32 ∷ 101 ∷ 118 ∷ 101 ∷ 110 ∷ 116 ∷ 32 ∷ 100 ∷ 97 ∷ 116 ∷ 97
    ∷ 32 ∷ 116 ∷ 111 ∷ 111 ∷ 32 ∷ 115 ∷ 104 ∷ 111 ∷ 114 ∷ 116 ∷ 32 ∷ 102 ∷ 111 ∷ 114 ∷ 32 ∷ 111
    ∷ 110 ∷ 101 ∷ 32 ∷ 117 ∷ 105 ∷ 110 ∷ 116 ∷ 50 ∷ 53 ∷ 54 ∷ []

-- "decode_realized called on a non-confirmed receipt"
abbrev pub not_confirmed : List ℕ
not_confirmed =
    100 ∷ 101 ∷ 99 ∷ 111 ∷ 100 ∷ 101 ∷ 95 ∷ 114 ∷ 101 ∷ 97 ∷ 108 ∷ 105 ∷ 122 ∷ 101 ∷ 100 ∷ 32 ∷ 99
    ∷ 97 ∷ 108 ∷ 108 ∷ 101 ∷ 100 ∷ 32 ∷ 111 ∷ 110 ∷ 32 ∷ 97 ∷ 32 ∷ 110 ∷ 111 ∷ 110 ∷ 45 ∷ 99 ∷ 111
    ∷ 110 ∷ 102 ∷ 105 ∷ 114 ∷ 109 ∷ 101 ∷ 100 ∷ 32 ∷ 114 ∷ 101 ∷ 99 ∷ 101 ∷ 105 ∷ 112 ∷ 116 ∷ []

-- `ToyArbProfitDecoder`: `profit as i128` keeps the 128 bits.
abbrev pub predicted_of : Option ℕ → DecodeError ⊎ PredictedProfit
predicted_of none = inl (malformed_data short_return)
predicted_of (some profit) = inr (record { wei = of_bits profit })

abbrev pub decode_return : Option (List ℕ) → List ℕ → DecodeError ⊎ PredictedProfit
decode_return (some reason) return_data = inl reverted_call
decode_return none return_data = predicted_of (decode_u256_word return_data 0)

unfoldable pub decode_predicted : RawSimOutput → DecodeError ⊎ PredictedProfit
decode_predicted raw = decode_return raw.revert_reason raw.return_data

-- `==` of two words.
abbrev pub same_word : List ℕ → List ℕ → Bool
same_word [] [] = true
same_word [] (y ∷ ys) = false
same_word (x ∷ xs) [] = false
same_word (x ∷ xs) (y ∷ ys) = if x == y then same_word xs ys else false

-- `log.topics.first() == Some(&topic0)`
abbrev pub has_topic : List ℕ → Log → Bool
has_topic topic0 log = elim log.topics [ [] ↦ false | t ∷ topics ↦ same_word t topic0 ]

unfoldable pub find_log : List ℕ → List Log → Option Log
find_log topic0 [] = none
find_log topic0 (log ∷ logs) =
    let rest = find_log topic0 logs in if has_topic topic0 log then some log else rest

-- The gross profit less the gas cost: `gas_used as u128 * effective_gas_price` and the `i128`
-- subtraction can overflow, and the casts keep the 128 bits.
unfoldable pub net_profit : Profile → TxReceipt → ℕ → Outcome (DecodeError ⊎ RealizedProfit)
net_profit profile receipt gross = do
  gas_cost ← arith_u128 profile (receipt.gas_used * receipt.effective_gas_price)
  net ← arith_i128 profile (of_bits gross -ℤ of_bits gas_cost)
  value (inr (record { wei = net }))

abbrev pub realized_of : Profile → TxReceipt → Option ℕ → Outcome (DecodeError ⊎ RealizedProfit)
realized_of profile receipt none = value (inl (malformed_data short_event))
realized_of profile receipt (some gross) = net_profit profile receipt gross

abbrev pub decode_log : Profile → TxReceipt → Option Log → Outcome (DecodeError ⊎ RealizedProfit)
decode_log profile receipt none = value (inl missing_profit_event)
decode_log profile receipt (some log) = realized_of profile receipt (decode_u256_word log.payload 0)

abbrev pub decode_status :
    Profile → TxStatus → List ℕ → TxReceipt → List Log → Outcome (DecodeError ⊎ RealizedProfit)
decode_status profile reverted topic0 receipt logs = value (inl (other not_confirmed))
decode_status profile confirmed topic0 receipt logs =
    decode_log profile receipt (find_log topic0 logs)

-- `ToyArbRealizedDecoder`; `topic0` is the hash of the event's signature.
unfoldable pub decode_realized :
    Profile → List ℕ → TxReceipt → List Log → Outcome (DecodeError ⊎ RealizedProfit)
decode_realized profile topic0 receipt logs =
    decode_status profile receipt.status topic0 receipt logs

-- `DriftInjectingDecoder` after the inner decoder has answered, with the count of calls so far.
unfoldable pub inject_drift :
    (fl : Floats)
    → (drift_after : ℕ) → Floats.Float fl
    → ℕ
    → DecodeError ⊎ RealizedProfit
    → ℕ × (DecodeError ⊎ RealizedProfit)
inject_drift fl drift_after damping_factor calls_so_far (inl error) = (calls_so_far, inl error)
inject_drift fl drift_after damping_factor calls_so_far (inr realized) = (
  (calls_so_far + 1) % 2 ^ 64,
  if ltb calls_so_far drift_after
      then inr realized
      else inr (record {
        wei = Floats.round_i128 fl (Floats.mul fl (Floats.of_i128 fl realized.wei) damping_factor);
      }),
)
