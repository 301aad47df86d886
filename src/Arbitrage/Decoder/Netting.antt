-- ===== src/Arbitrage/Decoder/Netting.antt =====
-- What the decoder of the event returns for a confirmed receipt.
use driftbrake.Base.{
  ℕ, ◌*◌, ◌^◌, ◌<◌, ◌≡◌, refl, true, false, List, [], ◌∷◌, ◌++◌, some, inr, All, arith, value,
  Profile,
}
use driftbrake.Base.Int.{pos, IsI128, ◌-ℤ◌, of_bits, arith_i128_fits, arith_u128_fits}
use driftbrake.Core.Types.{Log, TxReceipt, confirmed}
use driftbrake.Arbitrage.Abi.{encode_u256}
use driftbrake.Arbitrage.Abi.Words.{decode_u256_word-encode_u256}
use driftbrake.Arbitrage.Decoder.{has_topic, find_log, net_profit, decode_realized}

find_log-first :
    (topic0 : List ℕ) (before : List Log) (log : Log) (after : List Log)
    → All (λ (l : Log). has_topic topic0 l ≡ false) before
    → has_topic topic0 log ≡ true
    → find_log topic0 (before ++ (log ∷ after)) ≡ some log
unfolding find_log
find_log-first topic0 [] log after others found = rw found
find_log-first topic0 (l ∷ before) log after others found =
    rw others.0 (find_log-first topic0 before log after others.1 found)

of_bits_small : (n : ℕ) → n < 2 ^ 127 → of_bits n ≡ pos n
unfolding of_bits
of_bits_small n small = ground arith

difference : (a b : ℕ) → a < 2 ^ 127 → b < 2 ^ 127 → IsI128 (pos a -ℤ pos b)
unfolding ◌-ℤ◌
difference a b ha hb = ground arith

-- On a confirmed receipt the first log with the topic of the event counts, whatever logs stand around
-- it: where the gross profit and the gas cost are below 2 ^ 127, the realized profit is the gross profit
-- less gas used times gas price, in both profiles.
pub decode_realized_lem :
    (profile : Profile) (topic0 : List ℕ) (receipt : TxReceipt) (before : List Log) (log : Log)
    (after : List Log) (gross : ℕ) (rest : List ℕ)
    → receipt.status ≡ confirmed
    → All (λ (l : Log). has_topic topic0 l ≡ false) before
    → has_topic topic0 log ≡ true
    → log.payload ≡ encode_u256 gross ++ rest
    → gross < 2 ^ 127
    → receipt.gas_used * receipt.effective_gas_price < 2 ^ 127
    → decode_realized profile topic0 receipt (before ++ (log ∷ after))
      ≡ value
          (inr (record { wei = pos gross -ℤ pos (receipt.gas_used * receipt.effective_gas_price) }))
unfolding decode_realized net_profit
decode_realized_lem profile topic0 receipt before log after gross rest ok others found content hg
      hc =
    let cost : ℕ = receipt.gas_used * receipt.effective_gas_price in
    rw (
      ok,
      find_log-first topic0 before log after others found,
      content,
      decode_u256_word-encode_u256 0 gross [] rest refl (omega arith),
      arith_u128_fits profile cost (omega arith),
      of_bits_small gross hg,
      of_bits_small cost hc,
      arith_i128_fits profile (pos gross -ℤ pos cost) (difference gross cost hg hc),
    )
