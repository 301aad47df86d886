-- ===== src/Arbitrage/Abi.antt =====
-- examples/toy-arbitrage/src/abi.rs and pools.rs: words of 32 bytes. keccak256 belongs to an external
-- crate and is a parameter.
pub mod Words
use driftbrake.Base.{
  ℕ, ◌+◌, ◌*◌, List, [], ◌∷◌, ◌++◌, Option, none, some, length, take, replicate, leb, if◌then◌else◌,
}
use driftbrake.Base.Bytes.{to_be, of_be, slice}
use driftbrake.Core.Types.{RawSimOutput}

module _ (keccak256 : List ℕ → List ℕ) where
  abbrev pub function_selector : List ℕ → List ℕ
  function_selector signature = take 4 (keccak256 signature)

  abbrev pub event_topic0 : List ℕ → List ℕ
  event_topic0 signature = keccak256 signature

unfoldable pub encode_address : List ℕ → List ℕ
encode_address addr = replicate 12 0 ++ addr

unfoldable pub encode_u256 : ℕ → List ℕ
encode_u256 v = replicate 16 0 ++ to_be 16 v

unfoldable pub encode_arb_call : List ℕ → List ℕ → List ℕ → ℕ → List ℕ
encode_arb_call selector buy_pool sell_pool amount =
    selector ++ (encode_address buy_pool ++ (encode_address sell_pool ++ encode_u256 amount))

abbrev pub encode_no_arg_call : List ℕ → List ℕ
encode_no_arg_call selector = selector

-- `data.get(start..start + 32)?`, then the low 16 bytes of the word.
unfoldable pub decode_u256_word : List ℕ → ℕ → Option ℕ
decode_u256_word bytes word_index =
    let start = word_index * 32 in
    if leb (start + 32) (length bytes)
    then some (of_be (slice 16 32 (slice start (start + 32) bytes)))
    else none

pub record PoolReserves : Type 0 where
  pub reserve0 : ℕ
  pub reserve1 : ℕ

abbrev pub both : Option ℕ → Option ℕ → Option PoolReserves
both none reserve1 = none
both (some reserve0) none = none
both (some reserve0) (some reserve1) = some (record { reserve0 = reserve0; reserve1 = reserve1 })

unfoldable pub decode_reserves : RawSimOutput → Option PoolReserves
decode_reserves raw = both (decode_u256_word raw.return_data 0) (decode_u256_word raw.return_data 1)
