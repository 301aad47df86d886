-- ===== src/Arbitrage/Startup.antt =====
-- examples/toy-arbitrage/src/main.rs: what `main` reads before the loop. A `Box<dyn Error>` is the text
-- that it prints.
pub mod Laws
pub mod Dotenv
pub mod Prepare
use driftbrake.Base.{
  ℕ, ◌+◌, ◌*◌, ◌^◌, Bool, true, false, ◌||◌, List, [], ◌∷◌, ◌++◌, Option, none, some, ◌⊎◌, inl, inr,
  value, panic, length, drop, replicate, ltb, leb, ◌==◌, if◌then◌else◌, ◌&&◌, ◌-◌,
}
use driftbrake.Base.Text.{codes, same_text}
use driftbrake.Backend.{BlockContext}
use driftbrake.Arbitrage.Hex.{
  RpcError, Fallible, ◌>>=◌, ok, err, map_err, strip_0x, parse_pairs, from_str_radix_16, hex_encode,
}
use driftbrake.Arbitrage.Json.{Json, get_str}
use driftbrake.Arbitrage.Rpc.{JsonRpcClient, call, unwrap_or}

pub record CliArgs : Type 0 where
  pub inject_drift : Bool
  pub drift_after : ℕ

-- `args.iter().any(|a| a == wanted)`
abbrev pub any_is : List ℕ → List (List ℕ) → Bool
any_is wanted [] = false
any_is wanted (arg ∷ args) = same_text arg wanted || any_is wanted args

abbrev pub head : List (List ℕ) → Option (List ℕ)
head [] = none
head (arg ∷ args) = some arg

-- `position(|a| a == wanted).and_then(|i| args.get(i + 1))`
abbrev pub argument_of : List ℕ → List (List ℕ) → Option (List ℕ)
argument_of wanted [] = none
argument_of wanted (arg ∷ args) =
    if same_text arg wanted then head args else argument_of wanted args

-- `str::parse::<u64>`: decimal digits, after one `+` at most.
unfoldable pub parse_decimal : ℕ → List ℕ → Option ℕ
parse_decimal acc [] = some acc
parse_decimal acc (c ∷ cs) =
    let n = acc * 10 + (c - 48) in
    let rest = parse_decimal n cs in if leb 48 c && ltb c 58 && ltb n (2 ^ 64) then rest else none

abbrev pub parse_unsigned : ℕ → List ℕ → Option ℕ
parse_unsigned c [] = parse_decimal 0 (c ∷ [])
parse_unsigned c (d ∷ cs) =
    if c == 43 then parse_decimal 0 (d ∷ cs) else parse_decimal 0 (c ∷ d ∷ cs)

unfoldable pub parse_u64 : List ℕ → Option ℕ
parse_u64 [] = none
parse_u64 (c ∷ cs) = parse_unsigned c cs

-- `and_then(|v| v.parse().ok()).unwrap_or(default)`
abbrev pub parse_or : ℕ → Option (List ℕ) → ℕ
parse_or default none = default
parse_or default (some v) = elim (parse_u64 v) [ none ↦ default | some n ↦ n ]

unfoldable pub parse_args : List (List ℕ) → CliArgs
parse_args args = record {
  inject_drift = any_is (codes "--inject-drift") args;
  drift_after = parse_or 5 (argument_of (codes "--drift-after") args);
}

-- The low 20 bytes of the hash of `encoded.as_bytes()[1..]`. The point's encoding is the `k256` crate's.
unfoldable pub address_from_point : (List ℕ → List ℕ) → List ℕ → List ℕ
address_from_point keccak256 encoded = drop 12 (keccak256 (drop 1 encoded))

abbrev pub key_length : List ℕ
key_length = codes "PRIVATE_KEY must be exactly 32 bytes of hex"

unfoldable pub hex_to_bytes32 : List ℕ → Fallible (List ℕ) (List ℕ)
hex_to_bytes32 s = do
  bytes ← parse_pairs (strip_0x s)
  if length bytes == 32 then ok bytes else err key_length

unfoldable pub format_hash : List ℕ → List ℕ
format_hash hash = codes "0x" ++ hex_encode hash

-- `trim_start_matches("0x")`: every leading one.
abbrev pub unless_0x : Bool → List ℕ → List ℕ → List ℕ
unless_0x true trimmed s = trimmed
unless_0x false trimmed s = s

unfoldable pub trim_0x : List ℕ → List ℕ
trim_0x [] = []
trim_0x (c ∷ []) = c ∷ []
trim_0x (c ∷ d ∷ cs) = unless_0x ((c == 48) && (d == 120)) (trim_0x cs) (c ∷ d ∷ cs)

abbrev pub or_text : List ℕ → Option (List ℕ) → List ℕ ⊎ List ℕ
or_text message none = inl message
or_text message (some s) = inr s

abbrev pub parse_quantity : ℕ → List ℕ ⊎ List ℕ → List ℕ ⊎ ℕ
parse_quantity limit (inl e) = inl e
parse_quantity limit (inr hex) = from_str_radix_16 limit (trim_0x hex)

abbrev pub or_zero : List ℕ ⊎ ℕ → ℕ
or_zero (inl e) = 0
or_zero (inr n) = n

module _ ⦃js : Json⦄ where
  open js use {Value, as_str}

  unfoldable pub get_u64 : Value → List ℕ → List ℕ ⊎ ℕ
  get_u64 block key =
      parse_quantity (2 ^ 64) (or_text (codes "block response missing " ++ key) (get_str block key))

  unfoldable pub get_u128 : Value → List ℕ → List ℕ ⊎ ℕ
  get_u128 block key = parse_quantity (2 ^ 128) (inr (unwrap_or (get_str block key) (codes "0x0")))

  -- The three fields that have to be there, in order.
  abbrev pub build_block : Value → List ℕ ⊎ ℕ → List ℕ ⊎ ℕ → List ℕ ⊎ ℕ → List ℕ ⊎ BlockContext
  build_block block (inl e) timestamp gas_limit = inl e
  build_block block (inr n) (inl e) gas_limit = inl e
  build_block block (inr n) (inr t) (inl e) = inl e
  build_block block (inr n) (inr t) (inr g) = inr (record {
    number = n;
    timestamp = t;
    gas_limit = g;
    basefee = or_zero (get_u128 block (codes "baseFeePerGas"));
    coinbase = replicate 20 0;
  })

  abbrev pub read_block : List ℕ ⊎ Value → List ℕ ⊎ BlockContext
  read_block (inl e) = inl e
  read_block (inr block) =
      build_block block (get_u64 block (codes "number")) (get_u64 block (codes "timestamp"))
        (get_u64 block (codes "gasLimit"))

  abbrev pub quantity_reply : ℕ → List ℕ → List ℕ ⊎ Value → List ℕ ⊎ ℕ
  quantity_reply limit message (inl e) = inl e
  quantity_reply limit message (inr v) = parse_quantity limit (or_text message (as_str v))

-- `{0}` of an `RpcError`.
module _ ⦃js : Json⦄ (show_error : RpcError → List ℕ) where
  open js use {Value, bool, text, array}

  abbrev pub called : RpcError ⊎ Value → List ℕ ⊎ Value
  called answer = map_err show_error answer

  unfoldable pub fetch_block_context : JsonRpcClient → List ℕ ⊎ BlockContext
  fetch_block_context client = read_block (
      called (
        call client (codes "eth_getBlockByNumber")
          (array (text (codes "latest") ∷ bool false ∷ []))))

  unfoldable pub fetch_nonce : JsonRpcClient → List ℕ → List ℕ ⊎ ℕ
  fetch_nonce client address =
      quantity_reply (2 ^ 64) (codes "eth_getTransactionCount did not return a string") (
        called (
          call client (codes "eth_getTransactionCount")
            (array (text (codes "0x" ++ hex_encode address) ∷ text (codes "pending") ∷ []))))

  unfoldable pub fetch_gas_price : JsonRpcClient → List ℕ ⊎ ℕ
  fetch_gas_price client =
      quantity_reply (2 ^ 128) (codes "eth_gasPrice did not return a string")
        (called (call client (codes "eth_gasPrice") (array [])))
