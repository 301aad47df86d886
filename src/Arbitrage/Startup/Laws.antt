-- ===== src/Arbitrage/Startup/Laws.antt =====
-- examples/toy-arbitrage/src/main.rs: the private key's text, and the quantities that a node writes.
use driftbrake.Base.{
  ℕ, zero, suc, ◌/◌, ◌%◌, ◌^◌, ◌<◌, ◌≡◌, refl, sym, ap, ◌∙◌, true, false, List, [], ◌∷◌, ◌++◌, inl,
  inr, some, All, length, ltb, ◌==◌, if◌then◌else◌, arith, panic, replicate, Bool-cases, All-append,
}
use driftbrake.Base.Text.{codes}
use driftbrake.Base.Bytes.{IsByte}
use driftbrake.Backend.{BlockContext}
use driftbrake.Arbitrage.Hex.{
  RpcError, ok, err, hex_char, hex_encode, lower_hex_from, lower_hex, parse_pairs, is_boundary,
  from_str_radix_16,
}
use driftbrake.Arbitrage.Hex.RoundTrip.{parse_pairs-hex_encode, pair_lem, hex_char-boundary}
use driftbrake.Arbitrage.Hex.Numbers.{from_str_radix_16-lower_hex}
use driftbrake.Arbitrage.Json.{Json, JsonLaws, field_of, get_str, get_str-object}
use driftbrake.Arbitrage.Rpc.{JsonRpcClient, Network, json, request, call}
use driftbrake.Arbitrage.Rpc.Receipts.Laws.{quantity, envelope, response}
use driftbrake.Arbitrage.Startup.{
  hex_to_bytes32, key_length, trim_0x, parse_quantity, get_u64, get_u128, fetch_block_context,
}

boundary_after :
    (bs : List ℕ) (c : ℕ) → All IsByte bs → c < 128 → is_boundary (hex_encode bs ++ (c ∷ [])) ≡ true
unfolding hex_encode
boundary_after [] c h ascii = ground arith
boundary_after (b ∷ bs) c h ascii = hex_char-boundary (b / 16) [] (omega (arith, h.0))

-- A last digit without a partner.
parse_pairs_odd :
    (bs : List ℕ) (c : ℕ)
    → All IsByte bs
    → c < 128
    → parse_pairs (hex_encode bs ++ (c ∷ [])) ≡ panic
unfolding parse_pairs hex_encode
parse_pairs_odd [] c h ascii = refl
parse_pairs_odd (b ∷ bs) c h ascii =
    rw
      (
        hex_char-boundary (b / 16) [] (omega (arith, h.0)),
        boundary_after bs c h.1 ascii,
        pair_lem b h.0,
        parse_pairs_odd bs c h.1 ascii,
      )
      refl

-- 32 bytes in hexadecimal, after `0x`, are read as the key, and any other number of bytes is an error; but
-- an odd number of digits is a panic, not an error.
pub hex_to_bytes32_lem :
    (bs : List ℕ) (c : ℕ)
    → All IsByte bs
    → c < 128
    → (hex_to_bytes32 (codes "0x" ++ hex_encode bs)
        ≡ (if length bs == 32 then ok bs else err key_length))
      × (hex_to_bytes32 (codes "0x" ++ (hex_encode bs ++ (c ∷ []))) ≡ panic)
unfolding hex_to_bytes32
hex_to_bytes32_lem bs c h ascii =
    (rw (parse_pairs-hex_encode bs h) refl, rw (parse_pairs_odd bs c h ascii) refl)

-- No digit is an `x`, so only the prefix is trimmed.
abbrev IsNotX : ℕ → Type 0
IsNotX c = (c == 120) ≡ false

lower_hex_from-IsNotX : (fuel n : ℕ) → All IsNotX (lower_hex_from fuel n)
unfolding lower_hex_from
lower_hex_from-IsNotX zero n = (ground arith, tt)
lower_hex_from-IsNotX (suc fuel) n = elim (Bool-cases (ltb n 16)) [
  | inl small ↦ rw small (ground arith, tt)
  | inr large ↦ rw large (
      All-append IsNotX (lower_hex_from fuel (n / 16)) (hex_char (n % 16) ∷ [])
        (lower_hex_from-IsNotX fuel (n / 16)) (ground arith, tt))
]

trim_0x_kept : (cs : List ℕ) → All IsNotX cs → trim_0x cs ≡ cs
unfolding trim_0x
trim_0x_kept [] h = refl
trim_0x_kept (c ∷ []) h = refl
trim_0x_kept (c ∷ d ∷ cs) h = elim (Bool-cases (c == 48)) [
  | inl z ↦ rw (z, h.1.0) refl
  | inr nz ↦ rw nz refl
]

parse_quantity-lower_hex :
    (limit n : ℕ)
    → n < limit
    → n < 2 ^ 128
    → parse_quantity limit (inr (codes "0x" ++ lower_hex n)) ≡ inr n
unfolding trim_0x
parse_quantity-lower_hex limit n fits h =
    ap (from_str_radix_16 limit) (trim_0x_kept (lower_hex n) (kept n))
    ∙ from_str_radix_16-lower_hex limit n fits h
  where
    kept : (n : ℕ) → All IsNotX (lower_hex n)
    kept n = unfold lower_hex in lower_hex_from-IsNotX 31 n

module _ ⦃js : Json⦄ where
  open js use {Value, object}

  get_u64-quantity :
      (block : Value) (key : List ℕ) (n : ℕ)
      → get_str block key ≡ some (codes "0x" ++ lower_hex n)
      → n < 2 ^ 64
      → get_u64 block key ≡ inr n
  unfolding get_u64
  get_u64-quantity block key n e fits =
      rw e (parse_quantity-lower_hex (2 ^ 64) n fits (omega arith))

  get_u128-quantity :
      (block : Value) (key : List ℕ) (n : ℕ)
      → get_str block key ≡ some (codes "0x" ++ lower_hex n)
      → n < 2 ^ 128
      → get_u128 block key ≡ inr n
  unfolding get_u128
  get_u128-quantity block key n e fits = rw e (parse_quantity-lower_hex (2 ^ 128) n fits fits)

  abbrev block_fields : BlockContext → List (List ℕ × Value)
  block_fields block =
      (codes "number", quantity block.number)
      ∷ (codes "timestamp", quantity block.timestamp)
      ∷ (codes "gasLimit", quantity block.gas_limit)
      ∷ (codes "baseFeePerGas", quantity block.basefee)
      ∷ []

  abbrev pub block_json : BlockContext → Value
  block_json block = object (block_fields block)

module _ ⦃js : Json⦄ (laws : JsonLaws) (show_error : RpcError → List ℕ) where
  open js use {bool, text, array}

  -- A block's number, timestamp, gas limit and base fee, within the ranges of their types and written as a
  -- node writes them in its reply, are what `fetch_block_context` reads, with a coinbase of zeros. The laws
  -- of `serde_json` are taken as given.
  pub fetch_block_context-block_json :
      (client : JsonRpcClient) (block : BlockContext)
      → block.number < 2 ^ 64
      → block.timestamp < 2 ^ 64
      → block.gas_limit < 2 ^ 64
      → block.basefee < 2 ^ 128
      → block.coinbase ≡ replicate 20 0
      → Network.post client.network client.url
          (request (codes "eth_getBlockByNumber") (array (text (codes "latest") ∷ bool false ∷ [])))
        ≡ json (response (block_json block))
      → fetch_block_context show_error client ≡ inr block
  unfolding fetch_block_context call
  fetch_block_context-block_json client block number timestamp gas fee coinbase reply =
      let v = block_json block in
      let read : (key s : List ℕ)
          → field_of (block_fields block) key ≡ some (js.text s)
          → get_str v key ≡ some s =
        get_str-object laws (block_fields block) in
      simp
        (
          reply,
          laws.get-object (envelope v),
          get_u64-quantity v (codes "number") block.number (read _ _ refl) number,
          get_u64-quantity v (codes "timestamp") block.timestamp (read _ _ refl) timestamp,
          get_u64-quantity v (codes "gasLimit") block.gas_limit (read _ _ refl) gas,
          get_u128-quantity v (codes "baseFeePerGas") block.basefee (read _ _ refl) fee,
        )
        (ap (λ (c : List ℕ). inr (record block { coinbase = c })) (sym coinbase))
