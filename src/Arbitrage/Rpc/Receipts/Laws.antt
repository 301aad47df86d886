-- ===== src/Arbitrage/Rpc/Receipts/Laws.antt =====
-- examples/toy-arbitrage/src/rpc.rs: what a caller can rely on in a receipt, and a receipt as a node
-- writes it.
use driftbrake.Base.{
  ℕ, ◌<◌, ◌^◌, ◌≡◌, refl, List, [], ◌∷◌, ◌++◌, map, some, inr, All, length, arith,
}
use driftbrake.Base.Text.{codes}
use driftbrake.Base.Bytes.{IsByte}
use driftbrake.Core.Types.{Log, TxStatus, confirmed, reverted, TxReceipt}
use driftbrake.Arbitrage.Hex.{RpcError, Fallible, ok, hex_encode, lower_hex}
use driftbrake.Arbitrage.Hex.RoundTrip.{hex_to_bytes-hex_encode}
use driftbrake.Arbitrage.Hex.Numbers.{hex_to_u64-lower_hex, hex_to_u128-lower_hex}
use driftbrake.Arbitrage.Json.{Json, JsonLaws}
use driftbrake.Arbitrage.Rpc.{JsonRpcClient, Network, json, request, call, array_32}
use driftbrake.Arbitrage.Rpc.Receipts.{
  status_of, collect, parse_topic, parse_log, parse_receipt, parse_receipt_response, get_receipt,
}

abbrev pub status_number : TxStatus → ℕ
status_number confirmed = 1
status_number reverted = 0

-- The ranges of the fields' types.
abbrev pub IsTopic : List ℕ → Type 0
IsTopic t = All IsByte t × (length t ≡ 32)

abbrev pub IsLog : Log → Type 0
IsLog log = All IsByte log.address × All IsTopic log.topics × All IsByte log.payload

abbrev pub IsReceipt : TxReceipt → Type 0
IsReceipt r = (r.block_number < 2 ^ 64) × (r.gas_used < 2 ^ 64) × (r.effective_gas_price < 2 ^ 128)

array_32-value : (bs : List ℕ) → length bs ≡ 32 → array_32 bs ≡ ok bs
unfolding array_32
array_32-value bs h = rw h refl

collect-map :
    {A B : Type 0} (f : B → Fallible RpcError A) (write : A → B) (P : A → Type 0)
    → ((a : A) → P a → f (write a) ≡ ok a)
    → (xs : List A) → All P xs
    → collect f (map write xs) ≡ ok xs
unfolding collect
collect-map f write P reads [] h = refl
collect-map f write P reads (x ∷ xs) h = rw (reads x h.0, collect-map f write P reads xs h.1) refl

status_number-lt : (s : TxStatus) → status_number s < 2 ^ 64
status_number-lt confirmed = omega arith
status_number-lt reverted = omega arith

status_of-status_number : (s : TxStatus) → status_of (status_number s) ≡ s
status_of-status_number confirmed = refl
status_of-status_number reverted = refl

module _ ⦃js : Json⦄ where
  open js use {Value, text, array, object}

  -- A quantity and a byte string of JSON-RPC.
  abbrev pub quantity : ℕ → Value
  quantity n = text (codes "0x" ++ lower_hex n)

  abbrev pub hex_text : List ℕ → Value
  hex_text bs = text (codes "0x" ++ hex_encode bs)

  abbrev pub log_json : Log → Value
  log_json log = object (
      (codes "address", hex_text log.address)
      ∷ (codes "topics", array (map hex_text log.topics))
      ∷ (codes "data", hex_text log.payload)
      ∷ [])

  abbrev pub receipt_json : TxReceipt → List Log → Value
  receipt_json r logs = object (
      (codes "status", quantity (status_number r.status))
      ∷ (codes "blockNumber", quantity r.block_number)
      ∷ (codes "gasUsed", quantity r.gas_used)
      ∷ (codes "effectiveGasPrice", quantity r.effective_gas_price)
      ∷ (codes "logs", array (map log_json logs))
      ∷ [])

  abbrev pub envelope : Value → List (List ℕ × Value)
  envelope result = (codes "jsonrpc", text (codes "2.0")) ∷ (codes "result", result) ∷ []

  abbrev pub response : Value → Value
  response result = object (envelope result)

module _ ⦃js : Json⦄ (laws : JsonLaws) where
  open js use {Value, text, array, object}

  parse_topic-hex_text : (t : List ℕ) → IsTopic t → parse_topic (hex_text t) ≡ ok t
  unfolding parse_topic
  parse_topic-hex_text t h =
      rw (laws.as_str-text, hex_to_bytes-hex_encode t h.0) (array_32-value t h.1)

  parse_log-log_json : (log : Log) → IsLog log → parse_log (log_json log) ≡ ok log
  unfolding parse_log
  parse_log-log_json log h = simp (
    laws.get-object,
    laws.as_str-text,
    laws.as_array-array,
    hex_to_bytes-hex_encode log.address h.0,
    collect-map parse_topic hex_text IsTopic parse_topic-hex_text log.topics h.1,
    hex_to_bytes-hex_encode log.payload h.2,
  )

  parse_receipt-receipt_json :
      (r : TxReceipt) (logs : List Log)
      → IsReceipt r
      → All IsLog logs
      → parse_receipt r.tx_hash (receipt_json r logs) ≡ ok (r, logs)
  unfolding parse_receipt
  parse_receipt-receipt_json r logs (number, gas, price) h = simp (
    laws.get-object,
    laws.as_str-text,
    laws.as_array-array,
    hex_to_u64-lower_hex (status_number r.status) (status_number-lt r.status),
    hex_to_u64-lower_hex r.block_number number,
    hex_to_u64-lower_hex r.gas_used gas,
    hex_to_u128-lower_hex r.effective_gas_price price,
    collect-map parse_log log_json IsLog parse_log-log_json logs h,
    status_of-status_number r.status,
  )

  -- A receipt and its logs, within the ranges of their types and written as a node writes them in the
  -- result of its reply, are what `get_receipt` returns for the receipt's hash. The laws of `serde_json`
  -- are taken as given.
  pub get_receipt-receipt_json :
      (join_error : List ℕ) (client : JsonRpcClient) (r : TxReceipt) (logs : List Log)
      → IsReceipt r
      → All IsLog logs
      → Network.post client.network client.url
          (request (codes "eth_getTransactionReceipt") (array (hex_text r.tx_hash ∷ [])))
        ≡ json (response (receipt_json r logs))
      → get_receipt join_error client r.tx_hash ≡ inr (some (r, logs))
  unfolding get_receipt parse_receipt_response call
  get_receipt-receipt_json join_error client r logs ranges h reply =
      simp (reply, laws.get-object, laws.is_null-object, parse_receipt-receipt_json r logs ranges h)
