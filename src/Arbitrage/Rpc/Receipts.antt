-- ===== src/Arbitrage/Rpc/Receipts.antt =====
-- examples/toy-arbitrage/src/rpc.rs: the receipts of `eth_getTransactionReceipt`.
pub mod Laws
pub mod Shape
use driftbrake.Base.{
  ℕ, ◌≡◌, Bool, true, false, List, [], ◌∷◌, ◌++◌, Option, none, some, ◌⊎◌, inl, inr, value, panic,
  ◌==◌, if◌then◌else◌,
}
use driftbrake.Base.Text.{codes}
use driftbrake.Core.Types.{Log, TxStatus, confirmed, reverted, TxReceipt}
use driftbrake.Arbitrage.Hex.{
  RpcError, transport, Fallible, ◌>>=◌, ok, hex_to_bytes, hex_to_u64, hex_to_u128, hex_encode,
}
use driftbrake.Arbitrage.Json.{Json, get_str, get_array}
use driftbrake.Arbitrage.Rpc.{JsonRpcClient, call, array_32, or_missing, unwrap_or}

-- `map(..).collect::<Result<Vec<_>, _>>()`: in order, until the first error.
unfoldable pub collect :
    {A B : Type 0} → (A → Fallible RpcError B) → List A → Fallible RpcError (List B)
collect f [] = ok []
collect f (x ∷ xs) = f x >>= λ y. collect f xs >>= λ ys. ok (y ∷ ys)

abbrev pub status_of : ℕ → TxStatus
status_of n = if n == 1 then confirmed else reverted

abbrev pub unless_null :
    Bool
    → Fallible RpcError (TxReceipt × List Log)
    → Fallible RpcError (Option (TxReceipt × List Log))
unless_null true receipt = ok none
unless_null false receipt = receipt >>= λ r. ok (some r)

-- `spawn_blocking(..).await.map_err(..)?`: a task that panics is an error of the transport, with the
-- text of the runtime's `JoinError`.
abbrev pub join : {A : Type 0} → List ℕ → Fallible RpcError A → RpcError ⊎ A
join join_error (value r) = r
join join_error panic = inl (transport join_error)

module _ ⦃js : Json⦄ where
  open js use {Value, text, array, is_null, as_str}

  unfoldable pub parse_topic : Value → Fallible RpcError (List ℕ)
  parse_topic t = hex_to_bytes (unwrap_or (as_str t) (codes "0x")) >>= array_32

  unfoldable pub parse_log : Value → Fallible RpcError Log
  parse_log log_json = do
    address ← hex_to_bytes (unwrap_or (get_str log_json (codes "address")) (codes "0x"))
    topics ← collect parse_topic (get_array log_json (codes "topics"))
    payload ← hex_to_bytes (unwrap_or (get_str log_json (codes "data")) (codes "0x"))
    ok (record { address = address; topics = topics; payload = payload })

  unfoldable pub parse_receipt : List ℕ → Value → Fallible RpcError (TxReceipt × List Log)
  parse_receipt tx_hash result = do
    status_hex ← or_missing (codes "receipt missing status") (get_str result (codes "status"))
    status ← value (hex_to_u64 status_hex)
    number_hex ←
        or_missing (codes "receipt missing blockNumber") (get_str result (codes "blockNumber"))
    block_number ← value (hex_to_u64 number_hex)
    gas_hex ← or_missing (codes "receipt missing gasUsed") (get_str result (codes "gasUsed"))
    gas_used ← value (hex_to_u64 gas_hex)
    effective_gas_price ←
        value (hex_to_u128 (unwrap_or (get_str result (codes "effectiveGasPrice")) (codes "0x0")))
    logs ← collect parse_log (get_array result (codes "logs"))
    ok (
      record {
        tx_hash = tx_hash;
        block_number = block_number;
        status = status_of status;
        gas_used = gas_used;
        effective_gas_price = effective_gas_price;
      },
      logs,
    )

  unfoldable pub parse_receipt_response :
      JsonRpcClient → List ℕ → List ℕ → Fallible RpcError (Option (TxReceipt × List Log))
  parse_receipt_response client hash_hex tx_hash = do
    result ← value (call client (codes "eth_getTransactionReceipt") (array (text hash_hex ∷ [])))
    unless_null (is_null result) (parse_receipt tx_hash result)

  -- `RpcReceiptSource::get_receipt`
  unfoldable pub get_receipt :
      (join_error : List ℕ) → JsonRpcClient → List ℕ → RpcError ⊎ Option (TxReceipt × List Log)
  get_receipt join_error client tx_hash =
      join join_error (parse_receipt_response client (codes "0x" ++ hex_encode tx_hash) tx_hash)
