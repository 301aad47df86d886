-- ===== src/Tests/Network.antt =====
-- A node whose replies are fixed.
use driftbrake.Base.{
  ℕ, zero, suc, ◌≡◌, refl, ◌<◌, ◌+◌, ◌*◌, List, [], ◌∷◌, ◌++◌, inr, none, some, if◌then◌else◌, All,
  length, false, value, panic, arith, replicate, debug,
}
use driftbrake.Base.Text.{codes, same_text}
use driftbrake.Base.Bytes.{IsByte, of_be}
use driftbrake.Core.Types.{Log, confirmed, TxReceipt}
use driftbrake.Arbitrage.Hex.{
  ok, hex_encode, hex_to_u256, hex_to_u64, parse_digits, to_digit, hex_to_bytes,
}
use driftbrake.Arbitrage.Json.{Json}
use driftbrake.Arbitrage.Rpc.{JsonRpcClient, json, call}
use driftbrake.Arbitrage.Rpc.Receipts.{get_receipt}
use driftbrake.Arbitrage.Rpc.Receipts.Laws.{
  receipt_json, response, IsReceipt, IsLog, get_receipt-receipt_json,
}
use driftbrake.Arbitrage.Rpc.Receipts.Shape.{IsReadFrom, get_receipt-IsShaped}
use driftbrake.Arbitrage.Rpc.Database.{
  Revm, RpcDb, RpcDbFactory, fresh_db, fetch_account, basic, code_by_hash,
}
use driftbrake.Arbitrage.Rpc.Database.Codes.{fresh, after_basic, code_by_hash-Reachable}
use driftbrake.Arbitrage.Rpc.Signing.{UnsignedTx, signed_tx_rlp}
use driftbrake.Arbitrage.Rpc.Signing.Laws.{
  IsUnsignedTx, legacy, read_transaction, signing_items-injective, read_transaction-signed_tx_rlp,
}
use driftbrake.Arbitrage.Startup.{hex_to_bytes32}
use driftbrake.Arbitrage.Startup.Dotenv.{
  Env, load_dotenv, load_lines, lines, trim_start, split_once,
}
use driftbrake.Arbitrage.Startup.Dotenv.Laws.{load_dotenv_lem}
use driftbrake.Arbitrage.Startup.Laws.{hex_to_bytes32_lem}
use driftbrake.Tests.Documents.{Document, string, document, document_laws}
use driftbrake.Tests.Sample.{zeros_32}

abbrev receipt : TxReceipt
receipt = record {
  tx_hash = zeros_32;
  block_number = 5000;
  status = confirmed;
  gas_used = 21000;
  effective_gas_price = 30;
}

abbrev log : Log
log = record { address = replicate 20 0x99; topics = replicate 32 7 ∷ []; payload = 1 ∷ 255 ∷ [] }

abbrev node : JsonRpcClient
node = record {
  url = codes "http://localhost:8545";
  network = record { post = λ url body. json (response (receipt_json receipt (log ∷ []))) };
}

replicate-IsByte : (n b : ℕ) → b < 256 → All IsByte (replicate n b)
replicate-IsByte zero b h = tt
replicate-IsByte (suc n) b h = (h, replicate-IsByte n b h)

receipt_ranges : IsReceipt receipt
receipt_ranges = (omega arith, omega arith, omega arith)

log_ranges : All IsLog (log ∷ [])
log_ranges = (
  (
    replicate-IsByte 20 0x99 (omega arith),
    ((replicate-IsByte 32 7 (omega arith), refl), tt),
    (omega arith, (omega arith, tt)),
  ),
  tt,
)

get_receipt-receipt_json_example : get_receipt [] node zeros_32 ≡ inr (some (receipt, log ∷ []))
get_receipt-receipt_json_example =
    get_receipt-receipt_json document_laws [] node receipt (log ∷ []) receipt_ranges log_ranges refl

found : get_receipt [] node zeros_32 ≡ inr (some (receipt, log ∷ []))
found =
    get_receipt-receipt_json document_laws [] node receipt (log ∷ []) receipt_ranges log_ranges refl

get_receipt-IsShaped_example :
    (v : Document) × (call node
        (codes "eth_getTransactionReceipt")
        (Json.array document (string (codes "0x" ++ hex_encode zeros_32) ∷ []))
      ≡ inr v)
    × (Json.is_null document v ≡ false)
    × IsReadFrom v receipt (log ∷ [])
    × (receipt.tx_hash ≡ zeros_32)
    × IsReceipt receipt
    × All IsLog (log ∷ [])
get_receipt-IsShaped_example = get_receipt-IsShaped [] node zeros_32 receipt (log ∷ []) found

-- A code is its bytes, and its hash is the code of its length.
abbrev machine : Revm
machine = record {
  Bytecode = List ℕ;
  new_raw = λ code. code;
  hash_slow = λ code. length code ∷ [];
  keccak256 = λ bytes. length bytes ∷ [];
  parse_u256 = λ s. inr 0;
  show_u256 = λ n. [];
  show_b256 = λ h. h;
}

abbrev code_node : JsonRpcClient
code_node = record {
  url = codes "http://localhost:8545";
  network = record { post = λ url body. json (response (string (codes "0x6000f3"))) };
}

abbrev factory : RpcDbFactory
factory = record { client = code_node; block_tag = codes "latest" }

abbrev loaded : RpcDb machine
loaded = (basic machine (fresh_db machine factory) zeros_32).1

loaded_code : code_by_hash machine loaded (3 ∷ []) ≡ ok (0x60 ∷ 0 ∷ 0xf3 ∷ [])
unfolding code_by_hash basic fresh_db fetch_account call hex_to_u256 hex_to_u64 parse_digits
    to_digit hex_to_bytes
loaded_code = refl

code_by_hash-Reachable_example : ◌≡◌ {A = List ℕ} (3 ∷ []) (3 ∷ [])
code_by_hash-Reachable_example =
    code_by_hash-Reachable machine factory loaded (3 ∷ []) (0x60 ∷ 0 ∷ 0xf3 ∷ [])
      (after_basic (fresh_db machine factory) zeros_32 fresh) loaded_code

abbrev transfer : UnsignedTx
transfer = record {
  nonce = 5;
  gas_price = 1000;
  gas_limit = 500000;
  to = replicate 20 0x99;
  tx_value = 0;
  payload = 1 ∷ 2 ∷ [];
  chain_id = 11155111;
}

transfer_ranges : IsUnsignedTx transfer
transfer_ranges =
    (omega arith, omega arith, omega arith, refl, omega arith, omega arith, omega arith)

signing_items-injective_example : transfer ≡ transfer
signing_items-injective_example =
    signing_items-injective transfer transfer transfer_ranges transfer_ranges refl

read_transaction-signed_tx_rlp_example :
    (raw : List ℕ) × (signed_tx_rlp debug transfer (replicate 32 9) (replicate 32 8) 1 ≡ value raw)
    × (read_transaction raw
        ≡ some (
            legacy transfer
              (11155111 * 2 + 35 + 1)
              (of_be (replicate 32 9))
              (of_be (replicate 32 8))))
read_transaction-signed_tx_rlp_example =
    read_transaction-signed_tx_rlp debug transfer (replicate 32 9) (replicate 32 8) 1
      transfer_ranges refl refl (omega arith)

hex_to_bytes32_lem_example :
    (hex_to_bytes32 (codes "0x" ++ hex_encode (replicate 32 171)) ≡ ok (replicate 32 171))
    × (hex_to_bytes32 (codes "0x" ++ (hex_encode (replicate 32 171) ++ (97 ∷ []))) ≡ panic)
hex_to_bytes32_lem_example =
    hex_to_bytes32_lem (replicate 32 171) 97 (replicate-IsByte 32 171 (omega arith)) (omega arith)

abbrev no_variables : Env
no_variables name = none

-- A comment, a variable, and a second value for it.
abbrev dotenv : List ℕ
dotenv = codes "# key" ++ (10 ∷ codes " A = 1 ") ++ (10 ∷ codes "A=2") ++ (10 ∷ [])

abbrev assigned : Env
assigned name = if same_text name (codes "A") then some (codes "1") else none

read_dotenv : load_dotenv no_variables (some dotenv) ≡ value assigned
unfolding load_dotenv load_lines lines trim_start split_once
read_dotenv = refl

load_dotenv_lem_example : assigned (codes "A") ≡ some (codes "1")
unfolding lines trim_start split_once
load_dotenv_lem_example = load_dotenv_lem no_variables assigned dotenv (codes "A") read_dotenv
