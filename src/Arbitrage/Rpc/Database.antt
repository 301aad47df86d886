-- ===== src/Arbitrage/Rpc/Database.antt =====
-- examples/toy-arbitrage/src/rpc.rs: `RpcDbFactory` and `RpcDb`, the state of the chain at one block,
-- read as it is asked for, with the cache of the codes that were seen.
pub mod Codes
use driftbrake.Base.{
  ℕ, true, false, List, [], ◌∷◌, ◌++◌, Option, none, some, ◌⊎◌, inl, inr, value, panic,
  if◌then◌else◌,
}
use driftbrake.Base.Text.{codes, same_text}
use driftbrake.Arbitrage.Hex.{
  RpcError, Fallible, ◌>>=◌, ok, hex_to_bytes, hex_to_u64, hex_to_u256, address_hex,
}
use driftbrake.Arbitrage.Json.{Json, get_str}
use driftbrake.Arbitrage.Rpc.{JsonRpcClient, call, array_32, or_missing, unwrap_or}

-- What the `revm` and `ruint` crates provide: the code of an account with its hash, keccak256, and
-- 256-bit numbers from and to hexadecimal text; and how a hash is printed.
pub record Revm : Type 1 where
  pub Bytecode : Type 0
  pub new_raw : List ℕ → Bytecode
  pub hash_slow : Bytecode → List ℕ
  pub keccak256 : List ℕ → List ℕ
  pub parse_u256 : List ℕ → List ℕ ⊎ ℕ
  pub show_u256 : ℕ → List ℕ
  pub show_b256 : List ℕ → List ℕ

module _ ⦃js : Json⦄ where
  pub record RpcDbFactory : Type 0 where
    pub client : JsonRpcClient
    pub block_tag : List ℕ

module _ ⦃js : Json⦄ (rv : Revm) where
  open js use {Value, bool, text, array, as_str}
  open rv use {Bytecode, new_raw, hash_slow, keccak256, parse_u256, show_u256, show_b256}

  pub record RpcDb : Type 0 where
    pub client : JsonRpcClient
    pub block_tag : List ℕ
    pub code_cache : List (List ℕ × Bytecode)

  pub record AccountInfo : Type 0 where
    pub balance : ℕ
    pub nonce : ℕ
    pub code_hash : List ℕ
    pub code : Option Bytecode

  unfoldable pub fresh_db : RpcDbFactory → RpcDb
  fresh_db factory = record {
    client = factory.client;
    block_tag = factory.block_tag;
    code_cache = [];
  }

  -- `HashMap::insert` and `HashMap::get`.
  abbrev pub insert : List ℕ → Bytecode → List (List ℕ × Bytecode) → List (List ℕ × Bytecode)
  insert key code [] = (key, code) ∷ []
  insert key code ((k, c) ∷ cache) =
      if same_text k key then (k, code) ∷ cache else (k, c) ∷ insert key code cache

  abbrev pub find : List ℕ → List (List ℕ × Bytecode) → Option Bytecode
  find key [] = none
  find key ((k, c) ∷ cache) = if same_text k key then some c else find key cache

  -- `json!([addr_hex, &*self.block_tag])`
  abbrev pub at_block : RpcDb → List ℕ → Value
  at_block db address = array (text (address_hex address) ∷ text db.block_tag ∷ [])

  -- The three requests, and then the three answers.
  unfoldable pub fetch_account : RpcDb → List ℕ → Fallible RpcError (ℕ × ℕ × List ℕ)
  fetch_account db address = do
    balance_hex ← value (call db.client (codes "eth_getBalance") (at_block db address))
    nonce_hex ← value (call db.client (codes "eth_getTransactionCount") (at_block db address))
    code_hex ← value (call db.client (codes "eth_getCode") (at_block db address))
    balance ← value (hex_to_u256 parse_u256 (unwrap_or (as_str balance_hex) (codes "0x0")))
    nonce ← value (hex_to_u64 (unwrap_or (as_str nonce_hex) (codes "0x0")))
    code_bytes ← hex_to_bytes (unwrap_or (as_str code_hex) (codes "0x"))
    ok (balance, nonce, code_bytes)

  abbrev pub without_code : ℕ → ℕ → AccountInfo
  without_code balance nonce = record {
    balance = balance;
    nonce = nonce;
    code_hash = keccak256 [];
    code = none;
  }

  abbrev pub with_code : ℕ → ℕ → Bytecode → AccountInfo
  with_code balance nonce code = record {
    balance = balance;
    nonce = nonce;
    code_hash = hash_slow code;
    code = some code;
  }

  -- The rest of `basic`: a code goes into the cache under its hash.
  abbrev pub build_account :
      RpcDb → Fallible RpcError (ℕ × ℕ × List ℕ) → Fallible RpcError (Option AccountInfo) × RpcDb
  build_account db panic = (panic, db)
  build_account db (value (inl e)) = (value (inl e), db)
  build_account db (value (inr (balance, nonce, []))) = (ok (some (without_code balance nonce)), db)
  build_account db (value (inr (balance, nonce, b ∷ bs))) =
      let code = new_raw (b ∷ bs) in
      (
        ok (some (with_code balance nonce code)),
        record db { code_cache = insert (hash_slow code) code db.code_cache },
      )

  unfoldable pub basic : RpcDb → List ℕ → Fallible RpcError (Option AccountInfo) × RpcDb
  basic db address = build_account db (fetch_account db address)

  abbrev pub unseen : List ℕ → List ℕ
  unseen code_hash =
      codes "code for hash " ++ show_b256 code_hash ++ codes " was not seen via basic()"

  unfoldable pub code_by_hash : RpcDb → List ℕ → Fallible RpcError Bytecode
  code_by_hash db code_hash = or_missing (unseen code_hash) (find code_hash db.code_cache)

  unfoldable pub storage : RpcDb → List ℕ → ℕ → RpcError ⊎ ℕ
  storage db address index = word (call db.client (codes "eth_getStorageAt") params)
    where
      params : Value
      params = array (
          text (address_hex address)
          ∷ text (codes "0x" ++ show_u256 index)
          ∷ text db.block_tag
          ∷ [])

      word : RpcError ⊎ Value → RpcError ⊎ ℕ
      word (inl e) = inl e
      word (inr v) = hex_to_u256 parse_u256 (unwrap_or (as_str v) (codes "0x0"))

  unfoldable pub block_hash : RpcDb → ℕ → Fallible RpcError (List ℕ)
  block_hash db number = do
    block ← value (
        call db.client (codes "eth_getBlockByNumber")
          (array (text (codes "0x" ++ show_u256 number) ∷ bool false ∷ [])))
    hash_hex ← or_missing (codes "block response missing hash") (get_str block (codes "hash"))
    bytes ← hex_to_bytes hash_hex
    array_32 bytes
