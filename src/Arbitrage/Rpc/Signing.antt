-- ===== src/Arbitrage/Rpc/Signing.antt =====
-- examples/toy-arbitrage/src/rpc.rs: the signing and the broadcast of a legacy transaction.
pub mod Laws
pub mod Submit
use driftbrake.Base.{
  ℕ, ◌+◌, ◌*◌, Bool, true, false, not, List, [], ◌∷◌, ◌++◌, Option, none, some, ◌⊎◌, inl, inr,
  Outcome, value, panic, Profile, length, ◌==◌, if◌then◌else◌,
}
use driftbrake.Base.Int.{arith_u64}
use driftbrake.Base.Text.{codes}
use driftbrake.Arbitrage.Hex.{
  RpcError, transport, malformed, Fallible, ◌>>=◌, ok, hex_to_bytes, hex_encode,
}
use driftbrake.Arbitrage.Json.{Json}
use driftbrake.Arbitrage.Rlp.{Item, bytes, list, uint, big_uint_bytes, address, items_of, encode}
use driftbrake.Arbitrage.Rpc.{JsonRpcClient, call, array_32, or_missing}
use driftbrake.Arbitrage.Rpc.Receipts.{join}

pub record UnsignedTx : Type 0 where
  pub nonce : ℕ
  pub gas_price : ℕ
  pub gas_limit : ℕ
  pub to : List ℕ
  pub tx_value : ℕ
  pub payload : List ℕ
  pub chain_id : ℕ

-- What the `k256` crate provides, and keccak256.
pub record Signer : Type 1 where
  pub SigningKey : Type 0
  pub Signature : Type 0
  pub RecoveryId : Type 0
  pub sign_prehash_recoverable : SigningKey → List ℕ → List ℕ ⊎ (Signature × RecoveryId)
  pub normalize_s : Signature → Option Signature
  pub is_y_odd : RecoveryId → Bool
  pub is_x_reduced : RecoveryId → Bool
  pub recovery_id : Bool → Bool → RecoveryId
  pub to_byte : RecoveryId → ℕ
  pub r_bytes : Signature → List ℕ
  pub s_bytes : Signature → List ℕ
  pub keccak256 : List ℕ → List ℕ

-- The items of both lists that a transaction is encoded as, before the last three.
abbrev pub tx_items : UnsignedTx → List Item → Item
tx_items tx last = list (
    items_of (
      uint tx.nonce
      ∷ uint tx.gas_price
      ∷ uint tx.gas_limit
      ∷ address tx.to
      ∷ uint tx.tx_value
      ∷ bytes tx.payload
      ∷ last))

abbrev pub signing_items : UnsignedTx → Item
signing_items tx = tx_items tx (uint tx.chain_id ∷ uint 0 ∷ uint 0 ∷ [])

unfoldable pub signing_hash : (List ℕ → List ℕ) → UnsignedTx → List ℕ
unfolding encode
signing_hash keccak256 tx = keccak256 (encode (signing_items tx))

-- `tx.chain_id * 2 + 35 + recovery_id as u64`
unfoldable pub signature_v : Profile → ℕ → ℕ → Outcome ℕ
signature_v profile chain_id recovery_id = both (arith_u64 profile (chain_id * 2))
  where
    add_id : Outcome ℕ → Outcome ℕ
    add_id panic = panic
    add_id (value base) = arith_u64 profile (base + recovery_id)

    both : Outcome ℕ → Outcome ℕ
    both panic = panic
    both (value doubled) = add_id (arith_u64 profile (doubled + 35))

abbrev pub signed_items : UnsignedTx → ℕ → List ℕ → List ℕ → Item
signed_items tx v r s = tx_items tx (uint v ∷ big_uint_bytes r ∷ big_uint_bytes s ∷ [])

abbrev pub encode_signed : UnsignedTx → List ℕ → List ℕ → Outcome ℕ → Outcome (List ℕ)
encode_signed tx r s panic = panic
encode_signed tx r s (value v) = value (encode (signed_items tx v r s))

unfoldable pub signed_tx_rlp : Profile → UnsignedTx → List ℕ → List ℕ → ℕ → Outcome (List ℕ)
signed_tx_rlp profile tx r s recovery_id =
    encode_signed tx r s (signature_v profile tx.chain_id recovery_id)

module _ (sg : Signer) where
  open sg use {
    SigningKey, Signature, RecoveryId, sign_prehash_recoverable, normalize_s, is_y_odd,
    is_x_reduced, recovery_id, to_byte, r_bytes, s_bytes, keccak256,
  }

  abbrev pub normalized : Option Signature → Signature → RecoveryId → Signature × RecoveryId
  normalized none signature id = (signature, id)
  normalized (some low) signature id = (low, recovery_id (not (is_y_odd id)) (is_x_reduced id))

  abbrev pub or_failed : List ℕ ⊎ (Signature × RecoveryId) → RpcError ⊎ (Signature × RecoveryId)
  or_failed (inl e) = inl (malformed (codes "signing failed: " ++ e))
  or_failed (inr (signature, id)) = inr (normalized (normalize_s signature) signature id)

  unfoldable pub sign_normalized : SigningKey → List ℕ → RpcError ⊎ (Signature × RecoveryId)
  sign_normalized key hash = or_failed (sign_prehash_recoverable key hash)

  abbrev pub raw_of : Profile → UnsignedTx → Signature × RecoveryId → Outcome (List ℕ)
  raw_of profile tx (signature, id) =
      signed_tx_rlp profile tx (r_bytes signature) (s_bytes signature) (to_byte id)

abbrev pub no_hash : List ℕ
no_hash = codes "eth_sendRawTransaction did not return a tx hash"

module _ ⦃js : Json⦄ where
  open js use {text, array, as_str}

  -- The closure that runs on the blocking thread.
  unfoldable pub broadcast : JsonRpcClient → List ℕ → Fallible RpcError (List ℕ)
  broadcast client raw = do
    result ← value (
        call client (codes "eth_sendRawTransaction")
          (array (text (codes "0x" ++ hex_encode raw) ∷ [])))
    hash_hex ← or_missing no_hash (as_str result)
    hash ← hex_to_bytes hash_hex
    array_32 hash

  abbrev pub send : List ℕ → JsonRpcClient → Outcome (List ℕ) → Fallible RpcError (List ℕ)
  send join_error client panic = panic
  send join_error client (value raw) = value (join join_error (broadcast client raw))

module _ ⦃js : Json⦄ (sg : Signer) where
  open sg use {SigningKey, keccak256}

  -- `RpcTxSubmitter::submit`: its encoding runs before the blocking task, so its overflow panics.
  unfoldable pub submit :
      (join_error : List ℕ)
      → Profile
      → JsonRpcClient
      → SigningKey
      → UnsignedTx
      → Fallible RpcError (List ℕ)
  submit join_error profile client key tx = do
    signed ← value (sign_normalized sg key (signing_hash keccak256 tx))
    send join_error client (raw_of sg profile tx signed)
