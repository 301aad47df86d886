-- ===== src/Arbitrage/Rpc/Signing/Submit.antt =====
-- examples/toy-arbitrage/src/rpc.rs: what a submission that succeeds has signed and sent.
use driftbrake.Base.{
  ℕ, ◌+◌, ◌*◌, ◌^◌, ◌≤◌, ◌<◌, ◌≡◌, refl, ap, ◌∙◌, subst, ◌⊎◌, inl, inr, List, [], ◌∷◌, ◌++◌, Option,
  none, some, Outcome, value, Profile, length, arith, value_inj,
}
use driftbrake.Base.Text.{codes}
use driftbrake.Base.Bytes.{of_be}
use driftbrake.Arbitrage.Hex.{RpcError, ok, hex_to_bytes, hex_encode}
use driftbrake.Arbitrage.Hex.Bounds.{>>=-eq-ok}
use driftbrake.Arbitrage.Json.{Json}
use driftbrake.Arbitrage.Rpc.{JsonRpcClient, call, or_missing}
use driftbrake.Arbitrage.Rpc.Receipts.Shape.{array_32-length, or_missing-some, join-eq-inr}
use driftbrake.Arbitrage.Rpc.Signing.{
  UnsignedTx, Signer, signing_hash, normalized, or_failed, sign_normalized, raw_of, no_hash,
  broadcast, send, submit,
}
use driftbrake.Arbitrage.Rpc.Signing.Laws.{
  legacy, read_transaction, IsUnsignedTx, read_transaction-signed_tx_rlp,
}

-- The two numbers of a signature are 32 bytes each, a recovery id is at most 3, and `normalize_s` returns
-- a signature that it leaves as it is.
pub record SignerLaws (sg : Signer) : Type 0 where
  pub r_size : (signature : Signer.Signature sg) → length (Signer.r_bytes sg signature) ≡ 32
  pub s_size : (signature : Signer.Signature sg) → length (Signer.s_bytes sg signature) ≡ 32
  pub to_byte_le : (id : Signer.RecoveryId sg) → Signer.to_byte sg id ≤ 3
  pub normalize_s_low :
      (signature low : Signer.Signature sg)
      → Signer.normalize_s sg signature ≡ some low
      → Signer.normalize_s sg low ≡ none

module _ ⦃js : Json⦄ (sg : Signer) (laws : SignerLaws sg) where
  open js use {Value, text, array, as_str}
  open sg use {SigningKey, Signature, RecoveryId, normalize_s, to_byte, r_bytes, s_bytes, keccak256}

  normalized_low :
      (found : Option Signature) (signature : Signature) (id : RecoveryId)
      → normalize_s signature ≡ found
      → normalize_s (normalized sg found signature id).0 ≡ none
  normalized_low none signature id e = e
  normalized_low (some low) signature id e = laws.normalize_s_low signature low e

  pair_inj :
      {a b : Signature × RecoveryId}
      → ◌≡◌ {A = RpcError ⊎ (Signature × RecoveryId)} (inr a) (inr b)
      → a ≡ b
  pair_inj e = cc

  or_failed_low :
      (m : List ℕ ⊎ (Signature × RecoveryId)) (signed : Signature × RecoveryId)
      → or_failed sg m ≡ inr signed
      → normalize_s signed.0 ≡ none
  or_failed_low (inl e) signed h = cc
  or_failed_low (inr (signature, id)) signed h =
      subst (λ (x : Signature × RecoveryId). normalize_s x.0 ≡ none) (pair_inj h)
        (normalized_low (normalize_s signature) signature id refl)

  -- The node was sent these bytes, in hexadecimal, and replied with a text that reads as the hash.
  abbrev pub IsSent : JsonRpcClient → List ℕ → List ℕ → Type 0
  IsSent client raw hash =
      (reply : Value) × (hash_hex : List ℕ) × (call client (codes "eth_sendRawTransaction")
          (array (text (codes "0x" ++ hex_encode raw) ∷ []))
        ≡ inr reply)
      × (as_str reply ≡ some hash_hex)
      × (hex_to_bytes hash_hex ≡ ok hash)

  broadcast-IsSent :
      (client : JsonRpcClient) (raw hash : List ℕ)
      → broadcast client raw ≡ ok hash
      → IsSent client raw hash × (length hash ≡ 32)
  unfolding broadcast
  broadcast-IsSent client raw hash h =
      let reply =
        call client (codes "eth_sendRawTransaction")
          (array (text (codes "0x" ++ hex_encode raw) ∷ [])) in
      let (v, e, h1) = >>=-eq-ok (value reply) _ h in
      let (hash_hex, e1, h2) = >>=-eq-ok (or_missing no_hash (as_str v)) _ h1 in
      let (bytes, e2, h3) = >>=-eq-ok (hex_to_bytes hash_hex) _ h2 in
      let (same, size) = array_32-length bytes hash h3 in
      (
        (
          v,
          hash_hex,
          value_inj e,
          or_missing-some no_hash (as_str v) e1,
          e2 ∙ ap (λ (b : List ℕ). ok b) same,
        ),
        size,
      )

  -- The signature is in the low half of its range, and a node reads the transaction from the bytes.
  abbrev pub IsBroadcast : Profile → JsonRpcClient → SigningKey → UnsignedTx → List ℕ → Type 0
  IsBroadcast profile client key tx hash =
      (signature : Signature) × (id : RecoveryId) × (raw : List ℕ) × (sign_normalized sg key
          (signing_hash keccak256 tx)
        ≡ inr (signature, id))
      × (normalize_s signature ≡ none)
      × (read_transaction raw
          ≡ some (
              legacy tx (tx.chain_id * 2 + 35 + to_byte id) (of_be (r_bytes signature))
                (of_be (s_bytes signature))))
      × IsSent client raw hash
      × (length hash ≡ 32)

  -- A submission that returns a hash of a transaction within the ranges of its types, on a chain whose `v`
  -- fits in a `u64`, has signed the transaction's signing hash with a signature that `normalize_s` leaves
  -- as it is, and sent the node bytes that a strict reader reads as the transaction with that signature; the
  -- hash is what the text of the node's reply reads as in hexadecimal, 32 bytes. The laws of the signer are taken as given.
  pub submit-IsBroadcast :
      (join_error : List ℕ) (profile : Profile) (client : JsonRpcClient) (key : SigningKey)
      (tx : UnsignedTx) (hash : List ℕ)
      → IsUnsignedTx tx
      → tx.chain_id * 2 + 38 < 2 ^ 64
      → submit sg join_error profile client key tx ≡ ok hash
      → IsBroadcast profile client key tx hash
  unfolding submit
  submit-IsBroadcast join_error profile client key tx hash ranges fits h =
      let (signed, e, h1) =
        >>=-eq-ok (value (sign_normalized sg key (signing_hash keccak256 tx)))
          (λ x. send join_error client (raw_of sg profile tx x)) h in
      let (raw, made, read) =
        read_transaction-signed_tx_rlp profile tx (r_bytes signed.0) (s_bytes signed.0)
          (to_byte signed.1) ranges (laws.r_size signed.0) (laws.s_size signed.0)
          (omega (arith, laws.to_byte_le signed.1)) in
      let sent : broadcast client raw ≡ ok hash = join-eq-inr join_error (broadcast client raw) (
        value_inj (subst (λ (m : Outcome (List ℕ)). send join_error client m ≡ ok hash) made h1)) in
      let (posted, size) = broadcast-IsSent client raw hash sent in
      let signing = value_inj e in
      (
        signed.0,
        signed.1,
        raw,
        signing,
        or_failed_low (Signer.sign_prehash_recoverable sg key (signing_hash keccak256 tx)) signed
            (unfold sign_normalized in signing),
        read,
        posted,
        size,
      )
