-- ===== src/Arbitrage/Rpc/Signing/Laws.antt =====
-- examples/toy-arbitrage/src/rpc.rs: a transaction as the network reads it from its encoding.
use driftbrake.Base.{
  ℕ, ◌+◌, ◌*◌, ◌^◌, ◌≤◌, ◌<◌, ◌≡◌, refl, sym, ap, ◌∙◌, Bool, true, false, if◌then◌else◌, List, [],
  ◌∷◌, Option, none, some, value, Profile, length, map, arith,
}
use driftbrake.Base.Int.{arith_u64_fits}
use driftbrake.Base.Bytes.{to_be, of_be, length-to_be, of_be-to_be}
use driftbrake.Arbitrage.Rlp.{bytes, list, leading_zero_trim, items_of, encode}
use driftbrake.Arbitrage.Rlp.Reading.{
  starts_zero, starts_zero-leading_zero_trim, length-leading_zero_trim, of_be-leading_zero_trim,
}
use driftbrake.Arbitrage.Rlp.Reading.Lists.{read_list_of, read_list_of-encode}
use driftbrake.Arbitrage.Rpc.Signing.{
  UnsignedTx, signing_items, signature_v, signed_items, signed_tx_rlp,
}

-- The nine fields of a legacy transaction. Before it is signed the last three are the chain's id and
-- two zeros.
pub record LegacyTx : Type 0 where
  pub nonce : ℕ
  pub gas_price : ℕ
  pub gas_limit : ℕ
  pub to : List ℕ
  pub tx_value : ℕ
  pub payload : List ℕ
  pub v : ℕ
  pub r : ℕ
  pub s : ℕ

-- A number is read without leading zeros.
abbrev pub are_canonical : List (List ℕ) → Bool
are_canonical [] = true
are_canonical (bs ∷ more) = if starts_zero bs then false else are_canonical more

abbrev pub legacy_fields :
    List ℕ → List ℕ → List ℕ → List ℕ → List ℕ → List ℕ → List ℕ → List ℕ → List ℕ → LegacyTx
legacy_fields n p l to w d v r s = record {
  nonce = of_be n;
  gas_price = of_be p;
  gas_limit = of_be l;
  to = to;
  tx_value = of_be w;
  payload = d;
  v = of_be v;
  r = of_be r;
  s = of_be s;
}

abbrev pub as_transaction : Option (List (List ℕ)) → Option LegacyTx
as_transaction none = none
as_transaction (some (n ∷ p ∷ l ∷ to ∷ w ∷ d ∷ v ∷ r ∷ s ∷ [])) =
    if are_canonical (n ∷ p ∷ l ∷ w ∷ v ∷ r ∷ s ∷ [])
    then some (legacy_fields n p l to w d v r s)
    else none
as_transaction (some _) = none

-- What a strict node reads of the bytes of a legacy transaction: numbers are big-endian strings without a
-- leading zero, and every string and list has its shortest header.
abbrev pub read_transaction : List ℕ → Option LegacyTx
read_transaction raw = as_transaction (read_list_of 9 raw)

abbrev pub legacy : UnsignedTx → ℕ → ℕ → ℕ → LegacyTx
legacy tx v r s = record {
  nonce = tx.nonce;
  gas_price = tx.gas_price;
  gas_limit = tx.gas_limit;
  to = tx.to;
  tx_value = tx.tx_value;
  payload = tx.payload;
  v = v;
  r = r;
  s = s;
}

-- The ranges of the fields' types, and a payload that fits in memory.
abbrev pub IsUnsignedTx : UnsignedTx → Type 0
IsUnsignedTx tx =
    (tx.nonce < 2 ^ 64)
    × (tx.gas_price < 2 ^ 128)
    × (tx.gas_limit < 2 ^ 64)
    × (length tx.to ≡ 20)
    × (tx.tx_value < 2 ^ 128)
    × (length tx.payload < 2 ^ 63)
    × (tx.chain_id < 2 ^ 64)

length-uint_bytes : (n : ℕ) → length (leading_zero_trim (to_be 16 n)) ≤ 16
length-uint_bytes n = omega (arith, length-leading_zero_trim (to_be 16 n), length-to_be 16 n)

of_be-uint_bytes : (n : ℕ) → n < 2 ^ 128 → of_be (leading_zero_trim (to_be 16 n)) ≡ n
of_be-uint_bytes n h = of_be-leading_zero_trim (to_be 16 n) ∙ of_be-to_be 16 n h

abbrev tx_strings : UnsignedTx → List ℕ → List ℕ → List ℕ → List (List ℕ)
tx_strings tx v r s =
    leading_zero_trim (to_be 16 tx.nonce)
    ∷ leading_zero_trim (to_be 16 tx.gas_price)
    ∷ leading_zero_trim (to_be 16 tx.gas_limit)
    ∷ tx.to
    ∷ leading_zero_trim (to_be 16 tx.tx_value)
    ∷ tx.payload
    ∷ v
    ∷ r
    ∷ s
    ∷ []

read_fields :
    (tx : UnsignedTx) (v r s : List ℕ)
    → IsUnsignedTx tx
    → starts_zero v ≡ false
    → starts_zero r ≡ false
    → starts_zero s ≡ false
    → length v ≤ 32
    → length r ≤ 32
    → length s ≤ 32
    → read_transaction (encode (list (items_of (map bytes (tx_strings tx v r s)))))
      ≡ some (legacy tx (of_be v) (of_be r) (of_be s))
read_fields tx v r s (n, p, l, to, w, d, c) canonical_v canonical_r canonical_s short_v short_r
      short_s =
    ap as_transaction (
      read_list_of-encode (tx_strings tx v r s) (
        omega (
          arith,
          length-uint_bytes tx.nonce,
          length-uint_bytes tx.gas_price,
          length-uint_bytes tx.gas_limit,
          length-uint_bytes tx.tx_value,
        )))
    ∙ rw
        (
          starts_zero-leading_zero_trim (to_be 16 tx.nonce),
          starts_zero-leading_zero_trim (to_be 16 tx.gas_price),
          starts_zero-leading_zero_trim (to_be 16 tx.gas_limit),
          starts_zero-leading_zero_trim (to_be 16 tx.tx_value),
          canonical_v,
          canonical_r,
          canonical_s,
          of_be-uint_bytes tx.nonce (omega arith),
          of_be-uint_bytes tx.gas_price p,
          of_be-uint_bytes tx.gas_limit (omega arith),
          of_be-uint_bytes tx.tx_value w,
        )
        refl

read_signing_items :
    (tx : UnsignedTx)
    → IsUnsignedTx tx
    → read_transaction (encode (signing_items tx)) ≡ some (legacy tx tx.chain_id 0 0)
read_signing_items tx h =
    let zero_bytes = leading_zero_trim (to_be 16 0) in
    read_fields tx (leading_zero_trim (to_be 16 tx.chain_id)) zero_bytes zero_bytes h
      (starts_zero-leading_zero_trim (to_be 16 tx.chain_id))
      (starts_zero-leading_zero_trim (to_be 16 0)) (starts_zero-leading_zero_trim (to_be 16 0))
      (omega (arith, length-uint_bytes tx.chain_id)) (omega (arith, length-uint_bytes 0))
      (omega (arith, length-uint_bytes 0))
    ∙ rw (of_be-uint_bytes tx.chain_id (omega (arith, h.6)), of_be-uint_bytes 0 (omega arith)) refl

abbrev unsigned_of : LegacyTx → UnsignedTx
unsigned_of t = record {
  nonce = t.nonce;
  gas_price = t.gas_price;
  gas_limit = t.gas_limit;
  to = t.to;
  tx_value = t.tx_value;
  payload = t.payload;
  chain_id = t.v;
}

some_inj : {a b : LegacyTx} → some a ≡ some b → a ≡ b
some_inj e = cc

-- Two transactions, within the ranges of their types, for which `signing_hash` hashes the same bytes
-- are the same in every field, the chain's id included.
pub signing_items-injective :
    (tx tx' : UnsignedTx)
    → IsUnsignedTx tx
    → IsUnsignedTx tx'
    → encode (signing_items tx) ≡ encode (signing_items tx')
    → tx ≡ tx'
signing_items-injective tx tx' h h' e =
    ap unsigned_of
      (some_inj (sym (read_signing_items tx h) ∙ ap read_transaction e ∙ read_signing_items tx' h'))

signature_v_fits :
    (profile : Profile) (chain_id id : ℕ)
    → chain_id * 2 + 35 + id < 2 ^ 64
    → signature_v profile chain_id id ≡ value (chain_id * 2 + 35 + id)
unfolding signature_v
signature_v_fits profile chain_id id h =
    rw
      (
        arith_u64_fits profile (chain_id * 2) (omega arith),
        arith_u64_fits profile (chain_id * 2 + 35) (omega arith),
      )
      (arith_u64_fits profile (chain_id * 2 + 35 + id) h)

-- For a chain's id whose `v` fits in a `u64`, the raw transaction that is broadcast is read by a node
-- that takes only the shortest encoding, and no number with a leading zero, as the transaction itself, with `chain_id * 2 + 35 + recovery_id` and the signature's two numbers.
pub read_transaction-signed_tx_rlp :
    (profile : Profile) (tx : UnsignedTx) (r s : List ℕ) (recovery_id : ℕ)
    → IsUnsignedTx tx
    → length r ≡ 32
    → length s ≡ 32
    → tx.chain_id * 2 + 35 + recovery_id < 2 ^ 64
    → (raw : List ℕ) × (signed_tx_rlp profile tx r s recovery_id ≡ value raw)
      × (read_transaction raw
          ≡ some (legacy tx (tx.chain_id * 2 + 35 + recovery_id) (of_be r) (of_be s)))
unfolding signed_tx_rlp
read_transaction-signed_tx_rlp profile tx r s recovery_id h long_r long_s fits =
    let v = tx.chain_id * 2 + 35 + recovery_id in
    (
      encode (signed_items tx v r s),
      rw (signature_v_fits profile tx.chain_id recovery_id fits) refl,
      read_fields tx (leading_zero_trim (to_be 16 v)) (leading_zero_trim r) (leading_zero_trim s) h
            (starts_zero-leading_zero_trim (to_be 16 v)) (starts_zero-leading_zero_trim r)
            (starts_zero-leading_zero_trim s) (omega (arith, length-uint_bytes v))
            (omega (arith, length-leading_zero_trim r)) (omega (arith, length-leading_zero_trim s))
          ∙ rw
              (
                of_be-uint_bytes v (omega arith),
                of_be-leading_zero_trim r,
                of_be-leading_zero_trim s,
              )
              refl,
    )
