-- ===== src/Arbitrage/Rpc/Receipts/Shape.antt =====
-- examples/toy-arbitrage/src/rpc.rs: what a receipt says of the reply it was read from.
use driftbrake.Base.{
  ℕ, ◌≡◌, refl, sym, ap, ◌∙◌, Bool-cases, ◌==◌, if◌then◌else◌, Option, none, ◌↔◌, subst, Bool, true,
  false, List, [], ◌∷◌, ◌++◌, some, inl, inr, All, length, value, panic, arith, value_inj,
}
use driftbrake.Base.Text.{codes}
use driftbrake.Base.Bytes.{IsByte}
use driftbrake.Core.Types.{Log, TxReceipt, confirmed, reverted}
use driftbrake.Arbitrage.Hex.{
  RpcError, Fallible, ◌>>=◌, ok, hex_encode, hex_to_bytes, hex_to_u64, hex_to_u128,
}
use driftbrake.Arbitrage.Hex.Bounds.{
  >>=-eq-ok, hex_to_bytes-IsByte, hex_to_u64-lt, hex_to_u128-lt, ok_inj,
}
use driftbrake.Arbitrage.Json.{Json, get_str, get_array}
use driftbrake.Arbitrage.Rpc.{JsonRpcClient, call, array_32, or_missing, unwrap_or}
use driftbrake.Arbitrage.Rpc.Receipts.{
  status_of, collect, parse_topic, parse_log, parse_receipt, unless_null, parse_receipt_response,
  join, get_receipt,
}
use driftbrake.Arbitrage.Rpc.Receipts.Laws.{IsTopic, IsLog, IsReceipt}

pub array_32-length : (bs out : List ℕ) → array_32 bs ≡ ok out → (bs ≡ out) × (length out ≡ 32)
unfolding array_32
array_32-length bs out h = ground arith

pub or_missing-some :
    (e : List ℕ) (o : Option (List ℕ)) {s : List ℕ} → or_missing e o ≡ ok s → o ≡ some s
or_missing-some e none h = cc
or_missing-some e (some s) h = cc

status_of-confirmed : (n : ℕ) → status_of n ≡ confirmed → n ≡ 1
status_of-confirmed n h = elim (Bool-cases (n == 1)) [
  | inl one ↦ ground (arith, one)
  | inr other ↦
      absurd (clash (ap (λ (b : Bool). if b then confirmed else reverted) (sym other) ∙ h))
]
  where
    clash : reverted ≡ confirmed → ⊥
    clash e = cc

confirmed-status_of : (n : ℕ) → n ≡ 1 → status_of n ≡ confirmed
confirmed-status_of n h = rw h refl

pub join-eq-inr :
    {A : Type 0} (e : List ℕ) (m : Fallible RpcError A) {a : A} → join e m ≡ inr a → m ≡ ok a
join-eq-inr e (value x) h = cc
join-eq-inr e panic h = cc

collect-All :
    {A B : Type 0} (f : A → Fallible RpcError B) (P : B → Type 0)
    → ((x : A) (y : B) → f x ≡ ok y → P y)
    → (xs : List A) (ys : List B) → collect f xs ≡ ok ys
    → All P ys
unfolding collect
collect-All f P holds [] ys h = subst (All P) (ok_inj h) tt
collect-All f P holds (x ∷ xs) ys h =
    let (y, e, e') = >>=-eq-ok (f x) (λ z. collect f xs >>= λ zs. ok (z ∷ zs)) h in
    let (rest, r, r') = >>=-eq-ok (collect f xs) (λ zs. ok (y ∷ zs)) e' in
    subst (All P) (ok_inj r') (holds x y e, collect-All f P holds xs rest r)

module _ ⦃js : Json⦄ where
  open js use {Value, text, array, is_null, as_str}

  -- The fields of a receipt as the texts of the node's object read: it is confirmed exactly if the status
  -- is the number 1, a gas price that is missing is zero, and the logs are those of the array, in its order.
  abbrev pub IsReadFrom : Value → TxReceipt → List Log → Type 0
  IsReadFrom v r logs =
      (status_hex number_hex gas_hex : List ℕ) × (status : ℕ) × (get_str v (codes "status")
        ≡ some status_hex)
      × (hex_to_u64 status_hex ≡ inr status)
      × (r.status ≡ confirmed ↔ status ≡ 1)
      × (get_str v (codes "blockNumber") ≡ some number_hex)
      × (hex_to_u64 number_hex ≡ inr r.block_number)
      × (get_str v (codes "gasUsed") ≡ some gas_hex)
      × (hex_to_u64 gas_hex ≡ inr r.gas_used)
      × (hex_to_u128 (unwrap_or (get_str v (codes "effectiveGasPrice")) (codes "0x0"))
          ≡ inr r.effective_gas_price)
      × (collect parse_log (get_array v (codes "logs")) ≡ ok logs)

  abbrev IsShaped : List ℕ → Value → TxReceipt × List Log → Type 0
  IsShaped tx_hash v (r, logs) =
      IsReadFrom v r logs × (r.tx_hash ≡ tx_hash) × IsReceipt r × All IsLog logs

  parse_topic-IsTopic : (t : Value) (out : List ℕ) → parse_topic t ≡ ok out → IsTopic out
  unfolding parse_topic
  parse_topic-IsTopic t out h =
      let (bs, e, e') = >>=-eq-ok (hex_to_bytes (unwrap_or (as_str t) (codes "0x"))) array_32 h in
      let (same, size) = array_32-length bs out e' in
      (subst (All IsByte) same (hex_to_bytes-IsByte (unwrap_or (as_str t) (codes "0x")) bs e), size)

  parse_log-IsLog : (v : Value) (log : Log) → parse_log v ≡ ok log → IsLog log
  unfolding parse_log
  parse_log-IsLog v log h =
      let (address, a, h1) =
        >>=-eq-ok (hex_to_bytes (unwrap_or (get_str v (codes "address")) (codes "0x"))) _ h in
      let (topics, t, h2) = >>=-eq-ok (collect parse_topic (get_array v (codes "topics"))) _ h1 in
      let (payload, p, h3) =
        >>=-eq-ok (hex_to_bytes (unwrap_or (get_str v (codes "data")) (codes "0x"))) _ h2 in
      subst IsLog (ok_inj h3) (
        hex_to_bytes-IsByte (unwrap_or (get_str v (codes "address")) (codes "0x")) address a,
        collect-All parse_topic IsTopic parse_topic-IsTopic (get_array v (codes "topics")) topics t,
        hex_to_bytes-IsByte (unwrap_or (get_str v (codes "data")) (codes "0x")) payload p,
      )

  parse_receipt-IsShaped :
      (tx_hash : List ℕ) (v : Value) (found : TxReceipt × List Log)
      → parse_receipt tx_hash v ≡ ok found
      → IsShaped tx_hash v found
  unfolding parse_receipt
  parse_receipt-IsShaped tx_hash v found h =
      let (status_hex, s, h1) =
        >>=-eq-ok (or_missing (codes "receipt missing status") (get_str v (codes "status"))) _ h in
      let (status, s', h2) = >>=-eq-ok (value (hex_to_u64 status_hex)) _ h1 in
      let (number_hex, n, h3) =
        >>=-eq-ok
          (or_missing (codes "receipt missing blockNumber") (get_str v (codes "blockNumber"))) _
          h2 in
      let (number, n', h4) = >>=-eq-ok (value (hex_to_u64 number_hex)) _ h3 in
      let (gas_hex, g, h5) =
        >>=-eq-ok (or_missing (codes "receipt missing gasUsed") (get_str v (codes "gasUsed"))) _
          h4 in
      let (gas, g', h6) = >>=-eq-ok (value (hex_to_u64 gas_hex)) _ h5 in
      let price_hex = unwrap_or (get_str v (codes "effectiveGasPrice")) (codes "0x0") in
      let (price, p, h7) = >>=-eq-ok (value (hex_to_u128 price_hex)) _ h6 in
      let (logs, l, h8) = >>=-eq-ok (collect parse_log (get_array v (codes "logs"))) _ h7 in
      subst (IsShaped tx_hash v) (ok_inj h8) (
        (
          status_hex,
          number_hex,
          gas_hex,
          status,
          or_missing-some (codes "receipt missing status") (get_str v (codes "status")) s,
          value_inj s',
          (status_of-confirmed status, confirmed-status_of status),
          or_missing-some (codes "receipt missing blockNumber") (get_str v (codes "blockNumber")) n,
          value_inj n',
          or_missing-some (codes "receipt missing gasUsed") (get_str v (codes "gasUsed")) g,
          value_inj g',
          value_inj p,
          l,
        ),
        refl,
        (
          hex_to_u64-lt number_hex number (value_inj n'),
          hex_to_u64-lt gas_hex gas (value_inj g'),
          hex_to_u128-lt price_hex price (value_inj p),
        ),
        collect-All parse_log IsLog parse_log-IsLog (get_array v (codes "logs")) logs l,
      )

  -- Where `get_receipt` returns a receipt, the node was asked for the receipt of that hash and replied
  -- with a value that is not null. The receipt's block number and gas used are what the texts of
  -- `blockNumber` and `gasUsed` read as, its gas price what that of `effectiveGasPrice` reads as, zero
  -- where there is none, and it is confirmed exactly if the text of `status` reads as 1; the logs are those
  -- that `parse_log` reads of the array `logs`, in its order. Its hash is the one asked for, its numbers
  -- are in the ranges of their types, and its logs are bytes with topics of 32 bytes each.
  pub get_receipt-IsShaped :
      (join_error : List ℕ) (client : JsonRpcClient) (tx_hash : List ℕ) (r : TxReceipt)
      (logs : List Log)
      → get_receipt join_error client tx_hash ≡ inr (some (r, logs))
      → (v : Value) × (call client
            (codes "eth_getTransactionReceipt")
            (array (text (codes "0x" ++ hex_encode tx_hash) ∷ []))
          ≡ inr v)
        × (is_null v ≡ false)
        × IsReadFrom v r logs
        × (r.tx_hash ≡ tx_hash)
        × IsReceipt r
        × All IsLog logs
  unfolding get_receipt parse_receipt_response
  get_receipt-IsShaped join_error client tx_hash r logs h =
      let reply =
        call client (codes "eth_getTransactionReceipt")
          (array (text (codes "0x" ++ hex_encode tx_hash) ∷ [])) in
      let (v, e, h1) =
        >>=-eq-ok (value reply) (λ v. unless_null (is_null v) (parse_receipt tx_hash v))
          (join-eq-inr join_error
            (value reply >>= λ v. unless_null (is_null v) (parse_receipt tx_hash v)) h) in
      let (there, parsed) = found (is_null v) (parse_receipt tx_hash v) (r, logs) h1 in
      let (read, same, ranges, within) = parse_receipt-IsShaped tx_hash v (r, logs) parsed in
      (v, value_inj e, there, read, same, ranges, within)
    where
      found :
          (b : Bool) (m : Fallible RpcError (TxReceipt × List Log)) (x : TxReceipt × List Log)
          → unless_null b m ≡ ok (some x)
          → (b ≡ false) × (m ≡ ok x)
      found true m x h = absurd (cc)
      found false (value (inl e)) x h = absurd (cc)
      found false (value (inr y)) x h = (refl, cc)
      found false panic x h = absurd (cc)
