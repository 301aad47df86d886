-- ===== src/Journal/Frame/Revert.antt =====
-- Reading back the payload of a revert.
use driftbrake.Base.{
  ℕ, zero, suc, ◌+◌, ◌-◌, ◌^◌, ◌<◌, ◌≡◌, refl, sym, ap, ◌∙◌, min, true, List, [], ◌∷◌, ◌++◌, Option,
  none, some, length, take, drop, All, ltb, leb, if◌then◌else◌, arith, length-append, length-take,
  take-append, drop-append, All-append, append-nil,
}
use mathlib.Core.Bool.{and-true}
use driftbrake.Base.Bytes.{IsByte, to_be, of_be, slice, length-to_be, to_be-IsByte, of_be-to_be}
use driftbrake.Core.Types.{RevertEvent, reverted_tx}
use driftbrake.Journal.Utf8.{from_utf8}
use driftbrake.Journal.Frame.{
  tag_revert, reason_bytes, revert_payload, frame, parse_reason, parse_revert, parse_payload,
  next_frame,
}
use driftbrake.Journal.Frame.RoundTrip.{take_block, next_frame-frame}

-- The fields are in the ranges of their Rust types.
abbrev pub IsRevertEvent : RevertEvent → Type 0
IsRevertEvent event =
    (length event.tx_hash ≡ 32)
    × (All IsByte event.tx_hash)
    × (event.block_number < 2 ^ 64)
    × (event.gas_used < 2 ^ 64)
    × (event.effective_gas_price < 2 ^ 128)
    × All IsByte (reason_bytes event.reason)

-- The reason that a restart finds: none for an empty one, and a cut inside of a character loses it.
abbrev pub stored_reason : Option (List ℕ) → Option (List ℕ)
stored_reason reason =
    if ltb 0 (length (reason_bytes reason)) then from_utf8 (reason_bytes reason) else none

abbrev pub stored_event : RevertEvent → RevertEvent
stored_event event = record {
  tx_hash = event.tx_hash;
  block_number = event.block_number;
  reason = stored_reason event.reason;
  gas_used = event.gas_used;
  effective_gas_price = event.effective_gas_price;
}

pub drop-drop : (m n : ℕ) (bytes : List ℕ) → drop (m + n) bytes ≡ drop n (drop m bytes)
drop-drop zero n bytes = let e : 0 + n ≡ n = omega arith in rw e
drop-drop (suc m) zero [] = let e : suc m + 0 ≡ suc m = omega arith in rw e
drop-drop (suc m) (suc n) [] = let e : suc m + suc n ≡ suc (m + suc n) = omega arith in rw e
drop-drop (suc m) n (b ∷ bytes) =
    let e : suc m + n ≡ suc (m + n) = omega arith in rw e (drop-drop m n bytes)

-- From the start of one block to the start of the next.
next_block :
    (m n : ℕ) (bytes block rest : List ℕ)
    → drop m bytes ≡ block ++ rest
    → length block ≡ n
    → drop (m + n) bytes ≡ rest
next_block m n bytes block rest e h =
    drop-drop m n bytes ∙ ap (drop n) e ∙ drop-append n block rest h

number_block :
    (n v : ℕ) (bytes rest : List ℕ)
    → v < 256 ^ n
    → bytes ≡ to_be n v ++ rest
    → of_be (take n bytes) ≡ v
number_block n v bytes rest h e =
    ap of_be (take_block n bytes (to_be n v) rest e (length-to_be n v)) ∙ of_be-to_be n v h

pub length-reason_bytes : (reason : Option (List ℕ)) → length (reason_bytes reason) < 2 ^ 16
length-reason_bytes none = omega arith
length-reason_bytes (some reason) =
    omega (arith, length-take (min (length reason) (2 ^ 16 - 1)) reason)

module _ (event : RevertEvent) (timestamp : ℕ) (ok : IsRevertEvent event) where
  abbrev text : List ℕ
  text = reason_bytes event.reason

  abbrev payload : List ℕ
  payload = revert_payload event timestamp

  at0 : take 32 payload ≡ event.tx_hash
  unfolding revert_payload
  at0 = take-append 32 event.tx_hash _ ok.0

  at32 :
      drop 32 payload
      ≡ to_be 8 event.block_number
        ++ (to_be 8 event.gas_used
            ++ (to_be 16 event.effective_gas_price
                ++ (to_be 8 timestamp ++ (to_be 2 (length text) ++ text))))
  unfolding revert_payload
  at32 = drop-append 32 event.tx_hash _ ok.0

  at40 :
      drop 40 payload
      ≡ to_be 8 event.gas_used
        ++ (to_be 16 event.effective_gas_price
            ++ (to_be 8 timestamp ++ (to_be 2 (length text) ++ text)))
  at40 = next_block 32 8 payload (to_be 8 event.block_number) _ at32 (length-to_be 8 _)

  at48 :
      drop 48 payload
      ≡ to_be 16 event.effective_gas_price ++ (to_be 8 timestamp ++ (to_be 2 (length text) ++ text))
  at48 = next_block 40 8 payload (to_be 8 event.gas_used) _ at40 (length-to_be 8 _)

  at64 : drop 64 payload ≡ to_be 8 timestamp ++ (to_be 2 (length text) ++ text)
  at64 = next_block 48 16 payload (to_be 16 event.effective_gas_price) _ at48 (length-to_be 16 _)

  at72 : drop 72 payload ≡ to_be 2 (length text) ++ text
  at72 = next_block 64 8 payload (to_be 8 timestamp) _ at64 (length-to_be 8 _)

  at74 : drop 74 payload ≡ text
  at74 = next_block 72 2 payload (to_be 2 (length text)) _ at72 (length-to_be 2 _)

  pub length-revert_payload : length payload ≡ 74 + length text
  unfolding revert_payload
  length-revert_payload = omega (
    arith,
    ok.0,
    length-append event.tx_hash (
        to_be 8 event.block_number
        ++ (to_be 8 event.gas_used
            ++ (to_be 16 event.effective_gas_price
                ++ (to_be 8 timestamp ++ (to_be 2 (length text) ++ text))))),
    length-append (to_be 8 event.block_number) (
        to_be 8 event.gas_used
        ++ (to_be 16 event.effective_gas_price
            ++ (to_be 8 timestamp ++ (to_be 2 (length text) ++ text)))),
    length-append (to_be 8 event.gas_used) (
        to_be 16 event.effective_gas_price
        ++ (to_be 8 timestamp ++ (to_be 2 (length text) ++ text))),
    length-append (to_be 16 event.effective_gas_price)
        (to_be 8 timestamp ++ (to_be 2 (length text) ++ text)),
    length-append (to_be 8 timestamp) (to_be 2 (length text) ++ text),
    length-append (to_be 2 (length text)) text,
    length-to_be 8 event.block_number,
    length-to_be 8 event.gas_used,
    length-to_be 16 event.effective_gas_price,
    length-to_be 8 timestamp,
    length-to_be 2 (length text),
  )

  pub revert_payload-IsByte : All IsByte payload
  unfolding revert_payload
  revert_payload-IsByte = All-append IsByte event.tx_hash _ ok.1 (
      All-append IsByte (to_be 8 event.block_number) _ (to_be-IsByte 8 _) (
        All-append IsByte (to_be 8 event.gas_used) _ (to_be-IsByte 8 _) (
          All-append IsByte (to_be 16 event.effective_gas_price) _ (to_be-IsByte 16 _) (
            All-append IsByte (to_be 8 timestamp) _ (to_be-IsByte 8 _)
              (All-append IsByte (to_be 2 (length text)) _ (to_be-IsByte 2 _) ok.5)))))

  reason_length : of_be (slice 72 74 payload) ≡ length text
  reason_length =
      number_block 2 (length text) (drop 72 payload) text
        (omega (arith, length-reason_bytes event.reason)) at72

  reason_text : slice 74 (74 + length text) payload ≡ text
  reason_text =
      let e : 74 + length text - 74 ≡ length text = omega arith in
      ap (λ (n : ℕ). take n (drop 74 payload)) e
      ∙ take_block (length text) (drop 74 payload) text [] (at74 ∙ sym (append-nil text)) refl

  parse_reason-revert_payload : parse_reason payload ≡ stored_reason event.reason
  unfolding parse_reason
  parse_reason-revert_payload =
      let long : leb (74 + length text) (length payload) ≡ true =
        ground (arith, length-revert_payload) in
      rw (reason_length, long, reason_text, and-true (ltb 0 (length text)))

  parse_revert-revert_payload : parse_revert payload ≡ reverted_tx (stored_event event)
  unfolding parse_revert
  parse_revert-revert_payload = rw (
    at0,
    number_block 8 event.block_number (drop 32 payload) _ ok.2 at32,
    number_block 8 event.gas_used (drop 40 payload) _ ok.3 at40,
    number_block 16 event.effective_gas_price (drop 48 payload) _ ok.4 at48,
    parse_reason-revert_payload,
  )

-- The frame of a revert whose fields are in range is read as that revert, with the reason as far as it
-- is stored, whatever follows it.
pub next_frame-revert :
    (event : RevertEvent) (timestamp : ℕ) (rest : List ℕ)
    → IsRevertEvent event
    → next_frame (frame tag_revert (revert_payload event timestamp) ++ rest)
      ≡ some (reverted_tx (stored_event event), 83 + length (reason_bytes event.reason))
unfolding parse_payload
next_frame-revert event timestamp rest ok =
    let long : leb 74 (length (revert_payload event timestamp)) ≡ true =
      ground (arith, length-revert_payload event timestamp ok) in
    let size : 9 + length (revert_payload event timestamp)
        ≡ 83 + length (reason_bytes event.reason) =
      omega (arith, length-revert_payload event timestamp ok) in
    next_frame-frame tag_revert (revert_payload event timestamp) rest
      (revert_payload-IsByte event timestamp ok)
      (omega (arith, length-revert_payload event timestamp ok, length-reason_bytes event.reason))
    ∙ rw (long, size, parse_revert-revert_payload event timestamp ok)
