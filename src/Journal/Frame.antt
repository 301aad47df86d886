-- ===== src/Journal/Frame.antt =====
-- journal/src/lib.rs: the header, the two payloads, the frame around a payload, and the reading of
-- one frame in the recovery loop.
pub mod RoundTrip
pub mod Revert
pub mod Prefix
use driftbrake.Base.{
  ℕ, ◌+◌, ◌-◌, ◌%◌, ◌^◌, min, Bool, ◌&&◌, List, [], ◌∷◌, ◌++◌, Option, none, some, length, take,
  drop, ltb, leb, ◌==◌, if◌then◌else◌,
}
use driftbrake.Base.Bytes.{to_be, of_be, slice}
use driftbrake.Base.Int.{to_bits, of_bits}
use driftbrake.Core.Types.{
  PredictedProfit, RealizedProfit, RevertEvent, HistoryEntry, confirmed_pair, reverted_tx,
}
use driftbrake.Journal.Crc.{crc32}
use driftbrake.Journal.Utf8.{from_utf8}

-- "DRFT"
abbrev pub magic : List ℕ
magic = 0x44 ∷ 0x52 ∷ 0x46 ∷ 0x54 ∷ []

abbrev pub current_version : ℕ
current_version = 1

abbrev pub header_size : ℕ
header_size = 16

abbrev pub tag_pair : ℕ
tag_pair = 1

abbrev pub tag_revert : ℕ
tag_revert = 2

-- Magic, version, flags, and the time of creation.
unfoldable pub header : ℕ → List ℕ
header now = magic ++ (to_be 2 current_version ++ (to_be 2 0 ++ to_be 8 now))

unfoldable pub pair_payload : PredictedProfit → RealizedProfit → ℕ → List ℕ
pair_payload predicted realized timestamp =
    to_be 16 (to_bits predicted.wei) ++ (to_be 16 (to_bits realized.wei) ++ to_be 8 timestamp)

-- `event.reason.as_deref().unwrap_or("").as_bytes()`, cut to `u16::MAX` bytes.
abbrev pub reason_bytes : Option (List ℕ) → List ℕ
reason_bytes none = []
reason_bytes (some reason) = take (min (length reason) (2 ^ 16 - 1)) reason

unfoldable pub revert_payload : RevertEvent → ℕ → List ℕ
revert_payload event timestamp =
    let reason = reason_bytes event.reason in
    event.tx_hash
    ++ (to_be 8 event.block_number
        ++ (to_be 8 event.gas_used
            ++ (to_be 16 event.effective_gas_price
                ++ (to_be 8 timestamp ++ (to_be 2 (length reason) ++ reason)))))

-- Tag, length as `u32`, checksum, payload.
unfoldable pub frame : ℕ → List ℕ → List ℕ
frame tag payload =
    (tag ∷ []) ++ (to_be 4 (length payload % 2 ^ 32) ++ (to_be 4 (crc32 payload) ++ payload))

-- The frame of an entry.
unfoldable pub entry_frame : HistoryEntry → ℕ → List ℕ
entry_frame (confirmed_pair p r) timestamp = frame tag_pair (pair_payload p r timestamp)
entry_frame (reverted_tx event) timestamp = frame tag_revert (revert_payload event timestamp)

unfoldable pub parse_pair : List ℕ → HistoryEntry
parse_pair payload =
    confirmed_pair (record { wei = of_bits (of_be (slice 0 16 payload)) })
      (record { wei = of_bits (of_be (slice 16 32 payload)) })

unfoldable pub parse_reason : List ℕ → Option (List ℕ)
parse_reason payload =
    let reason_len = of_be (slice 72 74 payload) in
    if ltb 0 reason_len && leb (74 + reason_len) (length payload)
    then from_utf8 (slice 74 (74 + reason_len) payload)
    else none

unfoldable pub parse_revert : List ℕ → HistoryEntry
unfolding parse_reason
parse_revert payload = reverted_tx (record {
  tx_hash = slice 0 32 payload;
  block_number = of_be (slice 32 40 payload);
  reason = parse_reason payload;
  gas_used = of_be (slice 40 48 payload);
  effective_gas_price = of_be (slice 48 64 payload);
})

-- `match tag`: `none` is an unknown tag or a payload of the wrong length.
unfoldable pub parse_payload : ℕ → List ℕ → Option HistoryEntry
parse_payload tag payload =
    if (tag == tag_pair) && (length payload == 40)
    then some (parse_pair payload)
    else if (tag == tag_revert) && leb 74 (length payload)
    then some (parse_revert payload)
    else none

-- `meta[0]`
abbrev pub first : List ℕ → ℕ
first [] = 0
first (b ∷ bytes) = b

abbrev pub with_size : ℕ → Option HistoryEntry → Option (HistoryEntry × ℕ)
with_size n none = none
with_size n (some entry) = some (entry, n)

-- One round of the loop on the bytes from the stream position on: the entry and the size of its
-- frame. `none` are the cases in which the loop truncates the file and ends: fewer than 9 bytes,
-- fewer bytes than the length says, another checksum, or a payload that cannot be parsed.
unfoldable pub next_frame : List ℕ → Option (HistoryEntry × ℕ)
next_frame bytes =
    let payload_len = of_be (slice 1 5 bytes) in
    let expected_crc = of_be (slice 5 9 bytes) in
    let body = drop 9 bytes in
    let payload = take payload_len body in
    if ltb (length bytes) 9
    then none
    else if ltb (length body) payload_len
    then none
    else if crc32 payload == expected_crc
    then with_size (9 + payload_len) (parse_payload (first bytes) payload)
    else none
