-- ===== src/Journal/Frame/RoundTrip.antt =====
-- Reading back what was written.
use driftbrake.Base.{
  ℕ, zero, suc, ◌+◌, ◌%◌, ◌^◌, ◌≤◌, ◌<◌, ◌≡◌, refl, ap, ap₂, ◌∙◌, false, List, [], ◌∷◌, ◌++◌, none,
  some, length, take, drop, All, ltb, ◌==◌, ==_iff, if◌then◌else◌, arith, length-append,
  take-append, drop-append, All-append, append_assoc,
}
use driftbrake.Base.Bytes.{IsByte, to_be, of_be, slice, length-to_be, to_be-IsByte, of_be-to_be}
use driftbrake.Base.Int.{ℤ, IsI128, to_bits, of_bits, to_bits-lt, of_bits-to_bits}
use driftbrake.Core.Types.{PredictedProfit, RealizedProfit, confirmed_pair}
use driftbrake.Journal.Crc.{crc32}
use driftbrake.Journal.Crc.Laws.{crc32-IsU32}
use driftbrake.Journal.Frame.{
  tag_pair, pair_payload, frame, parse_pair, parse_payload, first, with_size, next_frame,
}

-- A block of known length in front is dropped; what follows is found by its own length.
pub drop_past : (m n : ℕ) (xs ys : List ℕ) → length xs ≡ m → drop (m + n) (xs ++ ys) ≡ drop n ys
drop_past zero n [] ys h = let e : 0 + n ≡ n = omega arith in rw e
drop_past zero n (x ∷ xs) ys h = absurd (omega arith)
drop_past (suc m) n [] ys h = absurd (omega arith)
drop_past (suc m) n (x ∷ xs) ys h =
    let e : suc m + n ≡ suc (m + n) = omega arith in rw e (drop_past m n xs ys (omega arith))

-- The first block of `n` bytes, after a drop that leaves it in front.
pub take_block :
    (n : ℕ) (bytes block rest : List ℕ)
    → bytes ≡ block ++ rest
    → length block ≡ n
    → take n bytes ≡ block
take_block n bytes block rest e h = ap (take n) e ∙ take-append n block rest h

-- What `next_frame` makes of bytes whose parts are known.
pub next_frame_parts :
    (bytes payload rest : List ℕ)
    → 9 ≤ length bytes
    → of_be (slice 1 5 bytes) ≡ length payload
    → drop 9 bytes ≡ payload ++ rest
    → next_frame bytes ≡ (
        if crc32 payload == of_be (slice 5 9 bytes)
        then with_size (9 + length payload) (parse_payload (first bytes) payload)
        else none)
unfolding next_frame
next_frame_parts bytes payload rest long len body =
    let enough : ltb (length bytes) 9 ≡ false = ground arith in
    let all_there : ltb (length (payload ++ rest)) (length payload) ≡ false =
      ground (arith, length-append payload rest) in
    rw (enough, body, len, all_there, take-append (length payload) payload rest refl)

module _ (tag : ℕ) (payload rest : List ℕ) where
  abbrev framed : List ℕ
  framed =
      tag ∷ (to_be 4 (length payload % 2 ^ 32) ++ (to_be 4 (crc32 payload) ++ (payload ++ rest)))

  frame-append : frame tag payload ++ rest ≡ framed
  unfolding frame
  frame-append =
      ap (λ (l : List ℕ). tag ∷ l)
        (append_assoc (to_be 4 (length payload % 2 ^ 32)) (to_be 4 (crc32 payload) ++ payload) rest
          ∙ ap (λ (l : List ℕ). to_be 4 (length payload % 2 ^ 32) ++ l)
              (append_assoc (to_be 4 (crc32 payload)) payload rest))

  after_length : drop 5 framed ≡ to_be 4 (crc32 payload) ++ (payload ++ rest)
  after_length = drop-append 4 (to_be 4 (length payload % 2 ^ 32)) _ (length-to_be 4 _)

  after_meta : drop 9 framed ≡ payload ++ rest
  after_meta =
      drop_past 4 4 (to_be 4 (length payload % 2 ^ 32)) _ (length-to_be 4 _)
      ∙ drop-append 4 (to_be 4 (crc32 payload)) _ (length-to_be 4 _)

  -- A frame around a payload whose length fits 32 bits is read as that payload, whatever follows.
  pub next_frame-frame :
      All IsByte payload
      → length payload < 2 ^ 32
      → next_frame (frame tag payload ++ rest)
        ≡ with_size (9 + length payload) (parse_payload tag payload)
  next_frame-frame bytes fits =
      ap next_frame frame-append
      ∙ next_frame_parts framed payload rest long len after_meta
      ∙ rw (crc, (==_iff (crc32 payload) (crc32 payload)).1 refl)
    where
      len : of_be (slice 1 5 framed) ≡ length payload
      len =
          ap of_be (take-append 4 (to_be 4 (length payload % 2 ^ 32)) _ (length-to_be 4 _))
          ∙ of_be-to_be 4 (length payload % 2 ^ 32) (omega arith)
          ∙ omega arith

      crc : of_be (slice 5 9 framed) ≡ crc32 payload
      crc =
          ap of_be (
            take_block 4 _ (to_be 4 (crc32 payload)) (payload ++ rest) after_length
              (length-to_be 4 _))
          ∙ of_be-to_be 4 (crc32 payload) (omega (arith, crc32-IsU32 payload bytes))

      long : 9 ≤ length framed
      long = omega (
        arith,
        length-append (to_be 4 (length payload % 2 ^ 32))
            (to_be 4 (crc32 payload) ++ (payload ++ rest)),
        length-append (to_be 4 (crc32 payload)) (payload ++ rest),
        length-to_be 4 (length payload % 2 ^ 32),
        length-to_be 4 (crc32 payload),
      )

-- The pair of a payload that `append` or `compact` wrote, with `i128` amounts.
parse_pair-pair_payload :
    (p : PredictedProfit) (r : RealizedProfit) (timestamp : ℕ)
    → IsI128 p.wei
    → IsI128 r.wei
    → parse_pair (pair_payload p r timestamp) ≡ confirmed_pair p r
unfolding parse_pair pair_payload
parse_pair-pair_payload p r timestamp hp hr =
    ap₂ (λ (a b : ℤ). confirmed_pair (record { wei = a }) (record { wei = b }))
      (ap of_bits (
          ap of_be (take-append 16 (to_be 16 (to_bits p.wei)) _ (length-to_be 16 _))
          ∙ of_be-to_be 16 (to_bits p.wei) (to_bits-lt p.wei))
        ∙ of_bits-to_bits p.wei hp)
      (ap of_bits (
          ap of_be (
            take_block 16 _ (to_be 16 (to_bits r.wei)) (to_be 8 timestamp)
              (drop-append 16 (to_be 16 (to_bits p.wei)) _ (length-to_be 16 _)) (length-to_be 16 _))
          ∙ of_be-to_be 16 (to_bits r.wei) (to_bits-lt r.wei))
        ∙ of_bits-to_bits r.wei hr)

pub length-pair_payload :
    (p : PredictedProfit) (r : RealizedProfit) (timestamp : ℕ)
    → length (pair_payload p r timestamp) ≡ 40
unfolding pair_payload
length-pair_payload p r timestamp = omega (
  arith,
  length-append (to_be 16 (to_bits p.wei)) (to_be 16 (to_bits r.wei) ++ to_be 8 timestamp),
  length-append (to_be 16 (to_bits r.wei)) (to_be 8 timestamp),
  length-to_be 16 (to_bits p.wei),
  length-to_be 16 (to_bits r.wei),
  length-to_be 8 timestamp,
)

pair_payload-IsByte :
    (p : PredictedProfit) (r : RealizedProfit) (timestamp : ℕ)
    → All IsByte (pair_payload p r timestamp)
unfolding pair_payload
pair_payload-IsByte p r timestamp =
    All-append IsByte (to_be 16 (to_bits p.wei)) _ (to_be-IsByte 16 _) (
      All-append IsByte (to_be 16 (to_bits r.wei)) _ (to_be-IsByte 16 _) (to_be-IsByte 8 timestamp))

-- The frame of a pair of `i128` amounts is read as that pair, whatever follows it.
pub next_frame-pair :
    (p : PredictedProfit) (r : RealizedProfit) (timestamp : ℕ) (rest : List ℕ)
    → IsI128 p.wei
    → IsI128 r.wei
    → next_frame (frame tag_pair (pair_payload p r timestamp) ++ rest)
      ≡ some (confirmed_pair p r, 49)
unfolding parse_payload
next_frame-pair p r timestamp rest hp hr =
    next_frame-frame tag_pair (pair_payload p r timestamp) rest (pair_payload-IsByte p r timestamp)
      (omega (arith, length-pair_payload p r timestamp))
    ∙ rw (length-pair_payload p r timestamp, parse_pair-pair_payload p r timestamp hp hr)
