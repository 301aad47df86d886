-- ===== src/Journal/Recover/Damage.antt =====
-- What a damaged or misplaced frame does to the replay.
use driftbrake.Base.{
  ℕ, ◌+◌, ◌%◌, ◌^◌, ◌≤◌, ◌<◌, ◌≡◌, ◌≢◌, sym, ap, ◌∙◌, false, List, ◌∷◌, ◌++◌, none, length, drop,
  All, All-append, ◌==◌, arith, length-append, take-append, drop-append,
}
use driftbrake.Base.Bytes.{IsByte, to_be, of_be, slice, length-to_be, of_be-to_be}
use driftbrake.Core.History.{new}
use driftbrake.Core.History.Timeline.{push_all}
use driftbrake.Journal.Crc.{crc32}
use driftbrake.Journal.Crc.Laws.{crc32-IsU32, crc32_one_byte}
use driftbrake.Journal.Frame.{header_size, next_frame}
use driftbrake.Journal.Frame.RoundTrip.{drop_past, take_block, next_frame_parts}
use driftbrake.Journal.Recover.{recover}
use driftbrake.Journal.Recover.Laws.{Written, IsWritten, stored_entries, frames, replay-frames}

-- A frame whose length and checksum are those of another payload.
abbrev pub frame_for : ℕ → List ℕ → List ℕ → List ℕ
frame_for tag payload damaged =
    tag ∷ (to_be 4 (length payload % 2 ^ 32) ++ (to_be 4 (crc32 payload) ++ damaged))

module _ (tag : ℕ) (payload damaged rest : List ℕ) (same : length damaged ≡ length payload) where
  abbrev bytes : List ℕ
  bytes = frame_for tag payload (damaged ++ rest)

  frame_for-none :
      All IsByte payload
      → length payload < 2 ^ 32
      → crc32 damaged ≢ crc32 payload
      → next_frame bytes ≡ none
  frame_for-none valid fits other =
      next_frame_parts bytes damaged rest long len body ∙ rw (crc, differs)
    where
      after_length : drop 5 bytes ≡ to_be 4 (crc32 payload) ++ (damaged ++ rest)
      after_length = drop-append 4 (to_be 4 (length payload % 2 ^ 32)) _ (length-to_be 4 _)

      body : drop 9 bytes ≡ damaged ++ rest
      body =
          drop_past 4 4 (to_be 4 (length payload % 2 ^ 32)) _ (length-to_be 4 _)
          ∙ drop-append 4 (to_be 4 (crc32 payload)) _ (length-to_be 4 _)

      len : of_be (slice 1 5 bytes) ≡ length damaged
      len =
          ap of_be (take-append 4 (to_be 4 (length payload % 2 ^ 32)) _ (length-to_be 4 _))
          ∙ of_be-to_be 4 (length payload % 2 ^ 32) (omega arith)
          ∙ omega arith

      crc : of_be (slice 5 9 bytes) ≡ crc32 payload
      crc =
          ap of_be (
            take_block 4 _ (to_be 4 (crc32 payload)) (damaged ++ rest) after_length
              (length-to_be 4 _))
          ∙ of_be-to_be 4 (crc32 payload) (omega (arith, crc32-IsU32 payload valid))

      differs : (crc32 damaged == crc32 payload) ≡ false
      differs = ground (arith, other)

      long : 9 ≤ length bytes
      long = omega (
        arith,
        length-append (to_be 4 (length payload % 2 ^ 32))
            (to_be 4 (crc32 payload) ++ (damaged ++ rest)),
        length-append (to_be 4 (crc32 payload)) (damaged ++ rest),
        length-to_be 4 (length payload % 2 ^ 32),
        length-to_be 4 (crc32 payload),
      )

-- A frame one byte of whose payload was changed is never replayed: the replay returns the entries
-- before it, each as it is stored, and an offset at which it and all that follows it is cut off.
pub recover_one_byte :
    (written : Written) (tag : ℕ) (front back rest : List ℕ) (x y : ℕ)
    → IsWritten written
    → All IsByte front
    → All IsByte back
    → IsByte x
    → IsByte y
    → x ≢ y
    → length (front ++ (x ∷ back)) < 2 ^ 32
    → recover
        (frames written ++ frame_for tag (front ++ (x ∷ back)) ((front ++ (y ∷ back)) ++ rest))
      ≡ (push_all new (stored_entries written), header_size + length (frames written))
unfolding recover
recover_one_byte written tag front back rest x y good bf bb bx by ne fits =
    replay-frames written _ _ new header_size good
      (frame_for-none tag (front ++ (x ∷ back)) (front ++ (y ∷ back)) rest
        (omega (arith, length-append front (x ∷ back), length-append front (y ∷ back)))
        (All-append IsByte front (x ∷ back) bf (bx, bb)) fits
        (crc32_one_byte front back y x bf bb by bx (λ e. ne (sym e))))
      (omega arith)
