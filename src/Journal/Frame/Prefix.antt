-- ===== src/Journal/Frame/Prefix.antt =====
-- What a write that was cut off leaves behind is not read as a frame.
use driftbrake.Base.{
  ℕ, ◌+◌, ◌%◌, ◌^◌, ◌≤◌, ◌<◌, ◌≡◌, sym, ap, ◌∙◌, true, false, List, [], ◌∷◌, ◌++◌, none, length,
  drop, ltb, arith, length-append, length-drop, take-append, take-append_le,
}
use native.Mathlib.Decide.{dec_le}
use driftbrake.Base.Bytes.{to_be, of_be, slice, length-to_be, of_be-to_be}
use driftbrake.Journal.Crc.{crc32}
use driftbrake.Journal.Frame.{frame, next_frame}

pub frame-length : (tag : ℕ) (payload : List ℕ) → length (frame tag payload) ≡ 9 + length payload
unfolding frame
frame-length tag payload = omega (
  arith,
  length-append (to_be 4 (length payload % 2 ^ 32)) (to_be 4 (crc32 payload) ++ payload),
  length-append (to_be 4 (crc32 payload)) payload,
  length-to_be 4 (length payload % 2 ^ 32),
  length-to_be 4 (crc32 payload),
)

frame_says_length :
    (tag : ℕ) (payload : List ℕ)
    → length payload < 2 ^ 32
    → of_be (slice 1 5 (frame tag payload)) ≡ length payload
unfolding frame
frame_says_length tag payload fits =
    ap of_be (take-append 4 (to_be 4 (length payload % 2 ^ 32)) _ (length-to_be 4 _))
    ∙ of_be-to_be 4 (length payload % 2 ^ 32) (omega arith)
    ∙ omega arith

slice-append :
    (front back : List ℕ) → 9 ≤ length front → slice 1 5 (front ++ back) ≡ slice 1 5 front
slice-append [] back h = absurd (omega arith)
slice-append (b ∷ front) back h = take-append_le 4 front back (omega arith)

-- A proper prefix of a frame whose payload length fits 32 bits is no frame, wherever it is cut.
pub next_frame-prefix :
    (tag : ℕ) (payload front back : List ℕ)
    → length payload < 2 ^ 32
    → front ++ back ≡ frame tag payload
    → 0 < length back
    → next_frame front ≡ none
unfolding next_frame
next_frame-prefix tag payload front back fits e cut = elim (dec_le 9 (length front)) [
  | no short ↦ (let b : ltb (length front) 9 ≡ true = ground arith in rw b)
  | yes long ↦
      (let len : of_be (slice 1 5 front) ≡ length payload =
          ap of_be (sym (slice-append front back long))
          ∙ ap (λ (l : List ℕ). of_be (slice 1 5 l)) e
          ∙ frame_says_length tag payload fits in
        let enough : ltb (length front) 9 ≡ false = ground arith in
        let missing : ltb (length (drop 9 front)) (length payload) ≡ true = ground (
          arith,
          length-drop 9 front,
          length-append front back,
          ap length e,
          frame-length tag payload,
        ) in
        rw (enough, len, missing))
]
