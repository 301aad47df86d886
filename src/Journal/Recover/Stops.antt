-- ===== src/Journal/Recover/Stops.antt =====
-- The replay of any bytes ends at bytes that are no frame: the fuel never runs out before.
use driftbrake.Base.{
  ℕ, zero, suc, ◌+◌, ◌≤◌, ◌≡◌, refl, ap, ◌∙◌, inl, inr, Bool, true, false, List, [], ◌∷◌, Option,
  none, some, length, take, drop, ltb, ◌==◌, if◌then◌else◌, arith, length-drop, Option-cases,
}
use driftbrake.Base.Bytes.{of_be, slice}
use driftbrake.Core.Types.{HistoryEntry, ReconcileHistory}
use driftbrake.Core.History.{new}
use driftbrake.Core.History.Timeline.{push, push_all}
use driftbrake.Journal.Frame.{header_size, with_size, next_frame}
use driftbrake.Journal.Crc.{crc32}
use driftbrake.Journal.Frame.Revert.{drop-drop}
use driftbrake.Journal.Recover.{replay, recover}
use driftbrake.Journal.Recover.Laws.{replay_next, replay_end}

with_size-some :
    (n m : ℕ) (parsed : Option HistoryEntry) (entry : HistoryEntry)
    → with_size n parsed ≡ some (entry, m)
    → m ≡ n
with_size-some n m none entry e = absurd (cc)
with_size-some n m (some parsed) entry e = cc

chosen :
    (short missing same : Bool) (n m : ℕ) (parsed : Option HistoryEntry) (entry : HistoryEntry)
    → (if short then none else if missing then none else if same then with_size n parsed else none)
      ≡ some (entry, m)
    → (short ≡ false) × (missing ≡ false) × (m ≡ n)
chosen true missing same n m parsed entry e = absurd (cc)
chosen false true same n m parsed entry e = absurd (cc)
chosen false false false n m parsed entry e = absurd (cc)
chosen false false true n m parsed entry e = (refl, refl, with_size-some n m parsed entry e)

-- A frame that is read has at least nine bytes, and no more than there are.
next_frame_size :
    (bytes : List ℕ) (entry : HistoryEntry) (size : ℕ)
    → next_frame bytes ≡ some (entry, size)
    → (9 ≤ size) × (size ≤ length bytes)
unfolding next_frame
next_frame_size bytes entry size e =
    let len : ℕ = of_be (slice 1 5 bytes) in
    let (long, there, same) =
      chosen (ltb (length bytes) 9) (ltb (length (drop 9 bytes)) (of_be (slice 1 5 bytes)))
        (crc32 (take (of_be (slice 1 5 bytes)) (drop 9 bytes)) == of_be (slice 5 9 bytes))
        (9 + of_be (slice 1 5 bytes)) size _ entry e in
    (omega arith, sizes (of_be (slice 1 5 bytes)) long there same)
  where
    sizes :
        (len : ℕ)
        → ltb (length bytes) 9 ≡ false
        → ltb (length (drop 9 bytes)) len ≡ false
        → size ≡ 9 + len
        → size ≤ length bytes
    sizes len long there same = ground (arith, length-drop 9 bytes)

-- The frames of these entries stand one after the other at the front of the bytes, and take so many bytes.
pub data Frames : List ℕ → List HistoryEntry → ℕ → Type 0 where
  no_frame : (bytes : List ℕ) → Frames bytes [] 0
  then_frame :
      (bytes : List ℕ) (entry : HistoryEntry) (size : ℕ) (entries : List HistoryEntry) (total : ℕ)
      → next_frame bytes ≡ some (entry, size)
      → Frames (drop size bytes) entries total
      → Frames bytes (entry ∷ entries) (size + total)

-- A run of the loop has pushed the entries of all the frames up to bytes that are no frame, and ends there.
abbrev Stops : ℕ → List ℕ → ReconcileHistory → ℕ → Type 0
Stops fuel bytes inner offset =
    (entries : List HistoryEntry) × (total : ℕ) × Frames bytes entries total
    × (next_frame (drop total bytes) ≡ none)
    × (replay fuel bytes inner offset ≡ (push_all inner entries, offset + total))

Stops-replay_end :
    (fuel : ℕ) (bytes : List ℕ) (inner : ReconcileHistory) (offset : ℕ)
    → next_frame bytes ≡ none
    → Stops fuel bytes inner offset
unfolding push_all
Stops-replay_end fuel bytes inner offset stop = (
  [],
  0,
  no_frame bytes,
  stop,
  replay_end fuel bytes inner offset stop ∙ ap (λ (n : ℕ). (inner, n)) (omega arith),
)

Stops-replay_next :
    (fuel : ℕ) (bytes : List ℕ) (inner : ReconcileHistory) (offset : ℕ) (entry : HistoryEntry)
    (size : ℕ)
    → next_frame bytes ≡ some (entry, size)
    → Stops fuel (drop size bytes) (push inner entry) (offset + size)
    → Stops (suc fuel) bytes inner offset
unfolding push_all
Stops-replay_next fuel bytes inner offset entry size e (entries, total, framed, stop, replayed) = (
  entry ∷ entries,
  size + total,
  then_frame bytes entry size entries total e framed,
  ap next_frame (drop-drop size total bytes) ∙ stop,
  replay_next fuel bytes inner offset entry size e
      ∙ replayed
      ∙ ap (λ (n : ℕ). (push_all (push inner entry) entries, n)) (omega arith),
)

-- With a round for each byte the loop ends where no frame can be read.
replay-Stops :
    (fuel : ℕ) (bytes : List ℕ) (inner : ReconcileHistory) (offset : ℕ)
    → length bytes ≤ fuel
    → Stops fuel bytes inner offset
replay-Stops zero bytes inner offset enough = elim (Option-cases (next_frame bytes)) [
  | inl stop ↦ Stops-replay_end zero bytes inner offset stop
  | inr ((entry, size), e) ↦ absurd (omega (arith, next_frame_size bytes entry size e))
]
replay-Stops (suc fuel) bytes inner offset enough = elim (Option-cases (next_frame bytes)) [
  | inl stop ↦ Stops-replay_end (suc fuel) bytes inner offset stop
  | inr ((entry, size), e) ↦ Stops-replay_next fuel bytes inner offset entry size e (
      replay-Stops fuel (drop size bytes) (push inner entry) (offset + size)
        (omega (arith, length-drop size bytes, next_frame_size bytes entry size e)))
]

-- Whatever bytes follow the header, there is a sequence of entries whose frames, each read by
-- `next_frame` where the one before ends, stand at the front of them, and after which no frame can be
-- read: the replay yields the history of exactly these entries in their order, and the offset behind the
-- last of their frames.
pub recover_ends :
    (bytes : List ℕ)
    → (entries : List HistoryEntry) × (total : ℕ) × Frames bytes entries total
      × (next_frame (drop total bytes) ≡ none)
      × (recover bytes ≡ (push_all new entries, header_size + total))
unfolding recover
recover_ends bytes = replay-Stops (length bytes) bytes new header_size (omega arith)
