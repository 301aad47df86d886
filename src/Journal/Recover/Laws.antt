-- ===== src/Journal/Recover/Laws.antt =====
-- What the replay finds: every whole frame in order, up to the first bytes that are no frame.
use driftbrake.Base.{
  ℕ, zero, suc, ◌+◌, ◌≤◌, ◌<◌, ◌≡◌, refl, ap, ◌∙◌, List, [], ◌∷◌, ◌++◌, map, none, some, length,
  drop, All, arith, append_assoc, length-append, drop-append,
}
use driftbrake.Base.Int.{IsI128}
use driftbrake.Core.Types.{HistoryEntry, confirmed_pair, reverted_tx, ReconcileHistory}
use driftbrake.Core.History.Timeline.{push, push_all}
use driftbrake.Journal.Frame.{
  tag_pair, tag_revert, pair_payload, reason_bytes, revert_payload, frame, entry_frame, next_frame,
}
use driftbrake.Journal.Frame.RoundTrip.{next_frame-pair, length-pair_payload}
use driftbrake.Journal.Frame.Revert.{
  IsRevertEvent, stored_event, length-reason_bytes, length-revert_payload, next_frame-revert,
}
use driftbrake.Journal.Frame.Prefix.{frame-length, next_frame-prefix}
use driftbrake.Journal.Recover.{replay}

-- The numbers of an entry are in the ranges of their Rust types.
abbrev pub IsStorable : HistoryEntry → Type 0
IsStorable (confirmed_pair p r) = IsI128 p.wei × IsI128 r.wei
IsStorable (reverted_tx event) = IsRevertEvent event

-- An entry as a restart finds it.
abbrev pub stored : HistoryEntry → HistoryEntry
stored (confirmed_pair p r) = confirmed_pair p r
stored (reverted_tx event) = reverted_tx (stored_event event)

-- Entries with the times at which they were written.
abbrev pub Written : Type 0
Written = List (HistoryEntry × ℕ)

abbrev pub IsWritten : Written → Type 0
IsWritten written = All (λ (w : HistoryEntry × ℕ). IsStorable w.0) written

abbrev pub stored_entries : Written → List HistoryEntry
stored_entries written = map (λ (w : HistoryEntry × ℕ). stored w.0) written

abbrev pub frames : Written → List ℕ
frames [] = []
frames ((entry, timestamp) ∷ written) = entry_frame entry timestamp ++ frames written

pub entry_frame-read :
    (entry : HistoryEntry) (timestamp : ℕ) (rest : List ℕ)
    → IsStorable entry
    → next_frame (entry_frame entry timestamp ++ rest)
      ≡ some (stored entry, length (entry_frame entry timestamp))
unfolding entry_frame
entry_frame-read (confirmed_pair p r) timestamp rest ok =
    let e : length (frame tag_pair (pair_payload p r timestamp)) ≡ 49 = omega (
      arith,
      frame-length tag_pair (pair_payload p r timestamp),
      length-pair_payload p r timestamp,
    ) in
    rw e (next_frame-pair p r timestamp rest ok.0 ok.1)
entry_frame-read (reverted_tx event) timestamp rest ok =
    let e : length (frame tag_revert (revert_payload event timestamp))
        ≡ 83 + length (reason_bytes event.reason) =
      omega (
        arith,
        frame-length tag_revert (revert_payload event timestamp),
        length-revert_payload event timestamp ok,
      ) in
    rw e (next_frame-revert event timestamp rest ok)

-- A proper prefix of the frame of an entry is not read.
pub entry_frame-prefix :
    (entry : HistoryEntry) (timestamp : ℕ) (front back : List ℕ)
    → IsStorable entry
    → front ++ back ≡ entry_frame entry timestamp
    → 0 < length back
    → next_frame front ≡ none
unfolding entry_frame
entry_frame-prefix (confirmed_pair p r) timestamp front back ok =
    next_frame-prefix tag_pair (pair_payload p r timestamp) front back
      (omega (arith, length-pair_payload p r timestamp))
entry_frame-prefix (reverted_tx event) timestamp front back ok =
    next_frame-prefix tag_revert (revert_payload event timestamp) front back
      (omega (arith, length-revert_payload event timestamp ok, length-reason_bytes event.reason))

pub entry_frame_long :
    (entry : HistoryEntry) (timestamp : ℕ) → 9 ≤ length (entry_frame entry timestamp)
unfolding entry_frame
entry_frame_long (confirmed_pair p r) timestamp =
    omega (arith, frame-length tag_pair (pair_payload p r timestamp))
entry_frame_long (reverted_tx event) timestamp =
    omega (arith, frame-length tag_revert (revert_payload event timestamp))

pub replay_next :
    (fuel : ℕ) (bytes : List ℕ) (inner : ReconcileHistory) (offset : ℕ) (entry : HistoryEntry)
    (size : ℕ)
    → next_frame bytes ≡ some (entry, size)
    → replay (suc fuel) bytes inner offset
      ≡ replay fuel (drop size bytes) (push inner entry) (offset + size)
unfolding replay
replay_next fuel bytes inner offset entry size e = rw (replay, e)

pub replay_end :
    (fuel : ℕ) (bytes : List ℕ) (inner : ReconcileHistory) (offset : ℕ)
    → next_frame bytes ≡ none
    → replay fuel bytes inner offset ≡ (inner, offset)
unfolding replay
replay_end zero bytes inner offset e = refl
replay_end (suc fuel) bytes inner offset e = rw (replay, e)

-- Frames that were written are replayed one after the other, up to bytes that are no frame.
pub replay-frames :
    (written : Written) (fuel : ℕ) (tail : List ℕ) (inner : ReconcileHistory) (offset : ℕ)
    → IsWritten written
    → next_frame tail ≡ none
    → length (frames written ++ tail) ≤ fuel
    → replay fuel (frames written ++ tail) inner offset
      ≡ (push_all inner (stored_entries written), offset + length (frames written))
unfolding push_all
replay-frames [] fuel tail inner offset ok stop enough =
    let e : offset + 0 ≡ offset = omega arith in rw e (replay_end fuel tail inner offset stop)
replay-frames ((entry, timestamp) ∷ written) zero tail inner offset ok stop enough = absurd (
    omega (
      arith,
      entry_frame_long entry timestamp,
      length-append (entry_frame entry timestamp ++ frames written) tail,
      length-append (entry_frame entry timestamp) (frames written),
    ))
replay-frames ((entry, timestamp) ∷ written) (suc fuel) tail inner offset ok stop enough =
    ap (λ (b : List ℕ). replay (suc fuel) b inner offset) regroup
    ∙ replay_next fuel (this ++ (frames written ++ tail)) inner offset (stored entry) (length this)
        (entry_frame-read entry timestamp (frames written ++ tail) ok.0)
    ∙ ap (λ (b : List ℕ). replay fuel b (push inner (stored entry)) (offset + length this))
        (drop-append (length this) this (frames written ++ tail) refl)
    ∙ replay-frames written fuel tail (push inner (stored entry)) (offset + length this) ok.1 stop (
        omega (
          arith,
          entry_frame_long entry timestamp,
          length-append this (frames written ++ tail),
          ap length regroup,
        ))
    ∙ (let e : offset + length this + length (frames written)
            ≡ offset + length (this ++ frames written) =
          omega (arith, length-append this (frames written)) in
        rw e)
  where
    this : List ℕ
    this = entry_frame entry timestamp

    regroup : (this ++ frames written) ++ tail ≡ this ++ (frames written ++ tail)
    regroup = append_assoc this (frames written) tail
