-- ===== src/Journal/File/Torn.antt =====
-- What a write leaves that stopped after its first bytes, and the handle stays in use.
use driftbrake.Base.{
  ℕ, ◌^◌, ◌<◌, ◌≡◌, refl, ap₂, ◌∙◌, true, false, List, [], ◌∷◌, ◌++◌, none, some, length, take,
  drop, ltb, ◌==◌, arith, append_assoc, length-drop, length-take,
}
use driftbrake.Base.Bytes.{to_be, of_be, of_be_from, slice}
use driftbrake.Core.Types.{
  PredictedProfit, RealizedProfit, HistoryEntry, confirmed_pair, reverted_tx,
}
use driftbrake.Journal.Frame.{
  header_size, header, tag_pair, tag_revert, pair_payload, frame, entry_frame, next_frame,
}
use driftbrake.Journal.Frame.RoundTrip.{length-pair_payload}
use driftbrake.Journal.Frame.Prefix.{frame-length}
use driftbrake.Journal.Recover.Laws.{Written, IsWritten, frames}
use driftbrake.Journal.File.{
  Disk, JournaledHistory, Fault, Result, ok, err, io, open_or_create, close, write_entry,
}
use driftbrake.Journal.File.Sessions.{length-header, open-journal, reopened}

-- A pair frame read from one byte too early: the length is read as 2 ^ 24.
misplaced_length :
    (b time : ℕ) (p : PredictedProfit) (r : RealizedProfit)
    → of_be (slice 1 5 (b ∷ entry_frame (confirmed_pair p r) time)) ≡ 2 ^ 24
unfolding entry_frame frame to_be of_be of_be_from
misplaced_length b time p r = rw (length-pair_payload p r time)

pair_frame_length :
    (p : PredictedProfit) (r : RealizedProfit) (time : ℕ)
    → length (entry_frame (confirmed_pair p r) time) ≡ 49
unfolding entry_frame
pair_frame_length p r time =
    omega (arith, frame-length tag_pair (pair_payload p r time), length-pair_payload p r time)

misplaced :
    (b time : ℕ) (p : PredictedProfit) (r : RealizedProfit)
    → next_frame (b ∷ entry_frame (confirmed_pair p r) time) ≡ none
unfolding next_frame
misplaced b time p r =
    let size : length (entry_frame (confirmed_pair p r) time) ≡ 49 = pair_frame_length p r time in
    let enough : ltb (length (b ∷ entry_frame (confirmed_pair p r) time)) 9 ≡ false =
      ground arith in
    let missing : ltb (length (drop 9 (b ∷ entry_frame (confirmed_pair p r) time))) (2 ^ 24)
        ≡ true =
      ground (arith, length-drop 9 (b ∷ entry_frame (confirmed_pair p r) time)) in
    rw (enough, misplaced_length b time p r, missing)

tag_of : HistoryEntry → ℕ
tag_of (confirmed_pair p r) = tag_pair
tag_of (reverted_tx event) = tag_revert

torn_tag : (entry : HistoryEntry) (time : ℕ) → take 1 (entry_frame entry time) ≡ tag_of entry ∷ []
unfolding entry_frame frame tag_of
torn_tag (confirmed_pair p r) time = refl
torn_tag (reverted_tx event) time = refl

-- After a write that failed when its first byte was in the file, a pair is appended without an error;
-- the next open finds the entries before, and the pair is lost.
pub append_after_torn :
    (t : ℕ) (before : Written) (entry : HistoryEntry) (p : PredictedProfit) (r : RealizedProfit)
    (time later : ℕ) (disk : Disk) (handle : JournaledHistory) (fault : Fault) (now max : ℕ)
    → IsWritten before
    → disk.journal ≡ header t ++ frames before
    → let failed : Disk × JournaledHistory = (write_entry (some 1) time entry (disk, handle)).0 in
      let appended : (Disk × JournaledHistory) × Result {0} Unit =
        write_entry none later (confirmed_pair p r) failed in
      (appended.1 ≡ ok tt)
      × (open_or_create fault now max (close appended.0.0)
          ≡ reopened t max before (close appended.0.0))
unfolding write_entry close
append_after_torn t before entry p r time later disk handle fault now max good content = (
  refl,
  open-journal fault now max t before (tag_of entry ∷ entry_frame (confirmed_pair p r) later) _ good
      (misplaced (tag_of entry) later p r) refl
      (ap₂ (λ (a b : List ℕ). (a ++ b) ++ entry_frame (confirmed_pair p r) later) content
          (torn_tag entry time)
        ∙ append_assoc (header t ++ frames before) (tag_of entry ∷ []) _
        ∙ append_assoc (header t) (frames before) _),
)

-- Where the creation of a journal stops inside of its header, with at least one byte in the file, it and
-- every later open fail with an `Io` error, and the file stays as it is.
pub open-torn_header :
    (n now later max : ℕ) (fault : Fault) (disk : Disk)
    → 0 < n
    → n < 16
    → disk.locked ≡ false
    → disk.journal ≡ []
    → let torn : Disk = record disk { journal = take n (header now); locked = false } in
      (open_or_create (some n) now max disk ≡ (torn, err io))
      × (open_or_create fault later max torn ≡ (torn, err io))
unfolding open_or_create
open-torn_header n now later max fault disk some_bytes short free content =
    let empty : (length (take n (header now)) == 0) ≡ false =
      ground (arith, length-take n (header now), length-header now) in
    let cut : ltb (length (take n (header now))) header_size ≡ true =
      ground (arith, length-take n (header now), length-header now) in
    (rw (free, content), rw (empty, cut))
