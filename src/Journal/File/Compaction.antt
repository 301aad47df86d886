-- ===== src/Journal/File/Compaction.antt =====
-- The journal after a compaction.
use driftbrake.Base.{
  ℕ, zero, suc, ◌<◌, ◌≡◌, refl, sym, ap, ◌∙◌, false, List, [], ◌∷◌, ◌++◌, map, none, some, length,
  drop, take_last, All, leb, arith, append-nil,
}
use driftbrake.Core.Types.{HistoryEntry}
use driftbrake.Core.History.{new}
use driftbrake.Core.History.Timeline.{push_all}
use driftbrake.Journal.Frame.{header, entry_frame, next_frame}
use driftbrake.Journal.Recover.Laws.{IsStorable, stored, Written, IsWritten, stored_entries, frames}
use driftbrake.Journal.File.{
  Disk, JournaledHistory, Fault, Result, ok, open_or_create, close, entry_frames, compacted_bytes,
  compact, err, io,
}
use driftbrake.Journal.File.Sessions.{open-journal}

abbrev timeless : List HistoryEntry → Written
timeless [] = []
timeless (entry ∷ rest) = (entry, 0) ∷ timeless rest

entry_frames_lem : (entries : List HistoryEntry) → entry_frames entries ≡ frames (timeless entries)
entry_frames_lem [] = refl
entry_frames_lem (entry ∷ rest) =
    ap (λ (l : List ℕ). entry_frame entry 0 ++ l) (entry_frames_lem rest)

stored_entries-timeless :
    (entries : List HistoryEntry) → stored_entries (timeless entries) ≡ map stored entries
stored_entries-timeless [] = refl
stored_entries-timeless (entry ∷ rest) =
    ap (λ (l : List HistoryEntry). stored entry ∷ l) (stored_entries-timeless rest)

timeless-IsWritten :
    (entries : List HistoryEntry) → All IsStorable entries → IsWritten (timeless entries)
timeless-IsWritten [] h = tt
timeless-IsWritten (entry ∷ rest) h = (h.0, timeless-IsWritten rest h.1)

All-drop :
    (n : ℕ) (entries : List HistoryEntry) → All IsStorable entries → All IsStorable (drop n entries)
All-drop zero entries h = h
All-drop (suc n) [] h = tt
All-drop (suc n) (entry ∷ rest) h = All-drop n rest h.1

nothing_follows : next_frame [] ≡ none
unfolding next_frame
nothing_follows = refl

-- Where the history has more entries than the handle retains, and all are storable, a compaction without a fault is followed,
-- after the handle is dropped, by an open that returns the history of the last
-- `max_retained_entries` entries, each as it is stored. A compaction with a fault reports the error
-- and leaves the journal file as it was.
pub compact_lem :
    (now t n max : ℕ) (fault : Fault) (disk : Disk) (handle : JournaledHistory)
    → All IsStorable handle.inner.timeline
    → handle.max_retained_entries < length handle.inner.timeline
    → ((open_or_create fault t max (close (compact none now (disk, handle)).0.0)).1
        ≡ ok (record {
          inner =
              push_all new
                (map stored (take_last handle.max_retained_entries handle.inner.timeline));
          max_retained_entries = max;
        }))
      × ((compact (some n) now (disk, handle)).1 ≡ err io)
      × ((compact (some n) now (disk, handle)).0.0.journal ≡ disk.journal)
unfolding compact close compacted_bytes
compact_lem now t n max fault disk handle storable more = (first, rw exceeds, rw exceeds)
  where
    kept : List HistoryEntry
    kept = take_last handle.max_retained_entries handle.inner.timeline

    exceeds : leb (length handle.inner.timeline) handle.max_retained_entries ≡ false
    exceeds = ground arith

    first :
        (open_or_create fault t max (close (compact none now (disk, handle)).0.0)).1
        ≡ ok (record { inner = push_all new (map stored kept); max_retained_entries = max })
    first = rw exceeds (
        ap (λ (p : Disk × Result JournaledHistory). p.1)
          (open-journal fault t max now (timeless kept) [] _
            (timeless-IsWritten kept (All-drop _ handle.inner.timeline storable)) nothing_follows
            refl
            (ap (λ (l : List ℕ). header now ++ l)
              (entry_frames_lem kept ∙ sym (append-nil (frames (timeless kept))))))
        ∙ ap
            (λ (l : List HistoryEntry).
              ok (record { inner = push_all new l; max_retained_entries = max }))
            (stored_entries-timeless kept))
