-- ===== src/Journal/File/Sessions.antt =====
-- One process after the other: what a restart finds of what was written before.
use driftbrake.Base.{
  ℕ, ◌+◌, ◌<◌, ◌≡◌, refl, sym, ap, ◌∙◌, true, false, List, [], ◌∷◌, ◌++◌, none, some, length, take,
  drop, ltb, ◌==◌, arith, append_assoc, append-nil, length-append, take-append, drop-append,
  take-append-drop, length-drop, All-append,
}
use driftbrake.Base.Bytes.{to_be, of_be, of_be_from, slice, length-to_be}
use driftbrake.Core.Types.{HistoryEntry}
use driftbrake.Core.History.{new}
use driftbrake.Core.History.Timeline.{push_all}
use driftbrake.Journal.Frame.{magic, current_version, header_size, header, entry_frame, next_frame}
use driftbrake.Journal.Recover.{recover}
use driftbrake.Journal.Recover.Laws.{
  IsStorable, Written, IsWritten, stored_entries, frames, entry_frame-prefix, replay-frames,
}
use driftbrake.Journal.File.{
  Disk, JournaledHistory, Fault, Result, ok, version_of, same_bytes, open_or_create, close,
  write_entry,
}

pub length-header : (now : ℕ) → length (header now) ≡ 16
unfolding header
length-header now = omega (
  arith,
  length-append (to_be 2 1) (to_be 2 0 ++ to_be 8 now),
  length-append (to_be 2 0) (to_be 8 now),
  length-to_be 2 1,
  length-to_be 2 0,
  length-to_be 8 now,
)

header-magic : (now : ℕ) (rest : List ℕ) → same_bytes (slice 0 4 (header now ++ rest)) magic ≡ true
unfolding header
header-magic now rest = refl

header-version : (now : ℕ) (rest : List ℕ) → version_of (header now ++ rest) ≡ current_version
unfolding header to_be of_be of_be_from
header-version now rest = refl

header-recover :
    (t : ℕ) (written : Written) (front : List ℕ)
    → IsWritten written
    → next_frame front ≡ none
    → recover (drop header_size (header t ++ (frames written ++ front)))
      ≡ (push_all new (stored_entries written), header_size + length (frames written))
unfolding recover
header-recover t written front good stop =
    ap recover (drop-append 16 (header t) (frames written ++ front) (length-header t))
    ∙ replay-frames written (length (frames written ++ front)) front new header_size good stop
        (omega arith)

-- The handle and the file after an open that replayed `written`.
abbrev pub reopened : ℕ → ℕ → Written → Disk → Disk × Result JournaledHistory
reopened t max written disk = (
  record disk { journal = header t ++ frames written; locked = true },
  ok (record { inner = push_all new (stored_entries written); max_retained_entries = max }),
)

-- A journal of whole frames and a rest that is no frame: the frames are replayed, the rest is cut.
pub open-journal :
    (fault : Fault) (now max t : ℕ) (written : Written) (front : List ℕ) (disk : Disk)
    → IsWritten written
    → next_frame front ≡ none
    → disk.locked ≡ false
    → disk.journal ≡ header t ++ (frames written ++ front)
    → open_or_create fault now max disk ≡ reopened t max written disk
unfolding open_or_create
open-journal fault now max t written front disk good stop free content = rw (
  free,
  content,
  nonempty,
  long,
  header-magic t (frames written ++ front),
  header-version t (frames written ++ front),
  header-recover t written front good stop,
  cut,
)
  where
    bytes : List ℕ
    bytes = header t ++ (frames written ++ front)

    long : ltb (length (header t ++ (frames written ++ front))) header_size ≡ false
    long = ground (arith, length-append (header t) (frames written ++ front), length-header t)

    nonempty : (length (header t ++ (frames written ++ front)) == 0) ≡ false
    nonempty = ground (arith, length-append (header t) (frames written ++ front), length-header t)

    cut :
        take (header_size + length (frames written)) (header t ++ (frames written ++ front))
        ≡ header t ++ frames written
    cut =
        ap (take (header_size + length (frames written)))
          (sym (append_assoc (header t) (frames written) front))
        ∙ take-append (header_size + length (frames written)) (header t ++ frames written) front
            (omega (arith, length-append (header t) (frames written), length-header t))

-- Entries written one after the other by one process, without a fault.
abbrev pub write_all : Written → Disk × JournaledHistory → Disk × JournaledHistory
write_all [] state = state
write_all ((entry, time) ∷ written) state = write_all written (write_entry none time entry state).0

frames-append : (xs ys : Written) → frames (xs ++ ys) ≡ frames xs ++ frames ys
frames-append [] ys = refl
frames-append ((entry, time) ∷ xs) ys =
    ap (λ (l : List ℕ). entry_frame entry time ++ l) (frames-append xs ys)
    ∙ sym (append_assoc (entry_frame entry time) (frames xs) (frames ys))

write_all-journal :
    (written : Written) (state : Disk × JournaledHistory)
    → (write_all written state).0.journal ≡ state.0.journal ++ frames written
unfolding write_entry
write_all-journal [] state = sym (append-nil state.0.journal)
write_all-journal ((entry, time) ∷ written) state =
    write_all-journal written (write_entry none time entry state).0
    ∙ append_assoc state.0.journal (entry_frame entry time) (frames written)

-- A process opens a journal that holds the frames of `before`, writes the entries of `written`, and
-- its last write stops after `n` bytes, fewer than the frame has (none at all is a clean stop). When
-- the lock file is gone, the next open returns the history of exactly the entries of `before` and
-- `written`, in order and each as it is stored, and leaves exactly their frames in the file.
pub reopen-torn :
    (t : ℕ) (before written : Written) (entry : HistoryEntry) (time n : ℕ) (disk : Disk)
    (handle : JournaledHistory) (fault : Fault) (now max : ℕ)
    → IsWritten before
    → IsWritten written
    → IsStorable entry
    → n < length (entry_frame entry time)
    → disk.journal ≡ header t ++ frames before
    → let crashed : Disk =
        (write_entry (some n) time entry (write_all written (disk, handle))).0.0 in
      open_or_create fault now max (close crashed)
      ≡ reopened t max (before ++ written) (close crashed)
unfolding write_entry close
reopen-torn t before written entry time n disk handle fault now max hb hw he short content =
    open-journal fault now max t (before ++ written) (take n (entry_frame entry time)) _
      (All-append (λ (w : HistoryEntry × ℕ). IsStorable w.0) before written hb hw)
      (entry_frame-prefix entry time (take n (entry_frame entry time))
        (drop n (entry_frame entry time)) he (take-append-drop n (entry_frame entry time))
        (omega (arith, length-drop n (entry_frame entry time))))
      refl
      (ap (λ (l : List ℕ). l ++ torn)
          (write_all-journal written (disk, handle)
            ∙ ap (λ (l : List ℕ). l ++ frames written) content)
        ∙ ap (λ (l : List ℕ). l ++ torn) (append_assoc (header t) (frames before) (frames written))
        ∙ append_assoc (header t) (frames before ++ frames written) torn
        ∙ ap (λ (l : List ℕ). header t ++ (l ++ torn)) (sym (frames-append before written)))
  where
    torn : List ℕ
    torn = take n (entry_frame entry time)
