-- ===== src/Tests/Journals.antt =====
-- Journals with a pair and a revert.
use driftbrake.Base.{
  false, ℕ, zero, suc, ◌+◌, ◌≡◌, refl, sym, append-nil, true, List, [], ◌∷◌, ◌++◌, map, All, none,
  some, length, take_last, take, drop, replicate, arith,
}
use driftbrake.Base.Bytes.{IsByte}
use driftbrake.Core.Types.{HistoryEntry, confirmed_pair, reverted_tx}
use driftbrake.Core.History.{new}
use driftbrake.Core.History.Timeline.{push_all}
use driftbrake.Journal.Frame.{
  header_size, header, tag_pair, tag_revert, pair_payload, revert_payload, reason_bytes, frame,
  next_frame,
}
use driftbrake.Journal.Frame.Revert.{IsRevertEvent, stored_event, next_frame-revert}
use driftbrake.Journal.Recover.{recover}
use driftbrake.Journal.Recover.Laws.{
  stored, Written, IsWritten, stored_entries, frames, entry_frame_long,
}
use driftbrake.Journal.Recover.Stops.{Frames, recover_ends}
use driftbrake.Journal.Recover.Damage.{frame_for, recover_one_byte}
use driftbrake.Journal.File.{
  Disk, JournaledHistory, Result, ok, err, io, already_locked, open_or_create, close, write_entry,
  compact,
}
use driftbrake.Journal.File.Sessions.{write_all, reopened, reopen-torn}
use driftbrake.Journal.File.Torn.{open-torn_header, append_after_torn}
use driftbrake.Journal.File.Locks.{write, compaction, run_all, open_while_locked}
use driftbrake.Journal.File.Compaction.{compact_lem}
use driftbrake.Tests.Sample.{predicted, realized, revert, entries}

zeros-IsByte : (n : ℕ) → All IsByte (replicate n 0)
zeros-IsByte zero = tt
zeros-IsByte (suc n) = (omega arith, zeros-IsByte n)

revert-IsRevertEvent : IsRevertEvent revert
revert-IsRevertEvent =
    (refl, zeros-IsByte 32, omega arith, omega arith, omega arith, (omega arith, (omega arith, tt)))

next_frame-revert_example :
    next_frame (frame tag_revert (revert_payload revert 5) ++ (1 ∷ []))
    ≡ some (reverted_tx (stored_event revert), 83 + length (reason_bytes revert.reason))
next_frame-revert_example = next_frame-revert revert 5 (1 ∷ []) revert-IsRevertEvent

abbrev pair_frame : List ℕ
pair_frame = frame tag_pair (pair_payload (predicted 100) (realized 40) 5)

-- Two entries that a process wrote.
abbrev written : Written
written = (confirmed_pair (predicted 100) (realized 40), 5) ∷ (reverted_tx revert, 6) ∷ []

written-IsWritten : IsWritten written
written-IsWritten = ((omega arith, omega arith), (revert-IsRevertEvent, tt))

recover_one_byte_example :
    recover (frames written ++ frame_for 1 (1 ∷ 2 ∷ 3 ∷ []) ((1 ∷ 7 ∷ 3 ∷ []) ++ (4 ∷ [])))
    ≡ (push_all new (stored_entries written), header_size + length (frames written))
recover_one_byte_example =
    recover_one_byte written 1 (1 ∷ []) (3 ∷ []) (4 ∷ []) 2 7 written-IsWritten (omega arith, tt)
      (omega arith, tt) (omega arith) (omega arith) (λ e. omega (arith, e)) (omega arith)

-- A fresh journal, in use.
abbrev fresh : Disk
fresh = record { journal = header 3; locked = true; compacted = none }

abbrev handle : JournaledHistory
handle = record { inner = new; max_retained_entries = 2 }

abbrev next_pair : HistoryEntry
next_pair = confirmed_pair (predicted 7) (realized 8)

header_only : header 3 ≡ header 3 ++ []
header_only = sym (append-nil (header 3))

reopen-torn_example :
    let crashed : Disk =
      (write_entry (some 8) 9 next_pair (write_all written (fresh, handle))).0.0 in
    open_or_create none 10 2 (close crashed) ≡ reopened 3 2 ([] ++ written) (close crashed)
reopen-torn_example =
    reopen-torn 3 [] written next_pair 9 8 fresh handle none 10 2 tt written-IsWritten
      (omega arith, omega arith) (omega (arith, entry_frame_long next_pair 9)) header_only

append_after_torn_example :
    let failed : Disk × JournaledHistory = (write_entry (some 1) 9 next_pair (fresh, handle)).0 in
    let appended : (Disk × JournaledHistory) × Result {0} Unit =
      write_entry none 11 next_pair failed in
    (appended.1 ≡ ok tt)
    × (open_or_create none 12 2 (close appended.0.0) ≡ reopened 3 2 [] (close appended.0.0))
append_after_torn_example =
    append_after_torn 3 [] next_pair (predicted 7) (realized 8) 9 11 fresh handle none 12 2 tt
      header_only

open_while_locked_example :
    let after : Disk =
      (run_all (write none 5 next_pair ∷ compaction none 6 ∷ []) (fresh, handle)).0 in
    open_or_create none 12 2 after ≡ (after, err already_locked)
open_while_locked_example =
    open_while_locked (write none 5 next_pair ∷ compaction none 6 ∷ []) fresh handle none 12 2 refl

-- A handle with one entry more than it retains.
abbrev filled : JournaledHistory
filled = record { inner = record new { timeline = entries }; max_retained_entries = 2 }

compact_lem_example :
    ((open_or_create none 20 2 (close (compact none 9 (fresh, filled)).0.0)).1
      ≡ ok (record {
        inner = push_all new (map stored (take_last 2 entries));
        max_retained_entries = 2;
      }))
    × ((compact (some 30) 9 (fresh, filled)).1 ≡ err io)
    × ((compact (some 30) 9 (fresh, filled)).0.0.journal ≡ header 3)
compact_lem_example =
    compact_lem 9 20 30 2 none fresh filled
      ((omega arith, omega arith), (revert-IsRevertEvent, ((omega arith, omega arith), tt)))
      (omega arith)

recover_ends_example :
    (found : List HistoryEntry) × (total : ℕ) × Frames (frames written ++ (1 ∷ 2 ∷ [])) found total
    × (next_frame (drop total (frames written ++ (1 ∷ 2 ∷ []))) ≡ none)
    × (recover (frames written ++ (1 ∷ 2 ∷ [])) ≡ (push_all new found, header_size + total))
recover_ends_example = recover_ends (frames written ++ (1 ∷ 2 ∷ []))

-- An absent journal, and nobody has it open.
abbrev absent : Disk
absent = record { journal = []; locked = false; compacted = none }

open-torn_header_example :
    let torn : Disk = record absent { journal = take 5 (header 3); locked = false } in
    (open_or_create (some 5) 3 2 absent ≡ (torn, err io))
    × (open_or_create none 4 2 torn ≡ (torn, err io))
open-torn_header_example =
    open-torn_header 5 3 4 2 none absent (omega arith) (omega arith) refl refl
