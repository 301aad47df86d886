-- ===== src/Journal/File.antt =====
-- journal/src/lib.rs: the journal file, its lock file, and the operations of `JournaledHistory`.
pub mod Sessions
pub mod Torn
pub mod Locks
pub mod Compaction
use driftbrake.Base.{
  ℕ, zero, suc, ◌+◌, ◌-◌, Bool, true, false, List, [], ◌∷◌, ◌++◌, Option, none, some, length, take,
  drop, all, ltb, leb, ◌==◌, if◌then◌else◌,
}
use driftbrake.Base.Bytes.{of_be, slice}
use driftbrake.Core.Types.{
  PredictedProfit, RealizedProfit, RevertEvent, HistoryEntry, confirmed_pair, reverted_tx,
  ReconcileHistory,
}
use driftbrake.Core.History.{new, append, record_revert}
use driftbrake.Journal.Frame.{magic, current_version, header_size, header, entry_frame}
use driftbrake.Journal.Recover.{recover}

pub data JournalError : Type 0 where
  io invalid_magic : JournalError
  unsupported_version : ℕ → JournalError
  checksum_mismatch : ℕ → JournalError
  already_locked : JournalError

pub data Result {ℓ} (A : Type ℓ) : Type ℓ where
  ok : A → Result A
  err : JournalError → Result A

-- What the paths of one journal hold: the journal file (an absent file is an empty one, since `open`
-- creates it), the lock file, and the temporary file of `compact`.
pub record Disk : Type 0 where
  pub journal : List ℕ
  pub locked : Bool
  pub compacted : Option (List ℕ)

-- The file handle stands at the end of the file.
pub record JournaledHistory : Type 0 where
  pub inner : ReconcileHistory
  pub max_retained_entries : ℕ

-- A fault of the device: the writes of an operation fail after that many bytes.
abbrev pub Fault : Type 0
Fault = Option ℕ

-- The version field of a header.
abbrev pub version_of : List ℕ → ℕ
version_of bytes = of_be (slice 4 6 bytes)

-- `header[0..4] == MAGIC`
abbrev pub same_bytes : List ℕ → List ℕ → Bool
same_bytes [] [] = true
same_bytes [] (y ∷ ys) = false
same_bytes (x ∷ xs) [] = false
same_bytes (x ∷ xs) (y ∷ ys) = if x == y then same_bytes xs ys else false

-- A failing `open_or_create` drops its lock guard.
abbrev pub write_header : Fault → ℕ → ℕ → Disk → Disk × Result JournaledHistory
write_header none now max disk = (
  record disk { journal = header now; locked = true },
  ok (record { inner = new; max_retained_entries = max }),
)
write_header (some n) now max disk =
    (record disk { journal = take n (header now); locked = false }, err io)

-- The header, the replay and the cut of an existing file, the lock being held.
abbrev pub read_journal : ℕ → Disk → Disk × Result JournaledHistory
read_journal max disk =
    let bytes = disk.journal in
    let replayed = recover (drop header_size bytes) in
    if ltb (length bytes) header_size
    then (record disk { locked = false }, err io)
    else if same_bytes (slice 0 4 bytes) magic
    then (if version_of bytes == current_version
        then (
          record disk { journal = take replayed.1 bytes; locked = true },
          ok (record { inner = replayed.0; max_retained_entries = max }),
        )
        else (record disk { locked = false }, err (unsupported_version (version_of bytes))))
    else (record disk { locked = false }, err invalid_magic)

unfoldable pub open_or_create : Fault → ℕ → ℕ → Disk → Disk × Result JournaledHistory
open_or_create fault now max disk =
    if disk.locked
    then (disk, err already_locked)
    else if length disk.journal == 0
    then write_header fault now max disk
    else read_journal max disk

-- `LockGuard::drop`, when the handle is dropped. A killed process does not run it.
unfoldable pub close : Disk → Disk
close disk = record disk { locked = false }

-- The new history of the handle: only a write that succeeded is recorded.
abbrev pub append_to : ReconcileHistory → HistoryEntry → ReconcileHistory
append_to inner (confirmed_pair p r) = append inner p r
append_to inner (reverted_tx event) = record_revert inner event

-- `append` and `record_revert`: the frame to the file, then the entry to the history.
unfoldable pub write_entry :
    Fault → ℕ → HistoryEntry → Disk × JournaledHistory → (Disk × JournaledHistory) × Result {0} Unit
write_entry none now entry (disk, handle) = (
  (
    record disk { journal = disk.journal ++ entry_frame entry now },
    record handle { inner = append_to handle.inner entry },
  ),
  ok tt,
)
write_entry (some n) now entry (disk, handle) =
    ((record disk { journal = disk.journal ++ take n (entry_frame entry now) }, handle), err io)

-- The body of the compacted file: the entries after the first `skip`, with time zero.
abbrev pub entry_frames : List HistoryEntry → List ℕ
entry_frames [] = []
entry_frames (entry ∷ rest) = entry_frame entry 0 ++ entry_frames rest

unfoldable pub compacted_bytes : ℕ → JournaledHistory → List ℕ
compacted_bytes now handle =
    let skip = length handle.inner.timeline - handle.max_retained_entries in
    header now ++ entry_frames (drop skip handle.inner.timeline)

abbrev pub write_compacted : Fault → List ℕ → Disk → Disk × Result {0} Unit
write_compacted none bytes disk = (record disk { journal = bytes; compacted = none }, ok tt)
write_compacted (some n) bytes disk = (record disk { compacted = some (take n bytes) }, err io)

-- The temporary file is written in full and renamed onto the journal, or the journal stays as it is.
unfoldable pub compact :
    Fault → ℕ → Disk × JournaledHistory → (Disk × JournaledHistory) × Result {0} Unit
unfolding compacted_bytes
compact fault now (disk, handle) =
    if leb (length handle.inner.timeline) handle.max_retained_entries
    then ((disk, handle), ok tt)
    else (let done = write_compacted fault (compacted_bytes now handle) disk in
        ((done.0, handle), done.1))
