-- ===== src/Journal/File/Locks.antt =====
-- The lock file while a handle is open, and after its process was killed.
use driftbrake.Base.{ℕ, ◌≡◌, refl, ◌∙◌, true, List, [], ◌∷◌, none, some, arith}
use driftbrake.Core.Types.{HistoryEntry}
use driftbrake.Journal.File.{
  Disk, JournaledHistory, Fault, err, already_locked, open_or_create, write_entry, write_compacted,
  compacted_bytes, compact,
}

-- What a process does with an open handle.
pub data Operation : Type 0 where
  write : Fault → ℕ → HistoryEntry → Operation
  compaction : Fault → ℕ → Operation

abbrev pub run : Operation → Disk × JournaledHistory → Disk × JournaledHistory
run (write fault now entry) state = (write_entry fault now entry state).0
run (compaction fault now) state = (compact fault now state).0

abbrev pub run_all : List Operation → Disk × JournaledHistory → Disk × JournaledHistory
run_all [] state = state
run_all (operation ∷ rest) state = run_all rest (run operation state)

compacted-locked :
    (fault : Fault) (bytes : List ℕ) (disk : Disk)
    → (write_compacted fault bytes disk).0.locked ≡ disk.locked
compacted-locked none bytes disk = refl
compacted-locked (some n) bytes disk = refl

run-locked :
    (operation : Operation) (state : Disk × JournaledHistory)
    → (run operation state).0.locked ≡ state.0.locked
unfolding write_entry compact
run-locked (write none now entry) state = refl
run-locked (write (some n) now entry) state = refl
run-locked (compaction fault now) state =
    ground (arith, compacted-locked fault (compacted_bytes now state.1) state.0)

run_all-locked :
    (operations : List Operation) (state : Disk × JournaledHistory)
    → (run_all operations state).0.locked ≡ state.0.locked
run_all-locked [] state = refl
run_all-locked (operation ∷ rest) state =
    run_all-locked rest (run operation state) ∙ run-locked operation state

-- From a handle whose lock file exists, after any writes and compactions, with faults or without,
-- every open fails with `AlreadyLocked` and changes nothing, until the handle is dropped. This keeps a
-- second process out; a process that is killed does not drop its handle.
pub open_while_locked :
    (operations : List Operation) (disk : Disk) (handle : JournaledHistory) (fault : Fault)
    (now max : ℕ)
    → disk.locked ≡ true
    → let after : Disk = (run_all operations (disk, handle)).0 in
      open_or_create fault now max after ≡ (after, err already_locked)
unfolding open_or_create
open_while_locked operations disk handle fault now max held =
    rw (run_all-locked operations (disk, handle) ∙ held)
