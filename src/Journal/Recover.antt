-- ===== src/Journal/Recover.antt =====
-- journal/src/lib.rs: the loop of `open_or_create` that replays the frames after the header.
pub mod Laws
pub mod Damage
pub mod Stops
use driftbrake.Base.{ℕ, zero, suc, ◌+◌, List, Option, none, some, length, drop}
use driftbrake.Core.Types.{HistoryEntry, ReconcileHistory}
use driftbrake.Core.History.{new}
use driftbrake.Core.History.Timeline.{push}
use driftbrake.Journal.Frame.{header_size, next_frame}

-- The bytes from the stream position on, the history so far, and `valid_offset`. The result is the
-- history, and the offset to which the file is cut. Every round takes at least nine bytes, so the
-- number of bytes is enough fuel.
unfoldable pub replay : (fuel : ℕ) → List ℕ → ReconcileHistory → ℕ → ReconcileHistory × ℕ
replay zero bytes inner valid_offset = (inner, valid_offset)
replay (suc fuel) bytes inner valid_offset = elim (next_frame bytes) [
  | none ↦ (inner, valid_offset)
  | some (entry, size) ↦ replay fuel (drop size bytes) (push inner entry) (valid_offset + size)
]

unfoldable pub recover : List ℕ → ReconcileHistory × ℕ
recover bytes = replay (length bytes) bytes new header_size
