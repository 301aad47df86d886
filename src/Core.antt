-- ===== src/Core.antt =====
-- core/src: the data types and the history that every other crate works on.
pub mod Types
pub mod History
