-- ===== src/Journal.antt =====
-- journal/src/lib.rs: the write-ahead log of a history.
pub mod Crc
pub mod Utf8
pub mod Frame
pub mod Recover
pub mod File
