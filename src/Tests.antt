-- ===== src/Tests.antt =====
-- Runs of the models at concrete inputs.
mod Sample
mod Policies
mod Histories
mod Journals
mod Polling
mod Encodings
mod Python
mod Documents
mod Network
mod Trading
mod Example
mod Whole
mod Halting
