-- ===== src/Snapshot.antt =====
-- src/agent/snapshot.rs: what a snapshot may hold, what is dropped from one, and its encoding.
pub mod Compact
pub mod Validate
pub mod Whole
pub mod Encoding
pub mod Passed
pub mod Difference
pub mod RoundTrip
pub mod Sound
pub mod Valid
pub mod Rounds
pub mod Kept
pub mod Drops
pub mod Stages
pub mod Compaction
pub mod Seals
