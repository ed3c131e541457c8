-- ===== src/Tests.antt =====
-- src/agent/tests.rs: runs of the model, and the properties at concrete inputs.
mod Fixture
mod Core
mod Vault
mod History
mod Parts
mod Disk
mod Use
mod Snapshot
mod Sealed
mod Recovery
mod Interrupted
mod Images
mod Backup
