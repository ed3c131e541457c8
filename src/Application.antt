-- ===== src/Application.antt =====
-- src/agent/mod.rs: the operations of `Application`. What is proved of them is in the children.
mod Records
mod Plan
mod Select
mod Mutate
pub mod Planned
pub mod Outcome
pub mod Atomic
pub mod Replay
pub mod Effect
pub mod Update
pub mod History
pub mod Growth
pub mod Reach
pub mod Frame
pub mod Revocation
pub mod Origin
pub mod Delegation
pub mod Disclosure
unfoldable pub use Records.*
unfoldable pub use Plan.*
unfoldable pub use Select.*
unfoldable pub use Mutate.*
