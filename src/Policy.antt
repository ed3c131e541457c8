-- ===== src/Policy.antt =====
-- src/agent/mod.rs: who may do what. Approval and revocation of tasks, and the checks that every
-- operation makes: `task`, `record`, `can` and `authorize`.
mod Tasks
mod Access
mod Authorize
pub mod Authority
pub mod Admission
unfoldable pub use Tasks.*
unfoldable pub use Access.*
unfoldable pub use Authorize.*
