-- ===== src/Types.antt =====
-- src/agent/mod.rs: the data that the agent policy core keeps and receives.
mod Names
mod Enums
mod Requests
mod State
unfoldable pub use Names.*
unfoldable pub use Enums.*
unfoldable pub use Requests.*
unfoldable pub use State.*
