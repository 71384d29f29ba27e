-- ===== src/Models.antt =====
-- internal/models: the records that travel, and those that are stored.
mod Status
mod Messages
mod Polling
mod Peers
pub use Status.*
pub use Messages.*
pub use Polling.*
pub use Peers.*
