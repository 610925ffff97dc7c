-- ===== src/Persistence.antt =====
-- The tables that the services read and write: backend/packages/persistence/models.
mod Rows
mod Store
pub mod Frame
pub mod Ids
pub mod Lookup
pub use Rows.*
unfoldable pub use Store.*
