-- ===== src/Decision.antt =====
-- The decision pipeline: backend/packages/orchestration/services/decision_service.py and
-- ai_decision_service.py.
mod Snapshot
mod Pipeline
mod Service
pub mod Outcome
pub mod Totality
pub mod Contact
pub mod Guards
pub mod Record
pub mod Net
pub mod Negative
unfoldable pub use Snapshot.*
unfoldable pub use Pipeline.*
unfoldable pub use Service.*
