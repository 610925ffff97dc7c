-- ===== src/Intake.antt =====
-- The creation of recovery cases:
-- backend/packages/orchestration/services/case_creation_service.py.
mod Cases
pub mod OneCase
pub mod OneOpen
unfoldable pub use Cases.*
