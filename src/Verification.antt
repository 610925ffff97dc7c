-- ===== src/Verification.antt =====
-- The verification of payments:
-- backend/packages/orchestration/services/verification_service.py.
mod Recover
mod Sources
pub mod Recovered
pub mod Once
pub mod Webhook
pub mod OneOpen
unfoldable pub use Recover.*
unfoldable pub use Sources.*
