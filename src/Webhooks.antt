-- ===== src/Webhooks.antt =====
-- The webhooks of the payment gateway: backend/packages/adapters/razorpay/webhooks.py,
-- backend/packages/orchestration/services/webhook_ingestion_service.py and
-- backend/apps/api/routes/v1/webhooks.py.
mod Taxonomy
mod Payload
mod Ingest
pub mod Dedup
pub mod Twice
pub mod Blind
unfoldable pub use Taxonomy.*
unfoldable pub use Payload.*
unfoldable pub use Ingest.*
