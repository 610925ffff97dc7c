-- ===== src/Sync.antt =====
-- Customers, orders and payments from webhooks:
-- backend/packages/orchestration/services/order_payment_sync_service.py and
-- customer_enrichment_service.py.
mod Upserts
mod Enrichment
pub mod Frame
pub mod Paid
pub mod Captured
pub mod Risk
unfoldable pub use Upserts.*
unfoldable pub use Enrichment.*
