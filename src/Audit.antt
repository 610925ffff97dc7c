-- ===== src/Audit.antt =====
-- The hash-chained audit ledger: backend/packages/persistence/audit_ledger.py with the hash of
-- backend/packages/common/crypto.py, and the check of backend/apps/api/routes/v1/audit.py.
mod Ledger
mod Verify
pub mod Chain
pub mod Accepts
pub mod Tampering
unfoldable pub use Ledger.*
unfoldable pub use Verify.*
