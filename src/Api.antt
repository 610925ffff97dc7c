-- ===== src/Api.antt =====
-- HTTP endpoints over the services: backend/apps/api/routes/v1/cases.py, policies.py
-- and metrics.py.
mod Cases
mod Policies
mod Preview
mod Metrics
pub mod Tenants
pub mod Pages
pub mod Links
pub mod Again
pub mod PolicyVersions
pub mod Totals
pub mod PreviewVerdict
unfoldable pub use Cases.*
unfoldable pub use Policies.*
unfoldable pub use Preview.*
unfoldable pub use Metrics.*
