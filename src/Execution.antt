-- ===== src/Execution.antt =====
-- The execution of authorized commands: backend/packages/orchestration/executors and
-- backend/packages/orchestration/services/action_orchestrator.py.
mod Executors
mod Orchestrator
pub mod Steps
pub mod Status
pub mod Idempotence
pub mod Dispatch
unfoldable pub use Executors.*
unfoldable pub use Orchestrator.*
