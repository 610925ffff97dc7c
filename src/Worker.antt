-- ===== src/Worker.antt =====
-- The worker's tasks: backend/apps/worker/tasks/ingestion.py.
mod Reassess
mod Pipeline
pub mod Stuck
pub mod Frame
pub mod Processed
pub mod Replay
pub mod OpenCases
pub mod Histories
pub mod Late
pub mod PaidOrder
unfoldable pub use Reassess.*
unfoldable pub use Pipeline.*
