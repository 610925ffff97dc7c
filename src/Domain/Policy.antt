-- ===== src/Domain/Policy.antt =====
-- The deterministic policy engine, backend/packages/domain/policy/engine.py.
mod Engine
pub mod Contact
pub mod Verdicts
pub mod Cooldown
pub mod Merchant
pub mod Fresh
unfoldable pub use Engine.*
