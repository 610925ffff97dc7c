-- ===== src/Domain/StateMachine.antt =====
-- The two lifecycle state machines of backend/packages/domain/state_machine.py.
mod Transitions
pub mod Reach
pub mod AttemptRank
unfoldable pub use Transitions.*
