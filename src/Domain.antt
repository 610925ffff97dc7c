-- ===== src/Domain.antt =====
-- The pure domain layer, backend/packages/domain.
pub mod Enums
pub mod StateMachine
pub mod Money
pub mod Entities
pub mod Policy
pub mod MerchantPolicy
pub mod Strategies
pub mod Candidates
pub mod Floats
pub mod Scoring
