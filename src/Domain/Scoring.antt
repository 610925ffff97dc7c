-- ===== src/Domain/Scoring.antt =====
-- Recovery probabilities and expected recovery values, backend/packages/domain/scoring.
mod Scorer
mod Erv
pub mod Ranker
pub mod Bounds
pub mod Ranking
unfoldable pub use Scorer.*
unfoldable pub use Erv.*
