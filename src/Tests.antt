-- ===== src/Tests.antt =====
-- Runs at concrete inputs, and each theorem applied to one.
mod Fixtures
mod DomainRuns
mod PolicyRuns
mod ScoringRuns
mod AuditRuns
mod DecisionRuns
mod ExecutionRuns
mod VerificationRuns
mod IntakeRuns
mod WebhookFixtures
mod WebhookRuns
mod SyncRuns
mod WorkerRuns
mod ApiRuns
