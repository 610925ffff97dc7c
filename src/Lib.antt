-- ===== src/Lib.antt =====
-- RazorFlow: a revenue recovery orchestrator for failed payments (backend/).
--
-- The program. Signed webhooks of the payment gateway are stored once and processed by a worker,
-- which synchronizes customers, orders and payments. A failed payment opens a recovery case. A decision service turns the stored case
-- into candidate actions, scores and ranks them, takes the best one or the one that an AI names,
-- lets the policy engine approve, change, escalate or reject it, and records the decision with a
-- command. The action orchestrator executes a command once, through an executor that may call the
-- payment gateway. The verification service declares a case recovered when a payment is captured.
-- Decisions, executions and verifications append to a hash-chained audit ledger, one chain for
-- each merchant.
--
-- The files, and the code that they are about (paths below backend/):
--   Prelude          shared names, Boolean tests, errors as values, texts, signed integers
--   Domain           packages/domain: Enums (enums.py), StateMachine (state_machine.py), Money
--                    (value_objects.py), Entities (entities.py, policy/snapshot.py,
--                    policy/result.py), Policy (policy/engine.py), Strategies (strategies/),
--                    Candidates (candidate_generator.py), Floats and Scoring (scoring/)
--   Audit            packages/persistence/audit_ledger.py, packages/common/crypto.py and the
--                    verification endpoint of apps/api/routes/v1/audit.py
--   Persistence      packages/persistence/models as rows, and the database as a record of tables
--   Decision         packages/orchestration/services/decision_service.py, ai_decision_service.py:
--                    Snapshot (the domain snapshot of a stored case), Pipeline (`decide`), Service
--                    (the record and the audit event)
--   Execution        packages/orchestration/executors and services/action_orchestrator.py:
--                    Executors (`execute_action`), Orchestrator (`execute_command`)
--   Verification     services/verification_service.py: Recover (`verify_and_recover_case`), Sources
--                    (`verify_from_webhook_event`, `poll_and_reconcile_case`)
--   Intake           services/case_creation_service.py: Cases (`create_or_update_recovery_case`)
--   Webhooks         packages/adapters/razorpay/webhooks.py: Taxonomy
--                    (`classify_razorpay_failure`), Payload (`parse_razorpay_webhook`, from decoded
--                    JSON); services/webhook_ingestion_service.py and apps/api/routes/v1/webhooks.py:
--                    Ingest
--   Sync             services/order_payment_sync_service.py: Upserts; customer_enrichment_service.py:
--                    Enrichment
--   Worker           apps/worker/tasks/ingestion.py: Reassess (`reassess_cases`), Pipeline
--                    (`execute_ingestion_pipeline`)
--   Api              apps/api/routes/v1/cases.py: Cases; policies.py: Policies and
--                    Preview, with Domain/MerchantPolicy for the policy as it is stored;
--                    metrics.py: Metrics
--   Tests            runs at concrete inputs
-- The files below these directories that define nothing of the program hold the proofs, and are
-- named for what they prove.
--
-- Conventions. UUIDs are natural numbers, and a new row gets the next one. Datetimes are
-- microseconds since an epoch; the times that one call reads are one `now`. Amounts in the domain
-- are natural numbers of paise, money columns are signed integers; Python's integers have no width,
-- and neither have these. Floats are an interface of operations with four laws (Domain/Floats):
-- literals are in [0, 1], the order is decided, rounding stays in [0, 1], and truncating a
-- probability's share of an amount below 2^53 stays below the amount. A call returns a value or
-- raises one of the errors of Prelude/Errors; a raised call leaves no state, since its session is
-- rolled back. A service call is one step: calls follow one another and are not interleaved.
-- Tables keep the newest row first. The answers of the payment gateway and of the AI, the trained
-- model, the hash functions, the decoding of JSON and the case mapping outside ASCII are arguments. All recursion is structural, so no fuel is needed.
--
-- Not modelled: log messages, explanatory texts and JSON blobs that no code reads; the other HTTP
-- routes, Celery, SQL sessions and migrations, the gateway and AI adapters, which are input and
-- output; JSON numbers with a fraction, and the lengths of text columns; the frontend and the
-- offline training scripts.
pub mod Prelude
pub mod Domain
pub mod Audit
pub mod Persistence
pub mod Decision
pub mod Intake
pub mod Execution
pub mod Verification
pub mod Sync
pub mod Webhooks
pub mod Worker
pub mod Api
pub mod Tests
