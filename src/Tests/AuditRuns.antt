-- ===== src/Tests/AuditRuns.antt =====
-- A ledger with one event.
use razor_flow.Prelude.{◌+◌, ◌≡◌, refl, List, [], arith, length, codes, map}
use razor_flow.Domain.Enums.{RecoveryActionType}
use razor_flow.Audit.{
  AuditEvent, AuditEntry, AuditPayload, events_of, record_event, verify_audit_chain, latest,
  compute_audit_event_hash,
}
use razor_flow.Audit.Chain.{IsChain, record_event-IsChain}
use razor_flow.Audit.Tampering.{tampering_unseen}
use razor_flow.Tests.Fixtures.{plain_crypto}

abbrev entry : AuditEntry
entry = record {
  entity_type = codes "RECOVERY_ATTEMPT";
  entity_id = 4;
  action = codes "ATTEMPT_CREATED";
  actor_type = codes "SYSTEM";
  actor_id = codes "action-orchestrator";
  payload = AuditPayload.attempt_created 1 RecoveryActionType.payment_link;
}

abbrev ledger : List AuditEvent
ledger = record_event plain_crypto 7 entry 100 []

ledger_events : events_of 7 ledger ≡ ledger
unfolding record_event
ledger_events = refl

ledger-IsChain : IsChain plain_crypto (events_of 7 ledger)
unfolding record_event latest compute_audit_event_hash
ledger-IsChain = (refl, refl, refl, tt)

record_event-IsChain_example :
    IsChain plain_crypto (events_of 7 (record_event plain_crypto 7 entry 200 ledger))
    × (length (events_of 7 (record_event plain_crypto 7 entry 200 ledger))
        ≡ length (events_of 7 ledger) + 1)
    × (events_of 8 (record_event plain_crypto 7 entry 200 ledger) ≡ events_of 8 ledger)
record_event-IsChain_example =
    record_event-IsChain plain_crypto 7 8 entry 200 ledger ledger-IsChain (λ e. omega (arith, e))

abbrev second : AuditEvent
second = record {
  merchant_id = 7;
  sequence_number = 2;
  prev_event_hash = codes "h1";
  event_hash = codes "h2";
  entity_type = codes "RECOVERY_ATTEMPT";
  entity_id = 4;
  action = codes "GATEWAY_ACCEPTED";
  actor_type = codes "SYSTEM";
  actor_id = codes "action-orchestrator";
  payload = AuditPayload.attempt_created 1 RecoveryActionType.payment_link;
  created_at = 300;
}

-- The recorded action becomes another one.
abbrev rewrite_payload : AuditEvent → AuditEvent
rewrite_payload e = record e {
  payload = AuditPayload.attempt_created 1 RecoveryActionType.human_escalation;
}

tampering_unseen_example :
    verify_audit_chain 7 (map rewrite_payload ledger) ≡ verify_audit_chain 7 ledger
tampering_unseen_example = tampering_unseen rewrite_payload (λ e. (refl, refl, refl, refl)) 7 ledger
