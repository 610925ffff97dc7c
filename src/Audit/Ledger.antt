-- ===== src/Audit/Ledger.antt =====
-- `AuditLedgerService.record_event` and `compute_audit_event_hash`. A ledger is the table of audit
-- events, the newest first. No caller passes `state_before` or `state_after`.
use razor_flow.Prelude.{
  ℕ, ◌+◌, Bool, Option, none, some, List, [], ◌∷◌, ◌++◌, ltb, nat_beq, if◌then◌else◌, Text, codes,
  select, replicate,
}
use razor_flow.Prelude.Int.{ℤ}
use razor_flow.Domain.Enums.{RecoveryActionType, PolicyVerdict, FailureCategory, RecoveryCaseStatus}
use razor_flow.Domain.Entities.{RuleCode}
use razor_flow.Domain.MerchantPolicy.{RawPolicy}

-- The payload dictionaries that the services record, one constructor for each call, with the
-- entries that are listed; the others hold texts that the model leaves out or repeat the key.
pub data AuditPayload : Type 0 where
  -- case, proposed and authorized action, verdict, rule, net value, attempt number
  decision_evaluated :
      ℕ → RecoveryActionType → RecoveryActionType → PolicyVerdict → RuleCode → ℤ → ℕ → AuditPayload
  -- case, action proposed by the AI, best ranked action, authorized action, verdict, rule; the
  -- confidence and the facts about the AI's answer are left out
  ai_decision_evaluated :
      ℕ
      → RecoveryActionType
      → RecoveryActionType
      → RecoveryActionType
      → PolicyVerdict
      → RuleCode
      → AuditPayload
  -- case, action
  attempt_created : ℕ → RecoveryActionType → AuditPayload
  -- case, attempt, action, success, gateway reference, case status
  attempt_finished :
      ℕ → ℕ → RecoveryActionType → Bool → Option Text → RecoveryCaseStatus → AuditPayload
  -- case, settling payment, recovered and net amount, source
  payment_verified : ℕ → ℕ → ℤ → ℤ → Text → AuditPayload
  -- order, payment, amount, category, transience, status
  case_created : ℕ → ℕ → ℤ → FailureCategory → Bool → RecoveryCaseStatus → AuditPayload
  -- order, payment, category
  failure_appended : ℕ → ℕ → FailureCategory → AuditPayload
  -- version, rules
  policy_version_created : ℕ → RawPolicy → AuditPayload

pub record AuditEvent : Type 0 where
  pub merchant_id : ℕ
  pub sequence_number : ℕ
  pub prev_event_hash : Text
  pub event_hash : Text
  pub entity_type : Text
  pub entity_id : ℕ
  pub action : Text
  pub actor_type : Text
  pub actor_id : Text
  pub payload : AuditPayload
  pub created_at : ℕ

-- The library calls of the hash: `hashlib.sha256(...).hexdigest()`, `json.dumps`,
-- `datetime.isoformat`, `str` of a number and of a UUID.
pub record Crypto : Type 0 where
  pub sha256 : Text → Text
  pub json_dumps : AuditPayload → Text
  pub isoformat : ℕ → Text
  pub decimal : ℕ → Text
  pub uuid_text : ℕ → Text

-- "0" * 64
abbrev pub genesis_prev_hash : Text
genesis_prev_hash = replicate 64 b'0'

-- What a caller passes to `record_event`, less the session and the merchant.
pub record AuditEntry : Type 0 where
  pub entity_type : Text
  pub entity_id : ℕ
  pub action : Text
  pub actor_type : Text
  pub actor_id : Text
  pub payload : AuditPayload

abbrev separated : List Text → Text
separated [] = []
separated (t ∷ []) = t
separated (t ∷ u ∷ ts) = t ++ (codes "|" ++ separated (u ∷ ts))

abbrev pub higher : AuditEvent → Option AuditEvent → Option AuditEvent
higher e none = some e
higher e (some m) = if ltb e.sequence_number m.sequence_number then some m else some e

-- `ORDER BY sequence_number DESC LIMIT 1`
unfoldable pub latest : List AuditEvent → Option AuditEvent
latest [] = none
latest (e ∷ events) = higher e (latest events)

abbrev pub events_of : ℕ → List AuditEvent → List AuditEvent
events_of merchant = select (λ e. nat_beq e.merchant_id merchant)

abbrev pub next_sequence : Option AuditEvent → ℕ
next_sequence none = 1
next_sequence (some last) = last.sequence_number + 1

abbrev pub next_prev_hash : Option AuditEvent → Text
next_prev_hash none = genesis_prev_hash
next_prev_hash (some last) = last.event_hash

module _ (crypto : Crypto) where
  open crypto use {sha256, json_dumps, isoformat, decimal, uuid_text}

  -- `compute_audit_event_hash`
  unfoldable pub compute_audit_event_hash : ℕ → Text → AuditEntry → ℕ → Text
  compute_audit_event_hash sequence_number prev_event_hash entry timestamp = sha256 (
      separated (
        decimal sequence_number
        ∷ prev_event_hash
        ∷ entry.entity_type
        ∷ uuid_text entry.entity_id
        ∷ entry.action
        ∷ entry.actor_type
        ∷ entry.actor_id
        ∷ json_dumps entry.payload
        ∷ isoformat timestamp
        ∷ []))

  abbrev pub event_after : Option AuditEvent → ℕ → AuditEntry → ℕ → AuditEvent
  event_after last merchant entry now = record {
    merchant_id = merchant;
    sequence_number = next_sequence last;
    prev_event_hash = next_prev_hash last;
    event_hash = compute_audit_event_hash (next_sequence last) (next_prev_hash last) entry now;
    entity_type = entry.entity_type;
    entity_id = entry.entity_id;
    action = entry.action;
    actor_type = entry.actor_type;
    actor_id = entry.actor_id;
    payload = entry.payload;
    created_at = now;
  }

  -- `AuditLedgerService.record_event`
  unfoldable pub record_event : ℕ → AuditEntry → ℕ → List AuditEvent → List AuditEvent
  record_event merchant entry now ledger =
      event_after (latest (events_of merchant ledger)) merchant entry now ∷ ledger
