-- ===== src/Execution/Executors.antt =====
-- The four action executors and their registry. The answers of the payment gateway are arguments;
-- the credentials and the customer's contact data, which only go into the requests, are left out.
use razor_flow.Prelude.{
  ℕ, ◌+◌, Bool, true, false, not, ◌&&◌, Option, none, some, List, [], ◌∷◌, if◌then◌else◌, ◌==◌,
  contains, nat_eq, nat_beq, find, is_some, Text, Result, ok, raised, no_executor,
}
use razor_flow.Domain.Enums.{
  RecoveryCaseStatus, RecoveryActionType, RecoveryAttemptStatus, action_eq, attempt_status_eq,
}
use razor_flow.Domain.Policy.{microseconds}
use razor_flow.Persistence.{
  has_merchant, Db, RecoveryCaseModel, RecoveryCommand, RecoveryAttemptModel, IdempotencyKey,
}

-- The fields of the port's results that are read.
pub record GatewayPaymentLinkResult : Type 0 where
  pub is_success : Bool
  pub gateway_link_id : Option Text
  pub status : Text
  pub is_retryable : Bool

pub record GatewayNotificationResult : Type 0 where
  pub is_success : Bool
  pub is_retryable : Bool

-- What the gateway answers to a link request and to a reminder; `none` is any exception.
pub record GatewayReplies : Type 0 where
  pub link : Option GatewayPaymentLinkResult
  pub reminder : Option GatewayNotificationResult

-- `ExecutionResult`, less its texts and payloads.
pub record ExecutionResult : Type 0 where
  pub is_success : Bool
  pub attempt_status : RecoveryAttemptStatus
  pub target_case_status : RecoveryCaseStatus
  pub gateway_reference_id : Option Text

-- What an executor returns, the case as it leaves it, and the requests that it sent.
pub record Execution (F : Type 0) : Type 0 where
  pub result : ExecutionResult
  pub case_after : RecoveryCaseModel F
  pub calls : List IdempotencyKey

abbrev pub failed : RecoveryCaseStatus → Option Text → ExecutionResult
failed target reference = record {
  is_success = false;
  attempt_status = RecoveryAttemptStatus.failed;
  target_case_status = target;
  gateway_reference_id = reference;
}

abbrev acknowledged : Option Text → ExecutionResult
acknowledged reference = record {
  is_success = true;
  attempt_status = RecoveryAttemptStatus.acknowledged;
  target_case_status = RecoveryCaseStatus.waiting_external;
  gateway_reference_id = reference;
}

-- The branches after the link request.
abbrev pub link_result : Option GatewayPaymentLinkResult → ExecutionResult
link_result none = failed RecoveryCaseStatus.diagnosing none
link_result (some link_res) =
    if link_res.is_success
    then acknowledged link_res.gateway_link_id
    else failed
        (if link_res.is_retryable
          then RecoveryCaseStatus.diagnosing
          else RecoveryCaseStatus.waiting_external)
        none

-- The branches after the reminder.
abbrev pub reminder_result : Text → Option GatewayNotificationResult → ExecutionResult
reminder_result link none = failed RecoveryCaseStatus.waiting_external (some link)
reminder_result link (some notif_res) =
    if notif_res.is_success
    then acknowledged (some link)
    else failed RecoveryCaseStatus.waiting_external (some link)

-- The rows that the reminder's query selects, newest first.
abbrev is_prior_link : ℕ → RecoveryAttemptModel → Bool
is_prior_link case_id att =
    nat_beq att.case_id case_id
    && (att.action_type == RecoveryActionType.payment_link)
    && is_some att.gateway_reference_id
    && contains att.status
        (RecoveryAttemptStatus.acknowledged ∷ RecoveryAttemptStatus.succeeded ∷ [])

-- A reference that is missing or empty is false.
abbrev pub truthy : Option Text → Option Text
truthy none = none
truthy (some []) = none
truthy (some (c ∷ text)) = some (c ∷ text)

abbrev reference_of : Option RecoveryAttemptModel → Option Text
reference_of none = none
reference_of (some att) = truthy att.gateway_reference_id

-- `payload.get("reassessment_delay_seconds") or 1800`
abbrev pub delay_seconds : Option ℕ → ℕ
delay_seconds none = 1800
delay_seconds (some n) = if nat_beq n 0 then 1800 else n

module _ {F : Type 0} where
  abbrev done : ExecutionResult → RecoveryCaseModel F → List IdempotencyKey → Execution F
  done result case calls = record { result = result; case_after = case; calls = calls }

  unfoldable pub payment_link_execute :
      Db F → RecoveryCommand → RecoveryCaseModel F → Option GatewayPaymentLinkResult → Execution F
  payment_link_execute db command case reply =
      if not (is_some (find (λ row. nat_beq row.id case.order_id) db.orders))
      then done (failed RecoveryCaseStatus.unrecoverable none) case []
      else if not (has_merchant case.merchant_id db)
      then done (failed RecoveryCaseStatus.unrecoverable none) case []
      else done (link_result reply) case (command.idempotency_key ∷ [])

  abbrev pub send_reminder :
      Option Text
      → Db F
      → RecoveryCommand
      → RecoveryCaseModel F
      → Option GatewayNotificationResult
      → Execution F
  send_reminder none db command case reply =
      done (failed RecoveryCaseStatus.diagnosing none) case []
  send_reminder (some link) db command case reply =
      if not (has_merchant case.merchant_id db)
      then done (failed RecoveryCaseStatus.unrecoverable none) case []
      else done (reminder_result link reply) case (command.idempotency_key ∷ [])

  unfoldable pub reminder_execute :
      Db F → RecoveryCommand → RecoveryCaseModel F → Option GatewayNotificationResult → Execution F
  reminder_execute db command case reply =
      send_reminder (reference_of (find (is_prior_link case.id) db.attempts)) db command case reply

  unfoldable pub wait_execute : RecoveryCommand → RecoveryCaseModel F → ℕ → Execution F
  wait_execute command case now =
      done
        (record {
          is_success = true;
          attempt_status = RecoveryAttemptStatus.succeeded;
          target_case_status = RecoveryCaseStatus.waiting_external;
          gateway_reference_id = none;
        })
        (record case {
          next_action_scheduled_at =
              some (now + microseconds (delay_seconds command.reassessment_delay_seconds));
        })
        []

  unfoldable pub human_execute : RecoveryCaseModel F → Execution F
  human_execute case =
      done
        (record {
          is_success = true;
          attempt_status = RecoveryAttemptStatus.succeeded;
          target_case_status = RecoveryCaseStatus.escalated;
          gateway_reference_id = none;
        })
        case []

  -- `get_executor_for_action` and the executor's `execute`; DO_NOTHING has no executor.
  unfoldable pub execute_action :
      RecoveryActionType
      → Db F
      → RecoveryCommand
      → RecoveryCaseModel F
      → GatewayReplies
      → ℕ
      → Result (Execution F)
  execute_action RecoveryActionType.payment_link db command case replies now =
      ok (payment_link_execute db command case replies.link)
  execute_action RecoveryActionType.customer_reminder db command case replies now =
      ok (reminder_execute db command case replies.reminder)
  execute_action RecoveryActionType.wait_and_reassess db command case replies now =
      ok (wait_execute command case now)
  execute_action RecoveryActionType.human_escalation db command case replies now =
      ok (human_execute case)
  execute_action RecoveryActionType.do_nothing db command case replies now = raised no_executor
