-- ===== src/Tests/ExecutionRuns.antt =====
-- Executions of commands on an approved case.
use razor_flow.Prelude.{ℕ, ◌≡◌, refl, none, some, ok, true}
use razor_flow.Domain.Enums.{RecoveryCaseStatus, RecoveryActionType, RecoveryAttemptStatus}
use razor_flow.Domain.StateMachine.{
  can_transition, validate_transition, attempt_can_transition, attempt_validate_transition,
}
use razor_flow.Persistence.{Db, RecoveryCaseModel}
use razor_flow.Execution.{
  OrchestrationResult, execute_command, execute_new, start_execution, execute_action,
  payment_link_execute,
}
use razor_flow.Execution.Status.{
  Follows, execute-Follows, escalation_stays_executing, link_exception_stays_executing,
}
use razor_flow.Execution.Idempotence.{execute_twice}
use razor_flow.Execution.Dispatch.{Session, Sound, Session-once}
use razor_flow.Tests.Fixtures.{
  stored_case, approved_case, db_with, plain_crypto, command_for, gateway_up, gateway_down, later,
  soon,
}

abbrev start_db : Db ℕ
start_db = db_with approved_case

link_run :
    (after : OrchestrationResult × Db ℕ) × (execute_command plain_crypto gateway_up soon
        (command_for RecoveryActionType.payment_link)
        none
        start_db
      ≡ ok after)
    × (after.0.case_status ≡ RecoveryCaseStatus.waiting_external)
unfolding execute_command execute_new start_execution execute_action payment_link_execute
    can_transition validate_transition attempt_can_transition attempt_validate_transition
link_run = (_, refl, refl)

execute_twice_example :
    execute_command plain_crypto gateway_down later
      (command_for RecoveryActionType.payment_link)
      (some 4)
      link_run.0.1
    ≡ ok (record link_run.0.0 { is_duplicate_execution = true }, link_run.0.1)
execute_twice_example =
    execute_twice plain_crypto gateway_up gateway_down soon later
      (command_for RecoveryActionType.payment_link) none (some 4) start_db link_run.1

execute-Follows_example :
    (case : RecoveryCaseModel ℕ) × Follows plain_crypto gateway_up soon
      (command_for RecoveryActionType.payment_link)
      none
      start_db
      case
      link_run.0
execute-Follows_example =
    execute-Follows plain_crypto gateway_up soon (command_for RecoveryActionType.payment_link) none
      start_db link_run.1

abbrev escalated_case : RecoveryCaseModel ℕ
escalated_case = record stored_case { status = RecoveryCaseStatus.escalated }

abbrev stopped_case : RecoveryCaseModel ℕ
stopped_case = record stored_case { status = RecoveryCaseStatus.stopped }

escalation_stays_executing_example :
    (after : OrchestrationResult × Db ℕ) × (execute_command plain_crypto gateway_up soon
        (command_for RecoveryActionType.human_escalation)
        none
        start_db
      ≡ ok after)
    × (after.0.case_status ≡ RecoveryCaseStatus.executing)
escalation_stays_executing_example =
    escalation_stays_executing plain_crypto gateway_up soon
      (command_for RecoveryActionType.human_escalation) none start_db approved_case refl refl refl
      refl

link_exception_stays_executing_example :
    (after : OrchestrationResult × Db ℕ) × (execute_command plain_crypto gateway_down soon
        (command_for RecoveryActionType.payment_link)
        none
        start_db
      ≡ ok after)
    × (after.0.case_status ≡ RecoveryCaseStatus.executing)
    × (after.0.attempt_status ≡ RecoveryAttemptStatus.failed)
link_exception_stays_executing_example =
    link_exception_stays_executing plain_crypto gateway_down soon
      (command_for RecoveryActionType.payment_link) none start_db approved_case refl refl refl refl
      refl refl refl

-- The link command, twice.
two_commands : Session plain_crypto start_db link_run.0.1
two_commands =
    Session.next gateway_up soon (command_for RecoveryActionType.payment_link) none link_run.0
      link_run.1
      (Session.next gateway_down later (command_for RecoveryActionType.payment_link) (some 4)
        (record link_run.0.0 { is_duplicate_execution = true }, link_run.0.1)
        (execute_twice plain_crypto gateway_up gateway_down soon later
          (command_for RecoveryActionType.payment_link) none (some 4) start_db link_run.1)
        Session.stop)

Session-once_example : Sound plain_crypto link_run.0.1
Session-once_example = Session-once plain_crypto two_commands (tt, tt, tt)
