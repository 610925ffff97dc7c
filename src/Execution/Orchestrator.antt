-- ===== src/Execution/Orchestrator.antt =====
-- `ActionOrchestrator.execute_command`. The row lock makes one call one step; the times that a
-- call reads are one `now`. A raised exception leaves no state: the caller's session is rolled
-- back.
use razor_flow.Prelude.{
  ℕ, ◌+◌, Bool, true, false, not, ◌||◌, Option, none, some, List, [], ◌∷◌, ◌++◌, if◌then◌else◌,
  ◌==◌, contains, Text, codes, Result, ok, raised, ◌>>=◌, ◌>>◌, raise_unless, case_not_found,
  case_terminal,
}
use razor_flow.Domain.Enums.{
  RecoveryCaseStatus, RecoveryActionType, RecoveryAttemptStatus, case_status_eq,
}
use razor_flow.Domain.StateMachine.{
  can_transition, validate_transition, attempt_can_transition, attempt_validate_transition,
}
use razor_flow.Audit.{AuditEntry, AuditPayload, Crypto, record_event}
use razor_flow.Persistence.{
  Db, RecoveryCaseModel, RecoveryCommand, RecoveryAttemptModel, IdempotencyKey, get_case,
  get_attempt, save_case,
}
use razor_flow.Execution.Executors.{GatewayReplies, ExecutionResult, Execution, execute_action}

-- `OrchestrationResult`, less its error text.
pub record OrchestrationResult : Type 0 where
  pub case_id : ℕ
  pub attempt_id : ℕ
  pub idempotency_key : IdempotencyKey
  pub action_type : RecoveryActionType
  pub attempt_status : RecoveryAttemptStatus
  pub case_status : RecoveryCaseStatus
  pub gateway_reference_id : Option Text
  pub is_duplicate_execution : Bool

-- `terminal_statuses`
abbrev pub terminal_statuses : List RecoveryCaseStatus
terminal_statuses =
    RecoveryCaseStatus.recovered ∷ RecoveryCaseStatus.unrecoverable ∷ RecoveryCaseStatus.expired
    ∷ RecoveryCaseStatus.stopped ∷ []

-- Step 4.
unfoldable pub start_execution : RecoveryCaseStatus → Result RecoveryCaseStatus
start_execution status =
    if (status == RecoveryCaseStatus.approved) || (status == RecoveryCaseStatus.escalated)
    then (validate_transition status RecoveryCaseStatus.executing
        >> ok RecoveryCaseStatus.executing)
    else ok status

abbrev orchestrator_entry : ℕ → Text → AuditPayload → AuditEntry
orchestrator_entry attempt action payload = record {
  entity_type = codes "RECOVERY_ATTEMPT";
  entity_id = attempt;
  action = action;
  actor_type = codes "SYSTEM";
  actor_id = codes "action-orchestrator";
  payload = payload;
}

-- Steps 5 and 7: the attempt when the executor runs.
abbrev pub dispatched_attempt : ℕ → ℕ → ℕ → RecoveryCommand → Option ℕ → ℕ → RecoveryAttemptModel
dispatched_attempt id case_id merchant_id command decision_id now = record {
  id = id;
  case_id = case_id;
  merchant_id = merchant_id;
  decision_id = decision_id;
  action_type = command.action_type;
  idempotency_key = command.idempotency_key;
  status = RecoveryAttemptStatus.dispatched;
  gateway_reference_id = none;
  dispatched_at = some now;
  completed_at = none;
}

-- Step 9.
abbrev pub finished_attempt : RecoveryAttemptModel → ExecutionResult → ℕ → RecoveryAttemptModel
finished_attempt attempt exec_res now = record attempt {
  status =
      if attempt_can_transition attempt.status exec_res.attempt_status
      then exec_res.attempt_status
      else attempt.status;
  gateway_reference_id = exec_res.gateway_reference_id;
  completed_at = some now;
}

module _ {F : Type 0} where
  -- Step 10.
  abbrev pub finished_case : RecoveryCaseModel F → ExecutionResult → ℕ → RecoveryCaseModel F
  finished_case case exec_res now = record case {
    status =
        if can_transition case.status exec_res.target_case_status
        then exec_res.target_case_status
        else case.status;
    current_attempt_count = case.current_attempt_count + 1;
    last_attempt_at = some now;
  }

  -- Step 2: the answer when the key was used before.
  abbrev pub duplicate_result : RecoveryCaseModel F → RecoveryAttemptModel → OrchestrationResult
  duplicate_result case attempt = record {
    case_id = case.id;
    attempt_id = attempt.id;
    idempotency_key = attempt.idempotency_key;
    action_type = attempt.action_type;
    attempt_status = attempt.status;
    case_status = case.status;
    gateway_reference_id = attempt.gateway_reference_id;
    is_duplicate_execution = true;
  }

  module _ (crypto : Crypto) (replies : GatewayReplies) (now : ℕ) where
    -- Steps 9 to 11, for an executor that has returned.
    abbrev pub conclude :
        RecoveryCommand → RecoveryAttemptModel → Execution F → Db F → OrchestrationResult × Db F
    conclude command dispatched run db =
        let attempt = finished_attempt dispatched run.result now in
        let case = finished_case run.case_after run.result now in
        (
          record {
            case_id = case.id;
            attempt_id = attempt.id;
            idempotency_key = attempt.idempotency_key;
            action_type = attempt.action_type;
            attempt_status = attempt.status;
            case_status = case.status;
            gateway_reference_id = attempt.gateway_reference_id;
            is_duplicate_execution = false;
          },
          save_case case (record db {
            attempts = attempt ∷ db.attempts;
            ledger =
                record_event crypto case.merchant_id
                  (orchestrator_entry attempt.id
                    (if run.result.is_success
                      then codes "GATEWAY_ACCEPTED"
                      else codes "EXECUTION_FAILED")
                    (AuditPayload.attempt_finished case.id attempt.id command.action_type
                      run.result.is_success run.result.gateway_reference_id case.status))
                  now db.ledger;
            gateway_calls = run.calls ++ db.gateway_calls;
          }),
        )

    -- Step 5, with the dispatch of step 7.
    abbrev pub attempt_of :
        Db F → RecoveryCommand → Option ℕ → RecoveryCaseModel F → RecoveryAttemptModel
    attempt_of db command decision_id case =
        dispatched_attempt db.next_id case.id case.merchant_id command decision_id now

    -- Step 6.
    abbrev pub created : Db F → RecoveryCommand → RecoveryCaseModel F → Db F
    created db command case = record db {
      ledger =
          record_event crypto case.merchant_id
            (orchestrator_entry db.next_id (codes "ATTEMPT_CREATED")
              (AuditPayload.attempt_created case.id command.action_type))
            now db.ledger;
      next_id = db.next_id + 1;
    }

    -- Step 8.
    abbrev pub run_from :
        Db F
        → RecoveryCommand
        → Option ℕ
        → RecoveryCaseModel F
        → RecoveryCaseStatus
        → Result (Execution F)
    run_from db command decision_id case started =
        execute_action command.action_type
          (record (created db command case) {
            attempts = attempt_of db command decision_id case ∷ db.attempts;
          })
          command (record case { status = started }) replies now

    -- Steps 3 to 11, for a key that was not used before.
    unfoldable pub execute_new :
        RecoveryCommand
        → Option ℕ
        → RecoveryCaseModel F
        → Db F
        → Result (OrchestrationResult × Db F)
    execute_new command decision_id case db = do
      raise_unless (not (contains case.status terminal_statuses)) case_terminal
      started ← start_execution case.status
      let attempt = attempt_of db command decision_id case
      attempt_validate_transition RecoveryAttemptStatus.draft attempt.status
      run ← run_from db command decision_id case started
      ok (conclude command attempt run (created db command case))

    abbrev pub execute_once :
        RecoveryCommand
        → Option ℕ
        → RecoveryCaseModel F
        → Option RecoveryAttemptModel
        → Db F
        → Result (OrchestrationResult × Db F)
    execute_once command decision_id case none db = execute_new command decision_id case db
    execute_once command decision_id case (some attempt) db = ok (duplicate_result case attempt, db)

    abbrev pub execute_found :
        RecoveryCommand
        → Option ℕ
        → Option (RecoveryCaseModel F)
        → Db F
        → Result (OrchestrationResult × Db F)
    execute_found command decision_id none db = raised case_not_found
    execute_found command decision_id (some case) db =
        execute_once command decision_id case (get_attempt command.idempotency_key db.attempts) db

    -- `execute_command`
    unfoldable pub execute_command :
        RecoveryCommand → Option ℕ → Db F → Result (OrchestrationResult × Db F)
    execute_command command decision_id db =
        execute_found command decision_id (get_case command.case_id db) db
