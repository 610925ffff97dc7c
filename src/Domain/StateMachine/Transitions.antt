-- ===== src/Domain/StateMachine/Transitions.antt =====
-- The tables ALLOWED_TRANSITIONS, `can_transition` and `validate_transition`.
use razor_flow.Prelude.{
  Bool, List, [], ◌∷◌, contains, Result, raise_unless, invalid_state_transition,
}
use razor_flow.Domain.Enums.{
  RecoveryCaseStatus, RecoveryAttemptStatus, case_status_eq, attempt_status_eq,
}

-- `CaseStateMachine.ALLOWED_TRANSITIONS.get(current, set())`; every status is a key.
abbrev pub allowed_transitions : RecoveryCaseStatus → List RecoveryCaseStatus
allowed_transitions RecoveryCaseStatus.detected =
    RecoveryCaseStatus.enriching ∷ RecoveryCaseStatus.unrecoverable ∷ RecoveryCaseStatus.stopped
    ∷ []
allowed_transitions RecoveryCaseStatus.enriching =
    RecoveryCaseStatus.diagnosing ∷ RecoveryCaseStatus.unrecoverable ∷ RecoveryCaseStatus.stopped
    ∷ []
allowed_transitions RecoveryCaseStatus.diagnosing =
    RecoveryCaseStatus.strategy_generated ∷ RecoveryCaseStatus.unrecoverable
    ∷ RecoveryCaseStatus.stopped ∷ []
allowed_transitions RecoveryCaseStatus.strategy_generated =
    RecoveryCaseStatus.policy_check_pending ∷ RecoveryCaseStatus.stopped ∷ []
allowed_transitions RecoveryCaseStatus.policy_check_pending =
    RecoveryCaseStatus.approved ∷ RecoveryCaseStatus.rejected ∷ RecoveryCaseStatus.escalated ∷ []
allowed_transitions RecoveryCaseStatus.approved =
    RecoveryCaseStatus.executing ∷ RecoveryCaseStatus.waiting_external ∷ RecoveryCaseStatus.stopped
    ∷ []
allowed_transitions RecoveryCaseStatus.rejected =
    RecoveryCaseStatus.stopped ∷ RecoveryCaseStatus.unrecoverable ∷ []
allowed_transitions RecoveryCaseStatus.escalated =
    RecoveryCaseStatus.approved ∷ RecoveryCaseStatus.stopped ∷ RecoveryCaseStatus.unrecoverable ∷ []
allowed_transitions RecoveryCaseStatus.executing =
    RecoveryCaseStatus.waiting_external ∷ RecoveryCaseStatus.verifying
    ∷ RecoveryCaseStatus.unrecoverable ∷ RecoveryCaseStatus.stopped ∷ []
allowed_transitions RecoveryCaseStatus.waiting_external =
    RecoveryCaseStatus.verifying ∷ RecoveryCaseStatus.diagnosing ∷ RecoveryCaseStatus.expired
    ∷ RecoveryCaseStatus.stopped ∷ []
allowed_transitions RecoveryCaseStatus.verifying =
    RecoveryCaseStatus.recovered ∷ RecoveryCaseStatus.diagnosing ∷ RecoveryCaseStatus.unrecoverable
    ∷ RecoveryCaseStatus.stopped ∷ []
allowed_transitions RecoveryCaseStatus.recovered = []
allowed_transitions RecoveryCaseStatus.unrecoverable = []
allowed_transitions RecoveryCaseStatus.expired = []
allowed_transitions RecoveryCaseStatus.stopped = []

unfoldable pub can_transition : RecoveryCaseStatus → RecoveryCaseStatus → Bool
can_transition current target = contains target (allowed_transitions current)

unfoldable pub validate_transition : RecoveryCaseStatus → RecoveryCaseStatus → Result (Unit {0})
unfolding can_transition
validate_transition current target =
    raise_unless (can_transition current target) invalid_state_transition

-- `AttemptStateMachine.ALLOWED_TRANSITIONS`
abbrev pub attempt_allowed_transitions : RecoveryAttemptStatus → List RecoveryAttemptStatus
attempt_allowed_transitions RecoveryAttemptStatus.draft =
    RecoveryAttemptStatus.dispatched ∷ RecoveryAttemptStatus.failed ∷ []
attempt_allowed_transitions RecoveryAttemptStatus.dispatched =
    RecoveryAttemptStatus.acknowledged ∷ RecoveryAttemptStatus.succeeded
    ∷ RecoveryAttemptStatus.failed ∷ RecoveryAttemptStatus.timed_out ∷ []
attempt_allowed_transitions RecoveryAttemptStatus.acknowledged =
    RecoveryAttemptStatus.succeeded ∷ RecoveryAttemptStatus.failed ∷ RecoveryAttemptStatus.timed_out
    ∷ []
attempt_allowed_transitions RecoveryAttemptStatus.succeeded = []
attempt_allowed_transitions RecoveryAttemptStatus.failed = []
attempt_allowed_transitions RecoveryAttemptStatus.timed_out = []

unfoldable pub attempt_can_transition : RecoveryAttemptStatus → RecoveryAttemptStatus → Bool
attempt_can_transition current target = contains target (attempt_allowed_transitions current)

unfoldable pub attempt_validate_transition :
    RecoveryAttemptStatus → RecoveryAttemptStatus → Result (Unit {0})
unfolding attempt_can_transition
attempt_validate_transition current target =
    raise_unless (attempt_can_transition current target) invalid_state_transition
