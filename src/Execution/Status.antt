-- ===== src/Execution/Status.antt =====
-- What an execution does to the status of its case.
use razor_flow.Prelude.{
  is_some, find, nat_beq, nat_eq, ℕ, ◌≡◌, ◌≢◌, refl, sym, ap, ◌⊎◌, inl, inr, true, false, Option,
  none, some, [], ◌∷◌, arith, if◌then◌else◌, Bool-cases, ok, raised, contains, case_terminal,
  invalid_state_transition, subst,
}
use razor_flow.Domain.Enums.{
  RecoveryCaseStatus, RecoveryActionType, RecoveryAttemptStatus, case_status_eq,
}
use razor_flow.Domain.StateMachine.{
  can_transition, validate_transition, attempt_can_transition, attempt_validate_transition,
}
use razor_flow.Domain.StateMachine.Reach.{IsTerminal}
use razor_flow.Audit.{Crypto}
use razor_flow.Persistence.{
  has_merchant, Db, RecoveryCaseModel, RecoveryCommand, get_case, get_attempt,
}
use razor_flow.Execution.Executors.{
  GatewayReplies, Execution, failed, execute_action, human_execute, payment_link_execute,
}
use razor_flow.Execution.Orchestrator.{
  OrchestrationResult, start_execution, terminal_statuses, execute_new, execute_command, conclude,
  attempt_of, created, finished_case,
}
use razor_flow.Execution.Steps.{execute_action-OnlySchedules}
use razor_flow.Execution.Idempotence.{execute_command-ok}

starts_parts :
    (s started : RecoveryCaseStatus)
    → start_execution s ≡ ok started
    → (s ≡ RecoveryCaseStatus.approved) × (started ≡ RecoveryCaseStatus.executing)
      ⊎ (s ≢ RecoveryCaseStatus.approved) × (s ≢ RecoveryCaseStatus.escalated) × (started ≡ s)
unfolding start_execution validate_transition can_transition
starts_parts s started e = ground arith

terminal_refused : (s : RecoveryCaseStatus) → IsTerminal s → contains s terminal_statuses ≡ true
terminal_refused s h = ground arith

escalated_refused : start_execution RecoveryCaseStatus.escalated ≡ raised invalid_state_transition
unfolding start_execution validate_transition can_transition
escalated_refused = refl

approved_starts : start_execution RecoveryCaseStatus.approved ≡ ok RecoveryCaseStatus.executing
unfolding start_execution validate_transition can_transition
approved_starts = refl

-- What an execution may do to a status: from APPROVED it goes to EXECUTING and may take one
-- allowed transition from there; from any other status but ESCALATED it may take one from it.
abbrev pub Moves : RecoveryCaseStatus → RecoveryCaseStatus → Type 0
Moves s t =
    (s ≡ RecoveryCaseStatus.approved)
      × ((t ≡ RecoveryCaseStatus.executing)
          ⊎ (can_transition RecoveryCaseStatus.executing t ≡ true))
    ⊎ (s ≢ RecoveryCaseStatus.approved)
      × (s ≢ RecoveryCaseStatus.escalated)
      × ((t ≡ s) ⊎ (can_transition s t ≡ true))

-- Step 10 takes an allowed transition, or none.
finish-Moves :
    (s target : RecoveryCaseStatus)
    → let t = if can_transition s target then target else s in (t ≡ s) ⊎ (can_transition s t ≡ true)
finish-Moves s target = elim (Bool-cases (can_transition s target)) [
  | inl allowed ↦ rw allowed (inr allowed)
  | inr refused ↦ rw refused (inl refl)
]

start-Moves :
    (s started t : RecoveryCaseStatus)
    → start_execution s ≡ ok started
    → (t ≡ started) ⊎ (can_transition started t ≡ true)
    → Moves s t
unfolding start_execution validate_transition
start-Moves s started t e h = elim (starts_parts s started e) [
  | inl (approved, executing) ↦
      inl (approved, subst (λ x. (t ≡ x) ⊎ (can_transition x t ≡ true)) executing h)
  | inr (other, still, same) ↦
      inr (other, still, subst (λ x. (t ≡ x) ⊎ (can_transition x t ≡ true)) same h)
]

module _ {F : Type 0} (crypto : Crypto) (replies : GatewayReplies) (now : ℕ)
    (command : RecoveryCommand) (decision_id : Option ℕ) (db : Db F) where
  -- What a command does to a case that it finds: nothing for a key that was used, and otherwise
  -- the case was not terminal and moves.
  abbrev pub Follows : RecoveryCaseModel F → OrchestrationResult × Db F → Type 0
  Follows case after =
      (get_case command.case_id db ≡ some case)
      × ((after.0.is_duplicate_execution ≡ true) × (after.1 ≡ db)
          ⊎ (after.0.is_duplicate_execution ≡ false)
            × (¬ (IsTerminal case.status))
            × Moves case.status after.0.case_status)

  human_stays :
      (case : RecoveryCaseModel F)
      → case.status ≡ RecoveryCaseStatus.executing
      → (finished_case (human_execute case).case_after (human_execute case).result now).status
        ≡ RecoveryCaseStatus.executing
  unfolding human_execute can_transition
  human_stays case e = rw e refl

  executed_follows :
      (case : RecoveryCaseModel F) (run : Execution F) {started : RecoveryCaseStatus}
      → start_execution case.status ≡ ok started
      → run.case_after.status ≡ started
      → Moves case.status
          (conclude crypto replies now command
            (attempt_of crypto replies now db command decision_id case)
            run
            (created crypto replies now db command case)).0.case_status
  executed_follows case run {started = started} starts same =
      start-Moves case.status started _ starts
        (rw same (finish-Moves started run.result.target_case_status))

  -- A command that returns either was executed before, and changes nothing, or it ran on a case
  -- that was not terminal and not ESCALATED: an APPROVED case has become EXECUTING, or what one
  -- allowed transition makes of EXECUTING, and a case in any other status has kept it or taken one
  -- allowed transition.
  pub execute-Follows :
      {after : OrchestrationResult × Db F}
      → execute_command crypto replies now command decision_id db ≡ ok after
      → (case : RecoveryCaseModel F) × Follows case after
  execute-Follows {after = after} e =
      let (case, found, how) = execute_command-ok crypto replies now command decision_id db e in
      (
        case,
        (
          found,
          elim how [
            | inl (attempt, used, same) ↦
                inl (ap (λ x. x.0.is_duplicate_execution) (sym same), ap (λ x. x.1) (sym same))
            | inr (unused, (started, run, live, starts, ran, same)) ↦
                let (at, kept, _) = execute_action-OnlySchedules _ _ command _ replies now ran in
                inr (
                  ap (λ x. x.0.is_duplicate_execution) (sym same),
                  live,
                  subst (λ x. Moves case.status x.0.case_status) same
                      (executed_follows case run starts (ap (λ c. c.status) kept)),
                )
          ],
        ),
      )

  module _ (case : RecoveryCaseModel F) (found : get_case command.case_id db ≡ some case)
      (unused : get_attempt command.idempotency_key db.attempts ≡ none) where
    -- A new command on a terminal case is refused.
    pub execute_terminal :
        IsTerminal case.status
        → execute_command crypto replies now command decision_id db ≡ raised case_terminal
    unfolding execute_command execute_new
    execute_terminal terminal = rw (found, unused, terminal_refused case.status terminal)

    -- A new command on an ESCALATED case raises an invalid transition, whatever it asks for.
    pub execute_escalated :
        case.status ≡ RecoveryCaseStatus.escalated
        → execute_command crypto replies now command decision_id db
          ≡ raised invalid_state_transition
    unfolding execute_command execute_new
    execute_escalated escalated = rw (found, unused, escalated, escalated_refused)

  -- An escalation to a human that is executed on an APPROVED case leaves the case EXECUTING: the
  -- status ESCALATED, which its executor asks for, cannot follow.
  pub escalation_stays_executing :
      (case : RecoveryCaseModel F)
      → get_case command.case_id db ≡ some case
      → get_attempt command.idempotency_key db.attempts ≡ none
      → command.action_type ≡ RecoveryActionType.human_escalation
      → case.status ≡ RecoveryCaseStatus.approved
      → (after : OrchestrationResult × Db F) × (execute_command crypto replies now command
            decision_id db
          ≡ ok after)
        × (after.0.case_status ≡ RecoveryCaseStatus.executing)
  unfolding execute_command execute_new execute_action attempt_validate_transition
      attempt_can_transition
  escalation_stays_executing case found unused human approved = (
    conclude crypto replies now command (attempt_of crypto replies now db command decision_id case)
        (human_execute (record case { status = RecoveryCaseStatus.executing }))
        (created crypto replies now db command case),
    rw (found, unused, human, approved, approved_starts) refl,
    human_stays (record case { status = RecoveryCaseStatus.executing }) refl,
  )

  -- A link request that fails with an exception also leaves an APPROVED case EXECUTING, with a
  -- FAILED attempt, although the executor asks for DIAGNOSING.
  pub link_exception_stays_executing :
      (case : RecoveryCaseModel F)
      → get_case command.case_id db ≡ some case
      → get_attempt command.idempotency_key db.attempts ≡ none
      → command.action_type ≡ RecoveryActionType.payment_link
      → case.status ≡ RecoveryCaseStatus.approved
      → replies.link ≡ none
      → is_some (find (λ row. nat_beq row.id case.order_id) db.orders) ≡ true
      → has_merchant case.merchant_id db ≡ true
      → (after : OrchestrationResult × Db F) × (execute_command crypto replies now command
            decision_id db
          ≡ ok after)
        × (after.0.case_status ≡ RecoveryCaseStatus.executing)
        × (after.0.attempt_status ≡ RecoveryAttemptStatus.failed)
  unfolding execute_command execute_new execute_action payment_link_execute
      attempt_validate_transition attempt_can_transition can_transition
  link_exception_stays_executing case found unused action approved lost ordered known = (
    conclude crypto replies now command (attempt_of crypto replies now db command decision_id case)
        (record {
          result = failed RecoveryCaseStatus.diagnosing none;
          case_after = record case { status = RecoveryCaseStatus.executing };
          calls = command.idempotency_key ∷ [];
        })
        (created crypto replies now db command case),
    rw (found, unused, action, approved, approved_starts, ordered, known, lost) refl,
    refl,
    refl,
  )
