-- ===== src/Api/Links.antt =====
-- The execution endpoint where the latest decision is a payment link.
use razor_flow.Prelude.{
  ℕ, ◌≡◌, ◌≢◌, refl, ap, true, false, Option, none, some, [], ◌∷◌, ◌==◌, arith, Text, find, select,
  contains, nat_beq, ok,
}
use razor_flow.Domain.Enums.{RecoveryCaseStatus, RecoveryActionType, case_status_eq, action_eq}
use razor_flow.Domain.StateMachine.{
  can_transition, validate_transition, attempt_can_transition, attempt_validate_transition,
}
use razor_flow.Audit.{Crypto}
use razor_flow.Persistence.{
  Db, MerchantModel, RecoveryCaseModel, RecoveryDecisionModel, RecoveryCommand, OrderModel, key_eq,
  get_case, get_attempt, has_merchant,
}
use razor_flow.Execution.{
  execute_found, run_from, Execution, link_result, conclude, attempt_of, created, GatewayReplies,
  OrchestrationResult, terminal_statuses, start_execution, execute_new, execute_command,
  execute_action, payment_link_execute,
}
use razor_flow.Api.Cases.{
  resolve, is_decision_of, latest_attempt, command_of, execute_latest, execute_case_command,
}

-- A case in progress that no policy verdict has approved since its last attempt, or at all.
abbrev pub IsUnapproved : RecoveryCaseStatus → Type 0
IsUnapproved s =
    (contains s terminal_statuses ≡ false)
    × (s ≢ RecoveryCaseStatus.approved)
    × (s ≢ RecoveryCaseStatus.escalated)

pub approved_start : start_execution RecoveryCaseStatus.approved ≡ ok RecoveryCaseStatus.executing
unfolding start_execution validate_transition can_transition
approved_start = refl

pub unapproved_start : (s : RecoveryCaseStatus) → IsUnapproved s → start_execution s ≡ ok s
unfolding start_execution
unapproved_start s h = ground arith

module _ {F : Type 0} (crypto : Crypto) (now : ℕ) (replies : GatewayReplies) (db : Db F)
    (command : RecoveryCommand) (case : RecoveryCaseModel F) (decision_id : Option ℕ)
    (started : RecoveryCaseStatus) where
  -- What the executor of a payment link does where it finds the order and the merchant.
  abbrev link_run : Execution F
  link_run = record {
    result = link_result replies.link;
    case_after = record case { status = started };
    calls = command.idempotency_key ∷ [];
  }

  -- The result of a link request.
  abbrev pub link_sent : OrchestrationResult × Db F
  link_sent =
      conclude crypto replies now command
        (attempt_of crypto replies now db command decision_id case) link_run
        (created crypto replies now db command case)

  link_run-execute :
      (order : OrderModel)
      → command.action_type ≡ RecoveryActionType.payment_link
      → find (λ row. nat_beq row.id case.order_id) db.orders ≡ some order
      → has_merchant case.merchant_id db ≡ true
      → run_from crypto replies now db command decision_id case started ≡ ok link_run
  unfolding execute_action payment_link_execute
  link_run-execute order link ordered known = rw (link, ordered, known) refl

  link_sent-execute :
      (order : OrderModel)
      → command.action_type ≡ RecoveryActionType.payment_link
      → contains case.status terminal_statuses ≡ false
      → start_execution case.status ≡ ok started
      → get_case command.case_id db ≡ some case
      → get_attempt command.idempotency_key db.attempts ≡ none
      → find (λ row. nat_beq row.id case.order_id) db.orders ≡ some order
      → has_merchant case.merchant_id db ≡ true
      → execute_command crypto replies now command decision_id db ≡ ok link_sent
  unfolding execute_command execute_new attempt_validate_transition attempt_can_transition
  link_sent-execute order link live starts here unused ordered known =
      rw (here, execute_found, unused, live, starts, link_run-execute order link ordered known) refl

module _ {F : Type 0} (parse_uuid : Text → Option ℕ) (crypto : Crypto) (now : ℕ)
    (replies : GatewayReplies) (db : Db F) where
  -- What the endpoint does where the latest decision is a link.
  pub link_requested :
      (identifier slug : Text) (merchant : MerchantModel) (case : RecoveryCaseModel F)
      (decision : RecoveryDecisionModel) (order : OrderModel) (started : RecoveryCaseStatus)
      → resolve parse_uuid identifier slug db ≡ ok (merchant, case)
      → latest_attempt (select (is_decision_of merchant.id case.id) db.decisions) ≡ some decision
      → decision.authorized_action ≡ RecoveryActionType.payment_link
      → contains case.status terminal_statuses ≡ false
      → start_execution case.status ≡ ok started
      → get_case case.id db ≡ some case
      → get_attempt (command_of parse_uuid crypto now case decision).idempotency_key db.attempts
        ≡ none
      → find (λ row. nat_beq row.id case.order_id) db.orders ≡ some order
      → has_merchant case.merchant_id db ≡ true
      → execute_case_command parse_uuid crypto now replies identifier slug db
        ≡ ok (
            link_sent crypto now replies db
              (command_of parse_uuid crypto now case decision)
              case
              (some decision.id)
              started)
  unfolding execute_case_command
  link_requested identifier slug merchant case decision order started found latest link live starts
        here unused ordered known =
      let acts = ap (λ a. a == RecoveryActionType.do_nothing) link in
      rw (found, latest, execute_latest, acts)
        (link_sent-execute crypto now replies db (command_of parse_uuid crypto now case decision)
          case (some decision.id) started order link live starts here unused ordered known)
