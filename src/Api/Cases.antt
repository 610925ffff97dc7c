-- ===== src/Api/Cases.antt =====
-- The endpoints of recovery cases. A response's rows stand for the dictionaries made of them; the
-- checks of query parameters by the framework are left out, and so are the joined order and
-- customer, and the audit trail of the details. Where the framework parses a UUID, `parse_uuid` does.
use razor_flow.Prelude.{
  ℕ, ◌+◌, Bool, true, false, ◌&&◌, Option, none, some, List, [], ◌∷◌, if◌then◌else◌, ◌==◌, ltb, leb,
  nat_beq, find, select, take, drop, reverse, Text, codes, text_eq, Result, ok, raised, ◌>>=◌,
  merchant_not_found, case_not_found, order_not_found, outcome_not_found, no_authorized_command,
}
use razor_flow.Domain.Enums.{
  RecoveryCaseStatus, RecoveryActionType, PaymentStatus, case_status_eq, action_eq,
}
use razor_flow.Audit.{Crypto}
use razor_flow.Persistence.{
  Db, MerchantModel, RecoveryCaseModel, RecoveryDecisionModel, RecoveryAttemptModel,
  RecoveryOutcomeModel, RecoveryCommand, OrderModel, PaymentModel,
}
use razor_flow.Execution.{GatewayReplies, OrchestrationResult, execute_command}
use razor_flow.Verification.{VerificationResult, verify_and_recover_case, link_of}
use razor_flow.Webhooks.{or_raise}

-- `resolve_merchant_by_slug`; the slug is unique.
unfoldable pub resolve_merchant_by_slug : List MerchantModel → Text → Result MerchantModel
resolve_merchant_by_slug merchants slug =
    or_raise (find (λ row. (row.slug == slug) && row.is_active) merchants) merchant_not_found

abbrev pub has_reference_id : ℕ → Text → RecoveryAttemptModel → Bool
has_reference_id merchant_id identifier row =
    nat_beq row.merchant_id merchant_id
    && elim row.gateway_reference_id [ none ↦ false | some ref ↦ ref == identifier ]

-- `status` as a filter, if it is given.
abbrev pub has_status : Option RecoveryCaseStatus → RecoveryCaseStatus → Bool
has_status none status = true
has_status (some s) status = status == s

abbrev pub is_decision_of : ℕ → ℕ → RecoveryDecisionModel → Bool
is_decision_of merchant_id case_id row =
    nat_beq row.case_id case_id && nat_beq row.merchant_id merchant_id

-- `order_by(attempt_number.desc()).limit(1)`
abbrev pub higher_attempt :
    RecoveryDecisionModel → Option RecoveryDecisionModel → RecoveryDecisionModel
higher_attempt row none = row
higher_attempt row (some other) = if ltb row.attempt_number other.attempt_number then other else row

abbrev pub latest_attempt : List RecoveryDecisionModel → Option RecoveryDecisionModel
latest_attempt [] = none
latest_attempt (row ∷ rows) = some (higher_attempt row (latest_attempt rows))

-- `order_by(attempt_number.asc())`
abbrev insert_decision :
    RecoveryDecisionModel → List RecoveryDecisionModel → List RecoveryDecisionModel
insert_decision row [] = row ∷ []
insert_decision row (x ∷ rows) =
    let rest = insert_decision row rows in
    if leb row.attempt_number x.attempt_number then row ∷ x ∷ rows else x ∷ rest

abbrev by_attempt_number : List RecoveryDecisionModel → List RecoveryDecisionModel
by_attempt_number [] = []
by_attempt_number (row ∷ rows) = insert_decision row (by_attempt_number rows)

module _ {F : Type 0} where
  abbrev pub is_case_of : ℕ → ℕ → RecoveryCaseModel F → Bool
  is_case_of merchant_id case_id row = nat_beq row.id case_id && nat_beq row.merchant_id merchant_id

  -- Step 2 of `resolve_case_by_id_or_link`: by the reference of an attempt.
  abbrev pub case_by_link : ℕ → Text → Db F → Option (RecoveryCaseModel F)
  case_by_link merchant_id identifier db =
      elim (find (has_reference_id merchant_id identifier) db.attempts) [
        | none ↦ none
        | some attempt ↦ find (is_case_of merchant_id attempt.case_id) db.cases
      ]

  abbrev pub case_by_id : ℕ → Option ℕ → Db F → Option (RecoveryCaseModel F)
  case_by_id merchant_id none db = none
  case_by_id merchant_id (some id) db = find (is_case_of merchant_id id) db.cases

  abbrev pub case_or_link :
      ℕ → Text → Option (RecoveryCaseModel F) → Db F → Option (RecoveryCaseModel F)
  case_or_link merchant_id identifier none db = case_by_link merchant_id identifier db
  case_or_link merchant_id identifier (some case) db = some case

  -- The page of cases, newest first.
  unfoldable pub list_recovery_cases :
      Text → Option RecoveryCaseStatus → ℕ → ℕ → Db F → Result (List (RecoveryCaseModel F))
  list_recovery_cases merchant_slug case_status limit offset db = do
    merchant ← resolve_merchant_by_slug db.merchants merchant_slug
    let rows =
          select (λ row. nat_beq row.merchant_id merchant.id && has_status case_status row.status)
            db.cases in
        ok (take limit (drop offset rows))

  module _ (parse_uuid : Text → Option ℕ) where
    unfoldable pub resolve_case_by_id_or_link : ℕ → Text → Db F → Option (RecoveryCaseModel F)
    resolve_case_by_id_or_link merchant_id identifier db =
        case_or_link merchant_id identifier (case_by_id merchant_id (parse_uuid identifier) db) db

    -- The start of each endpoint of a case: its merchant and the case.
    unfoldable pub resolve : Text → Text → Db F → Result (MerchantModel × RecoveryCaseModel F)
    resolve identifier merchant_slug db = do
      merchant ← resolve_merchant_by_slug db.merchants merchant_slug
      case ← or_raise (resolve_case_by_id_or_link merchant.id identifier db) case_not_found
      ok (merchant, case)

    -- The case and its active payment link.
    unfoldable pub get_recovery_case :
        Text → Text → Db F → Result (RecoveryCaseModel F × Option Text)
    get_recovery_case identifier merchant_slug db = do
      found ← resolve identifier merchant_slug db
      ok (found.1, link_of (select (λ row. nat_beq row.case_id found.1.id) db.attempts))

    unfoldable pub get_case_decisions : Text → Text → Db F → Result (List RecoveryDecisionModel)
    get_case_decisions identifier merchant_slug db = do
      found ← resolve identifier merchant_slug db
      ok (by_attempt_number (select (is_decision_of found.0.id found.1.id) db.decisions))

    -- The attempts, oldest first.
    unfoldable pub get_case_attempts : Text → Text → Db F → Result (List RecoveryAttemptModel)
    get_case_attempts identifier merchant_slug db = do
      found ← resolve identifier merchant_slug db
      ok (
          reverse (
            select (λ row. nat_beq row.case_id found.1.id && nat_beq row.merchant_id found.0.id)
              db.attempts))

    unfoldable pub get_case_outcome : Text → Text → Db F → Result RecoveryOutcomeModel
    get_case_outcome identifier merchant_slug db = do
      found ← resolve identifier merchant_slug db
      or_raise
          (find (λ row. nat_beq row.case_id found.1.id && nat_beq row.merchant_id found.0.id)
            db.outcomes)
          outcome_not_found

    module _ (crypto : Crypto) (now : ℕ) where
      -- `RecoveryCommand.create` of the latest decision.
      abbrev pub command_of : RecoveryCaseModel F → RecoveryDecisionModel → RecoveryCommand
      command_of case decision = record {
        case_id = case.id;
        merchant_id = case.merchant_id;
        order_id = case.order_id;
        action_type = decision.authorized_action;
        idempotency_key = record {
          case_id = case.id;
          attempt_number = case.current_attempt_count + 1;
          action_type = decision.authorized_action;
        };
        amount_at_risk_cents = case.amount_at_risk_cents;
        currency = case.currency;
        deadline_at = case.deadline_at;
        rule_code = decision.policy_rule_triggered;
        reassessment_delay_seconds = decision.reassessment_delay_seconds;
      }

      abbrev pub execute_latest :
          GatewayReplies
          → RecoveryCaseModel F
          → Option RecoveryDecisionModel
          → Db F
          → Result (OrchestrationResult × Db F)
      execute_latest replies case none db = raised no_authorized_command
      execute_latest replies case (some decision) db =
          elim (decision.authorized_action == RecoveryActionType.do_nothing) [
            | true ↦ raised no_authorized_command
            | false ↦
                execute_command crypto replies now (command_of case decision) (some decision.id) db
          ]

      unfoldable pub execute_case_command :
          GatewayReplies → Text → Text → Db F → Result (OrchestrationResult × Db F)
      execute_case_command replies identifier merchant_slug db = do
        found ← resolve identifier merchant_slug db
        execute_latest replies found.1
            (latest_attempt (select (is_decision_of found.0.id found.1.id) db.decisions)) db

      -- `fresh` is the external id of the simulated payment.
      abbrev pub simulated_payment :
          Text → MerchantModel → RecoveryCaseModel F → OrderModel → ℕ → PaymentModel
      simulated_payment fresh merchant case order id = record {
        id = id;
        merchant_id = merchant.id;
        order_id = order.id;
        customer_id = none;
        external_payment_id = fresh;
        amount_cents = case.amount_at_risk_cents;
        currency = case.currency;
        status = PaymentStatus.captured;
      }

      unfoldable pub simulate_payment :
          Text → Text → Text → Db F → Result (VerificationResult × Db F)
      simulate_payment fresh identifier merchant_slug db = do
        found ← resolve identifier merchant_slug db
        order ← or_raise (find (λ row. nat_beq row.id found.1.order_id) db.orders) order_not_found
        let payment = simulated_payment fresh found.0 found.1 order db.next_id in
            ok (
              verify_and_recover_case crypto now (codes "DEMO_SIMULATION") none found.1 payment
                (record db { payments = payment ∷ db.payments; next_id = db.next_id + 1 }))
