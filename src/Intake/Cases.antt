-- ===== src/Intake/Cases.antt =====
-- `CaseCreationService`. The enrichment context, which is stored as metadata only, is left out.
use razor_flow.Prelude.{
  ℕ, ◌+◌, ◌*◌, Bool, true, false, not, ◌&&◌, Option, none, some, List, [], ◌∷◌, contains, select,
  nat_beq, Text, codes, Result, ok, ◌>>=◌, ◌>>◌,
}
use razor_flow.Prelude.Int.{pos}
use razor_flow.Domain.Enums.{RecoveryCaseStatus, FailureCategory, case_status_eq}
use razor_flow.Domain.StateMachine.{validate_transition}
use razor_flow.Domain.Policy.{microseconds}
use razor_flow.Audit.{AuditPayload, Crypto, record_event}
use razor_flow.Persistence.{
  Db, RecoveryCaseModel, OrderModel, PaymentModel, save_case, scalar_one_or_none,
}

-- `FailureCategory.value`
abbrev pub category_value : FailureCategory → Text
category_value FailureCategory.user_authentication_dropoff = codes "USER_AUTHENTICATION_DROPOFF"
category_value FailureCategory.insufficient_funds = codes "INSUFFICIENT_FUNDS"
category_value FailureCategory.technical_gateway_timeout = codes "TECHNICAL_GATEWAY_TIMEOUT"
category_value FailureCategory.bank_system_outage = codes "BANK_SYSTEM_OUTAGE"
category_value FailureCategory.permanent_instrument_decline = codes "PERMANENT_INSTRUMENT_DECLINE"
category_value FailureCategory.fraud_risk_block = codes "FRAUD_RISK_BLOCK"
category_value FailureCategory.unknown = codes "UNKNOWN"

abbrev pub closed_statuses : List RecoveryCaseStatus
closed_statuses =
    RecoveryCaseStatus.recovered ∷ RecoveryCaseStatus.unrecoverable ∷ RecoveryCaseStatus.expired
    ∷ RecoveryCaseStatus.stopped ∷ []

-- `DEFAULT_RECOVERY_WINDOW_HOURS`
abbrev recovery_window_hours : ℕ
recovery_window_hours = 72

-- A case and whether it is new.
pub record CaseOutcome (F : Type 0) : Type 0 where
  pub case : RecoveryCaseModel F
  pub is_new : Bool

module _ {F : Type 0} where
  abbrev pub is_open_case : ℕ → ℕ → RecoveryCaseModel F → Bool
  is_open_case merchant order row =
      nat_beq row.merchant_id merchant
      && nat_beq row.order_id order
      && not (contains row.status closed_statuses)

  unfoldable pub get_active_case_for_order : ℕ → ℕ → Db F → Result (Option (RecoveryCaseModel F))
  get_active_case_for_order merchant order db =
      scalar_one_or_none (select (is_open_case merchant order) db.cases)

  module _ (crypto : Crypto) (now merchant : ℕ) (order : OrderModel) (payment : PaymentModel)
      (customer : Option ℕ) (failure_category : FailureCategory) (is_transient_failure : Bool) where
    abbrev pub case_event : ℕ → Text → AuditPayload → Db F → Db F
    case_event id action payload db = record db {
      ledger =
          record_event crypto merchant
            (record {
              entity_type = codes "RECOVERY_CASE";
              entity_id = id;
              action = action;
              actor_type = codes "SYSTEM";
              actor_id = codes "case-creation-service";
              payload = payload;
            })
            now db.ledger;
    }

    -- The branch of an order with an active case.
    abbrev pub append_failure : RecoveryCaseModel F → Db F → CaseOutcome F × Db F
    append_failure existing db =
        let case = record existing {
          initial_payment_id = payment.id;
          failure_category = some (category_value failure_category);
          is_transient = is_transient_failure;
        } in
        (
          record { case = case; is_new = false },
          case_event case.id (codes "PAYMENT_FAILURE_APPENDED")
              (AuditPayload.failure_appended order.id payment.id failure_category)
              (save_case case db),
        )

    -- The row of a new case, in a status.
    abbrev pub new_case : ℕ → RecoveryCaseStatus → RecoveryCaseModel F
    new_case id status = record {
      id = id;
      merchant_id = merchant;
      order_id = order.id;
      initial_payment_id = payment.id;
      customer_id = customer;
      amount_at_risk_cents = payment.amount_cents;
      amount_recovered_cents = pos 0;
      currency = payment.currency;
      status = status;
      failure_category = some (category_value failure_category);
      is_transient = is_transient_failure;
      recovery_probability = none;
      expected_recovery_value_cents = none;
      current_attempt_count = 0;
      max_allowed_attempts = 2;
      deadline_at = now + microseconds (recovery_window_hours * 3600);
      next_action_scheduled_at = none;
      last_attempt_at = none;
      active_payment_link_id = none;
    }

    -- The branch of a new case: DETECTED -> ENRICHING -> DIAGNOSING.
    abbrev pub create_case : Db F → Result (CaseOutcome F × Db F)
    create_case db =
        let case = new_case db.next_id RecoveryCaseStatus.diagnosing in
        validate_transition RecoveryCaseStatus.detected RecoveryCaseStatus.enriching
        >> (validate_transition RecoveryCaseStatus.enriching RecoveryCaseStatus.diagnosing
            >> ok (
              record { case = case; is_new = true },
              case_event case.id (codes "RECOVERY_CASE_CREATED")
                  (AuditPayload.case_created order.id payment.id case.amount_at_risk_cents
                    failure_category is_transient_failure case.status)
                  (record db { cases = case ∷ db.cases; next_id = db.next_id + 1 }),
            ))

    abbrev pub create_or_append :
        Option (RecoveryCaseModel F) → Db F → Result (CaseOutcome F × Db F)
    create_or_append none db = create_case db
    create_or_append (some existing) db = ok (append_failure existing db)

    unfoldable pub create_or_update_recovery_case : Db F → Result (CaseOutcome F × Db F)
    create_or_update_recovery_case db = do
      existing ← get_active_case_for_order merchant order.id db
      create_or_append existing db
