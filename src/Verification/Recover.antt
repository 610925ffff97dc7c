-- ===== src/Verification/Recover.antt =====
-- `VerificationService.verify_and_recover_case`. The times that a call reads are one `now`; the
-- unique case of an outcome makes its query find at most one row.
use razor_flow.Prelude.{
  ℕ, ◌+◌, Bool, true, false, not, ◌&&◌, Option, none, some, List, [], ◌∷◌, if◌then◌else◌, ◌==◌,
  find, select, nat_beq, Text, codes, text_eq,
}
use razor_flow.Prelude.Int.{ℤ, pos, pos_part, ◌-ℤ◌}
use razor_flow.Domain.Enums.{
  PaymentStatus, RecoveryCaseStatus, RecoveryActionType, RecoveryAttemptStatus, case_status_eq,
  payment_status_eq,
}
use razor_flow.Domain.StateMachine.{can_transition, attempt_can_transition}
use razor_flow.Audit.{AuditPayload, Crypto, record_event}
use razor_flow.Persistence.{
  Db, RecoveryCaseModel, RecoveryAttemptModel, RecoveryOutcomeModel, PaymentModel, save_case,
  update_row,
}
use razor_flow.Execution.{truthy}

-- `_STRATEGY_COST_MAP.get(recovery_method, 0)`, and 0 without a method.
abbrev pub strategy_cost : Option RecoveryActionType → ℕ
strategy_cost none = 0
strategy_cost (some RecoveryActionType.payment_link) = 200
strategy_cost (some RecoveryActionType.customer_reminder) = 150
strategy_cost (some RecoveryActionType.wait_and_reassess) = 0
strategy_cost (some RecoveryActionType.human_escalation) = 10000
strategy_cost (some RecoveryActionType.do_nothing) = 0

-- `VerificationResult`, less the failure's text.
pub record VerificationResult : Type 0 where
  pub is_verified : Bool
  pub case_id : ℕ
  pub outcome_id : Option ℕ
  pub case_status : RecoveryCaseStatus
  pub recovered_amount_cents : ℤ
  pub net_recovery_cents : ℤ
  pub verification_source : Text

abbrev has_reference : Text → RecoveryAttemptModel → Bool
has_reference reference att = elim att.gateway_reference_id [
  | none ↦ false
  | some own ↦ own == reference
]

abbrev pub first_of : List RecoveryAttemptModel → Option RecoveryAttemptModel
first_of [] = none
first_of (att ∷ attempts) = some att

abbrev by_reference : Option Text → List RecoveryAttemptModel → Option RecoveryAttemptModel
by_reference none attempts = none
by_reference (some reference) attempts = find (has_reference reference) attempts

abbrev or_first :
    Option RecoveryAttemptModel → List RecoveryAttemptModel → Option RecoveryAttemptModel
or_first none attempts = first_of attempts
or_first (some att) attempts = some att

-- Step 3, on the case's attempts, newest first.
unfoldable pub matching_attempt :
    Option Text → List RecoveryAttemptModel → Option RecoveryAttemptModel
matching_attempt reference attempts = or_first (by_reference (truthy reference) attempts) attempts

abbrev pub method_of : Option RecoveryAttemptModel → Option RecoveryActionType
method_of none = none
method_of (some att) = some att.action_type

abbrev pub attempt_id_of : Option RecoveryAttemptModel → Option ℕ
attempt_id_of none = none
attempt_id_of (some att) = some att.id

-- `max(0, x)`
abbrev pub floor_zero : ℤ → ℤ
floor_zero x = pos (pos_part x)

-- Step 4.
unfoldable pub recovered_status : RecoveryCaseStatus → RecoveryCaseStatus
recovered_status status =
    let verifying =
      if not (status == RecoveryCaseStatus.verifying)
        && can_transition status RecoveryCaseStatus.verifying
      then RecoveryCaseStatus.verifying
      else status in
    if can_transition verifying RecoveryCaseStatus.recovered
    then RecoveryCaseStatus.recovered
    else verifying

-- Step 5.
abbrev pub succeed :
    ℕ → Option RecoveryAttemptModel → List RecoveryAttemptModel → List RecoveryAttemptModel
succeed now none attempts = attempts
succeed now (some att) attempts =
    if attempt_can_transition att.status RecoveryAttemptStatus.succeeded
    then update_row (λ row. row.id) att.id
        (record att { status = RecoveryAttemptStatus.succeeded; completed_at = some now }) attempts
    else attempts

abbrev pub get_outcome : ℕ → List RecoveryOutcomeModel → Option RecoveryOutcomeModel
get_outcome case_id = find (λ row. nat_beq row.case_id case_id)

abbrev pub outcome_id_of : Option RecoveryOutcomeModel → Option ℕ
outcome_id_of none = none
outcome_id_of (some outcome) = some outcome.id

module _ {F : Type 0} where
  abbrev pub recorded_net : RecoveryCaseModel F → Option RecoveryOutcomeModel → ℤ
  recorded_net case none = case.amount_recovered_cents
  recorded_net case (some outcome) = outcome.net_recovery_cents

  abbrev pub not_verified : RecoveryCaseModel F → Text → VerificationResult
  not_verified case source = record {
    is_verified = false;
    case_id = case.id;
    outcome_id = none;
    case_status = case.status;
    recovered_amount_cents = pos 0;
    net_recovery_cents = pos 0;
    verification_source = source;
  }

  -- Step 1: the answer for a case that is RECOVERED already.
  abbrev pub already_recovered :
      RecoveryCaseModel F → Text → Option RecoveryOutcomeModel → VerificationResult
  already_recovered case source outcome = record {
    is_verified = true;
    case_id = case.id;
    outcome_id = outcome_id_of outcome;
    case_status = case.status;
    recovered_amount_cents = case.amount_recovered_cents;
    net_recovery_cents = recorded_net case outcome;
    verification_source = source;
  }

  module _ (crypto : Crypto) (now : ℕ) (source : Text) (reference : Option Text) where
    -- Step 6: a new row, or the columns of the one that is there; its method is left alone.
    abbrev pub outcome_row :
        RecoveryCaseModel F
        → PaymentModel
        → Option RecoveryAttemptModel
        → ℕ
        → Option RecoveryOutcomeModel
        → RecoveryOutcomeModel
    outcome_row case payment att id none = record {
      id = id;
      case_id = case.id;
      merchant_id = case.merchant_id;
      settling_payment_id = some payment.id;
      successful_attempt_id = attempt_id_of att;
      is_successful = true;
      amount_recovered_cents = payment.amount_cents;
      cost_incurred_cents = strategy_cost (method_of att);
      net_recovery_cents = floor_zero (payment.amount_cents -ℤ pos (strategy_cost (method_of att)));
      recovery_method = method_of att;
      verification_source = source;
      verified_at = now;
    }
    outcome_row case payment att id (some outcome) = record outcome {
      settling_payment_id = some payment.id;
      successful_attempt_id = attempt_id_of att;
      is_successful = true;
      amount_recovered_cents = payment.amount_cents;
      cost_incurred_cents = strategy_cost (method_of att);
      net_recovery_cents = floor_zero (payment.amount_cents -ℤ pos (strategy_cost (method_of att)));
      verification_source = source;
      verified_at = now;
    }

    abbrev pub store_outcome : RecoveryOutcomeModel → Option RecoveryOutcomeModel → Db F → Db F
    store_outcome row none db = record db { outcomes = row ∷ db.outcomes; next_id = db.next_id + 1 }
    store_outcome row (some outcome) db = record db {
      outcomes = update_row (λ r. r.id) outcome.id row db.outcomes;
    }

    abbrev pub recovered_case : RecoveryCaseModel F → PaymentModel → RecoveryCaseModel F
    recovered_case case payment = record case {
      status = recovered_status case.status;
      amount_recovered_cents = payment.amount_cents;
    }

    -- Steps 3 to 7.
    unfoldable pub recover : RecoveryCaseModel F → PaymentModel → Db F → VerificationResult × Db F
    recover case payment db =
        let att =
          matching_attempt reference (select (λ row. nat_beq row.case_id case.id) db.attempts) in
        let outcome = get_outcome case.id db.outcomes in
        let row = outcome_row case payment att db.next_id outcome in
        let case_after = recovered_case case payment in
        let stored =
          store_outcome row outcome
            (save_case case_after (record db { attempts = succeed now att db.attempts })) in
        (
          record {
            is_verified = true;
            case_id = case.id;
            outcome_id = some row.id;
            case_status = case_after.status;
            recovered_amount_cents = payment.amount_cents;
            net_recovery_cents = row.net_recovery_cents;
            verification_source = source;
          },
          record stored {
            ledger =
                record_event crypto case.merchant_id
                  (record {
                    entity_type = codes "RECOVERY_OUTCOME";
                    entity_id = row.id;
                    action = codes "PAYMENT_CAPTURED_VERIFIED";
                    actor_type = codes "SYSTEM";
                    actor_id = codes "verification-service";
                    payload =
                        AuditPayload.payment_verified case.id payment.id payment.amount_cents
                          row.net_recovery_cents source;
                  })
                  now stored.ledger;
          },
        )

    -- `verify_and_recover_case`
    unfoldable pub verify_and_recover_case :
        RecoveryCaseModel F → PaymentModel → Db F → VerificationResult × Db F
    verify_and_recover_case case payment db =
        if case.status == RecoveryCaseStatus.recovered
        then (already_recovered case source (get_outcome case.id db.outcomes), db)
        else if not (payment.status == PaymentStatus.captured)
        then (not_verified case source, db)
        else if not (payment.currency == case.currency)
        then (not_verified case source, db)
        else recover case payment db
