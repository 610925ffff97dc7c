-- ===== src/Persistence/Rows.antt =====
-- The rows of recovery_case.py, recovery_attempt.py, recovery_outcome.py, order.py, payment.py,
-- customer.py, merchant.py and raw_event.py,
-- and the command of backend/packages/domain/commands.py. UUIDs are numbers, times are
-- microseconds, money columns are signed integers. Descriptive texts and JSON blobs that no
-- modelled code reads are left out. `F` is the type of floats.
use razor_flow.Prelude.{
  ℕ, ◌≡◌, ◌↔◌, Bool, true, ◌&&◌, Option, List, Text, arith, Eq, nat_beq, ◌==◌, Error,
}
use razor_flow.Prelude.Int.{ℤ}
use razor_flow.Prelude.Json.{Json}
use razor_flow.Domain.Enums.{
  OrderStatus, PaymentStatus, RecoveryCaseStatus, RecoveryActionType, PolicyVerdict,
  RecoveryAttemptStatus, action_eq,
}
use razor_flow.Domain.Entities.{RuleCode}
use razor_flow.Domain.MerchantPolicy.{PolicyConfig}

pub record RecoveryCaseModel (F : Type 0) : Type 0 where
  pub id : ℕ
  pub merchant_id : ℕ
  pub order_id : ℕ
  pub initial_payment_id : ℕ
  pub customer_id : Option ℕ
  pub amount_at_risk_cents : ℤ
  pub amount_recovered_cents : ℤ
  pub currency : Text
  pub status : RecoveryCaseStatus
  -- the stored value of the category, any text
  pub failure_category : Option Text
  pub is_transient : Bool
  pub recovery_probability : Option F
  pub expected_recovery_value_cents : Option ℤ
  pub current_attempt_count : ℕ
  pub max_allowed_attempts : ℕ
  pub deadline_at : ℕ
  pub next_action_scheduled_at : Option ℕ
  pub last_attempt_at : Option ℕ
  -- `metadata_json.get("active_payment_link_id")`
  pub active_payment_link_id : Option Text

-- f"cmd_{case_id}_{attempt_number}_{action_type.value}". A UUID has a fixed length and a number
-- holds no `_`, so two keys are equal texts exactly when the three parts agree.
pub record IdempotencyKey : Type 0 where
  pub case_id : ℕ
  pub attempt_number : ℕ
  pub action_type : RecoveryActionType

abbrev pub key_beq : IdempotencyKey → IdempotencyKey → Bool
key_beq a b =
    nat_beq a.case_id b.case_id
    && nat_beq a.attempt_number b.attempt_number
    && (a.action_type == b.action_type)

pub key_beq_iff : (a b : IdempotencyKey) → (key_beq a b ≡ true) ↔ (a ≡ b)
key_beq_iff a b = (λ h. ground arith, λ h. ground arith)

instance abbrev pub key_eq : Eq IdempotencyKey
key_eq = record { equal = key_beq; equal_iff = key_beq_iff }

-- `RecoveryCommand`, with its two payload entries.
pub record RecoveryCommand : Type 0 where
  pub case_id : ℕ
  pub merchant_id : ℕ
  pub order_id : ℕ
  pub action_type : RecoveryActionType
  pub idempotency_key : IdempotencyKey
  pub amount_at_risk_cents : ℤ
  pub currency : Text
  pub deadline_at : ℕ
  pub rule_code : RuleCode
  pub reassessment_delay_seconds : Option ℕ

pub record RecoveryDecisionModel : Type 0 where
  pub id : ℕ
  pub case_id : ℕ
  pub merchant_id : ℕ
  pub attempt_number : ℕ
  pub eligible_candidate_actions : List RecoveryActionType
  pub ai_recommended_action : RecoveryActionType
  pub policy_verdict : PolicyVerdict
  pub authorized_action : RecoveryActionType
  pub policy_rule_triggered : RuleCode
  -- of `policy_details`
  pub reassessment_delay_seconds : Option ℕ

pub record RecoveryAttemptModel : Type 0 where
  pub id : ℕ
  pub case_id : ℕ
  pub merchant_id : ℕ
  pub decision_id : Option ℕ
  pub action_type : RecoveryActionType
  pub idempotency_key : IdempotencyKey
  pub status : RecoveryAttemptStatus
  pub gateway_reference_id : Option Text
  pub dispatched_at : Option ℕ
  pub completed_at : Option ℕ

pub record RecoveryOutcomeModel : Type 0 where
  pub id : ℕ
  pub case_id : ℕ
  pub merchant_id : ℕ
  pub settling_payment_id : Option ℕ
  pub successful_attempt_id : Option ℕ
  pub is_successful : Bool
  pub amount_recovered_cents : ℤ
  pub cost_incurred_cents : ℕ
  pub net_recovery_cents : ℤ
  pub recovery_method : Option RecoveryActionType
  pub verification_source : Text
  pub verified_at : ℕ

pub record OrderModel : Type 0 where
  pub id : ℕ
  pub merchant_id : ℕ
  pub customer_id : Option ℕ
  pub external_order_id : Text
  pub amount_cents : ℤ
  pub currency : Text
  pub status : OrderStatus

pub record PaymentModel : Type 0 where
  pub id : ℕ
  pub merchant_id : ℕ
  pub order_id : ℕ
  pub customer_id : Option ℕ
  pub external_payment_id : Text
  pub amount_cents : ℤ
  pub currency : Text
  pub status : PaymentStatus

pub record CustomerModel (F : Type 0) : Type 0 where
  pub id : ℕ
  pub merchant_id : ℕ
  pub email : Option Text
  pub phone : Option Text
  pub name : Option Text
  pub risk_score : F
  pub recovery_success_count : ℕ
  pub total_failure_count : ℕ

pub record MerchantProviderConfigModel : Type 0 where
  pub id : ℕ
  pub provider : Text
  pub webhook_secret_enc : Text
  pub is_active : Bool
  pub config_json : PolicyConfig

pub record MerchantModel : Type 0 where
  pub id : ℕ
  pub slug : Text
  pub currency : Text
  pub is_active : Bool
  pub provider_configs : List MerchantProviderConfigModel

pub record RawWebhookEventModel : Type 0 where
  pub id : ℕ
  pub merchant_id : ℕ
  pub event_id : Text
  pub event_type : Text
  pub payload : Json
  pub signature : Text
  pub headers : List (Text × Text)
  pub processed : Bool
  -- the exception that the text tells
  pub processing_error : Option Error
