-- ===== src/Domain/Entities.antt =====
-- The snapshots of backend/packages/domain/entities.py, the merchant policy of
-- backend/packages/domain/policy/snapshot.py and the evaluation result of policy/result.py.
-- Datetimes are microseconds since an epoch, as Python's `datetime` stores them. Fields that no
-- modelled code reads (names, contact data, reasoning texts, stored scores) are left out.
use razor_flow.Prelude.{
  ℕ, Bool, true, Option, none, some, List, [], Text, ltb, nat_beq, ◌&&◌, if◌then◌else◌,
}
use razor_flow.Domain.Enums.{RecoveryCaseStatus, RecoveryActionType, FailureCategory, PolicyVerdict}
use razor_flow.Domain.Money.{MonetaryAmount}

pub record RecoveryCaseSnapshot : Type 0 where
  pub id : ℕ
  pub merchant_id : ℕ
  pub order_id : ℕ
  pub amount_at_risk : MonetaryAmount
  pub status : RecoveryCaseStatus
  pub failure_category : Option FailureCategory
  pub is_transient : Bool
  pub current_attempt_count : ℕ
  pub max_allowed_attempts : ℕ
  pub deadline_at : ℕ
  pub last_attempt_at : Option ℕ
  -- `metadata.get("active_payment_link_id")`
  pub active_payment_link_id : Option Text

pub record CustomerSnapshot : Type 0 where
  pub id : ℕ
  pub recovery_success_count : ℕ
  pub total_failure_count : ℕ

pub record CaseEnrichmentContext : Type 0 where
  pub customer : Option CustomerSnapshot
  pub has_active_payment_link : Bool
  pub customer_id : Option ℕ
  pub historical_success_count : ℕ
  pub historical_failure_count : ℕ
  pub previous_recovery_count : ℕ
  pub customer_risk_tier : Text

-- `if field == 0 and value > 0: field = value`
abbrev fill_count : ℕ → ℕ → ℕ
fill_count field value = if nat_beq field 0 && ltb 0 value then value else field

-- An id is an object and is never false, so `not self.customer_id` is `is None`.
abbrev fill_id : Option ℕ → ℕ → Option ℕ
fill_id none value = some value
fill_id (some own) value = some own

fill_from : Option CustomerSnapshot → CaseEnrichmentContext → CaseEnrichmentContext
fill_from none c = c
fill_from (some customer) c = record c {
  customer_id = fill_id c.customer_id customer.id;
  historical_success_count = fill_count c.historical_success_count customer.recovery_success_count;
  historical_failure_count = fill_count c.historical_failure_count customer.total_failure_count;
  previous_recovery_count = fill_count c.previous_recovery_count customer.recovery_success_count;
}

-- `CaseEnrichmentContext.__post_init__`
unfoldable pub post_init : CaseEnrichmentContext → CaseEnrichmentContext
unfolding fill_from
post_init c = fill_from c.customer c

pub record MerchantPolicySnapshot : Type 0 where
  pub policy_version : ℕ
  pub max_allowed_attempts : ℕ
  pub recovery_window_hours : ℕ
  pub cooldown_period_minutes : ℕ
  pub high_value_escalation_threshold_cents : ℕ
  pub disallowed_actions : List RecoveryActionType
  pub require_human_escalation_for_high_risk : Bool
  pub auto_retry_transient_failures : Bool

abbrev pub default_policy : MerchantPolicySnapshot
default_policy = record {
  policy_version = 1;
  max_allowed_attempts = 2;
  recovery_window_hours = 72;
  cooldown_period_minutes = 30;
  high_value_escalation_threshold_cents = 5000000;
  disallowed_actions = [];
  require_human_escalation_for_high_risk = true;
  auto_retry_transient_failures = true;
}

-- The codes that the engine writes into `rule_code`.
pub data RuleCode : Type 0 where
  case_already_terminal deadline_expired max_attempts_exceeded cooldown_active : RuleCode
  fraud_risk_guard no_active_payment_link high_value_threshold_exceeded : RuleCode
  action_disallowed_by_merchant no_intervention_authorized policy_approval_cleared : RuleCode

-- The human-readable `reason` and the empty `metadata` are left out.
pub record PolicyEvaluationResult : Type 0 where
  pub verdict : PolicyVerdict
  pub proposed_action : RecoveryActionType
  pub authorized_action : RecoveryActionType
  pub rule_code : RuleCode
  pub policy_version : ℕ
  pub reassessment_delay_seconds : Option ℕ
