-- ===== src/Api/Preview.antt =====
-- The policy preview of policies.py. The count of attempts of a request is a natural number.
use razor_flow.Prelude.{
  ℕ, ◌+◌, ◌*◌, Bool, true, false, not, ◌&&◌, ◌==◌, Option, none, some, [], codes, Text, Result, ok,
  ◌>>=◌, raise_unless, unprocessable_request, risk_score_out_of_range,
}
use razor_flow.Prelude.Int.{ℤ, pos}
use razor_flow.Domain.Enums.{
  RecoveryActionType, RecoveryCaseStatus, FailureCategory, PolicyVerdict, action_eq,
}
use razor_flow.Domain.Money.{MonetaryAmount, from_paise}
use razor_flow.Domain.Entities.{
  MerchantPolicySnapshot, RecoveryCaseSnapshot, CaseEnrichmentContext, RuleCode, post_init,
}
use razor_flow.Domain.Floats.{Floats}
use razor_flow.Domain.Policy.{evaluate, microseconds}
use razor_flow.Domain.MerchantPolicy.{snapshot_of}
use razor_flow.Persistence.{Db, MerchantModel}
use razor_flow.Api.Cases.{resolve_merchant_by_slug}
use razor_flow.Api.Policies.{
  Settings, PolicyUpdateRequest, is_valid_request, get_or_create_policy_config,
}

pub record PreviewResult : Type 0 where
  pub policy_verdict : PolicyVerdict
  pub authorized_action : RecoveryActionType
  pub policy_rule_triggered : RuleCode
  pub was_overridden : Bool

abbrev pub is_valid_override : Option PolicyUpdateRequest → Bool
is_valid_override none = true
is_valid_override (some override) = is_valid_request override

-- The policy of a preview: the one of the request, or the active one.
abbrev pub previewed_policy :
    Option PolicyUpdateRequest → MerchantPolicySnapshot → MerchantPolicySnapshot
previewed_policy none active = active
previewed_policy (some override) active = record {
  policy_version = 999;
  max_allowed_attempts = override.max_allowed_attempts;
  recovery_window_hours = override.recovery_window_hours;
  cooldown_period_minutes = override.cooldown_period_minutes;
  high_value_escalation_threshold_cents = override.high_value_escalation_threshold_cents;
  disallowed_actions = override.disallowed_actions;
  require_human_escalation_for_high_risk = override.require_human_escalation_for_high_risk;
  auto_retry_transient_failures = override.auto_retry_transient_failures;
}

module _ (fl : Floats) where
  open fl use {F, literal, le}

  -- The check of `RiskScore`.
  abbrev pub is_risk_score : F → Bool
  is_risk_score score = le (literal 0) score && le score (literal 100)

  pub record PolicyPreviewRequest : Type 0 where
    pub candidate_action : RecoveryActionType
    pub amount_at_risk_cents : ℤ
    pub current_attempt_count : ℕ
    pub failure_category : FailureCategory
    pub is_transient : Bool
    pub customer_risk_score : F
    pub policy_override : Option PolicyUpdateRequest

  module _ (now : ℕ) (request : PolicyPreviewRequest) where
    -- The case of a preview, whose new ids start at `id`.
    abbrev pub previewed_case :
        ℕ → ℕ → MonetaryAmount → MerchantPolicySnapshot → RecoveryCaseSnapshot
    previewed_case id merchant_id amount policy = record {
      id = id;
      merchant_id = merchant_id;
      order_id = id + 1;
      amount_at_risk = amount;
      status = RecoveryCaseStatus.diagnosing;
      failure_category = some request.failure_category;
      is_transient = request.is_transient;
      current_attempt_count = request.current_attempt_count;
      max_allowed_attempts = policy.max_allowed_attempts;
      deadline_at = now + microseconds (72 * 3600);
      last_attempt_at = none;
      active_payment_link_id = none;
    }

    abbrev pub previewed_context : ℕ → CaseEnrichmentContext
    previewed_context id = post_init (record {
      customer = some (record { id = id + 2; recovery_success_count = 4; total_failure_count = 1 });
      has_active_payment_link = false;
      customer_id = none;
      historical_success_count = 0;
      historical_failure_count = 0;
      previous_recovery_count = 0;
      customer_risk_tier = codes "UNKNOWN";
    })

    -- The answer about a case under a policy.
    abbrev pub previewed : ℕ → ℕ → MonetaryAmount → MerchantPolicySnapshot → PreviewResult
    previewed id merchant_id amount policy =
        let evaluation =
          evaluate request.candidate_action (previewed_case id merchant_id amount policy)
            (previewed_context id) policy [] now in
        record {
          policy_verdict = evaluation.verdict;
          authorized_action = evaluation.authorized_action;
          policy_rule_triggered = evaluation.rule_code;
          was_overridden = not (evaluation.authorized_action == request.candidate_action);
        }

    -- The checks of the amounts and of the risk score, and the answer.
    unfoldable pub preview_under : ℕ → MerchantModel → MerchantPolicySnapshot → Result PreviewResult
    preview_under id merchant policy = do
      amount ← from_paise request.amount_at_risk_cents merchant.currency
      _ ← from_paise (pos 0) merchant.currency
      _ ← raise_unless (is_risk_score request.customer_risk_score) risk_score_out_of_range
      ok (previewed id merchant.id amount policy)

    -- The configuration that may be made here is not committed.
    unfoldable pub preview_policy_impact : Settings → Text → Db F → Result PreviewResult
    preview_policy_impact settings merchant_slug db = do
      _ ← raise_unless (is_valid_override request.policy_override) unprocessable_request
      merchant ← resolve_merchant_by_slug db.merchants merchant_slug
      found ← get_or_create_policy_config settings db.next_id merchant
      preview_under (db.next_id + 1) merchant
          (previewed_policy request.policy_override (snapshot_of found.0.config_json))
