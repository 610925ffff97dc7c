-- ===== src/Api/PolicyVersions.antt =====
-- A policy that was updated is the active one, and the one before is archived.
use razor_flow.Prelude.{map, ℕ, Bool, ◌&&◌, ◌==◌, Text, text_eq}
use razor_flow.Domain.Entities.{MerchantPolicySnapshot}
use razor_flow.Domain.MerchantPolicy.{action_value, ArchivedPolicy}
use razor_flow.Persistence.{MerchantModel, MerchantProviderConfigModel}
use razor_flow.Api.Policies.{Settings, PolicyUpdateRequest, updated_config}

-- The snapshot of a request.
abbrev pub requested : ℕ → PolicyUpdateRequest → MerchantPolicySnapshot
requested version request = record {
  policy_version = version;
  max_allowed_attempts = request.max_allowed_attempts;
  recovery_window_hours = request.recovery_window_hours;
  cooldown_period_minutes = request.cooldown_period_minutes;
  high_value_escalation_threshold_cents = request.high_value_escalation_threshold_cents;
  disallowed_actions = request.disallowed_actions;
  require_human_escalation_for_high_risk = request.require_human_escalation_for_high_risk;
  auto_retry_transient_failures = request.auto_retry_transient_failures;
}

-- What the history keeps of a policy.
abbrev pub kept_of : MerchantPolicySnapshot → ArchivedPolicy
kept_of policy = record {
  version = policy.policy_version;
  max_allowed_attempts = policy.max_allowed_attempts;
  recovery_window_hours = policy.recovery_window_hours;
  cooldown_period_minutes = policy.cooldown_period_minutes;
  high_value_escalation_threshold_cents = policy.high_value_escalation_threshold_cents;
  disallowed_actions = map action_value policy.disallowed_actions;
}

abbrev names : Text → MerchantModel → Bool
names slug row = (row.slug == slug) && row.is_active

module _ (settings : Settings) where
  module _ (request : PolicyUpdateRequest) (merchant : MerchantModel)
      (config : MerchantProviderConfigModel) where
    -- The configuration with the request's policy.
    abbrev pub updated : MerchantProviderConfigModel
    updated = record config { config_json = updated_config request config.config_json }
