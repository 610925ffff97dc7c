-- ===== src/Api/Policies.antt =====
-- The policy endpoints that read and update a merchant's policy. The credentials but for the webhook
-- secret, and the texts of the responses, are left out.
use razor_flow.Prelude.{
  ℕ, ◌+◌, Bool, true, false, ◌&&◌, Option, none, some, List, [], ◌∷◌, ◌++◌, map, ◌==◌, leb, find,
  is_some, Text, codes, text_eq, Result, ok, raised, ◌>>=◌, raise_unless, unprocessable_request,
  integrity_error,
}
use razor_flow.Domain.Enums.{RecoveryActionType}
use razor_flow.Domain.Entities.{MerchantPolicySnapshot}
use razor_flow.Domain.MerchantPolicy.{
  RawPolicy, ArchivedPolicy, PolicyConfig, action_value, or_default, snapshot_of,
}
use razor_flow.Audit.{Crypto, AuditPayload, record_event}
use razor_flow.Persistence.{Db, MerchantModel, MerchantProviderConfigModel, update_row}
use razor_flow.Api.Cases.{resolve_merchant_by_slug}

-- `RAZORPAY_WEBHOOK_SECRET`, where it is set and not empty.
pub record Settings : Type 0 where
  pub webhook_secret : Option Text

pub record PolicyUpdateRequest : Type 0 where
  pub max_allowed_attempts : ℕ
  pub recovery_window_hours : ℕ
  pub cooldown_period_minutes : ℕ
  pub high_value_escalation_threshold_cents : ℕ
  pub disallowed_actions : List RecoveryActionType
  pub require_human_escalation_for_high_risk : Bool
  pub auto_retry_transient_failures : Bool

-- The bounds of the request's fields, which the framework checks.
abbrev pub is_valid_request : PolicyUpdateRequest → Bool
is_valid_request request =
    leb 1 request.max_allowed_attempts
    && leb request.max_allowed_attempts 5
    && leb 1 request.recovery_window_hours
    && leb request.recovery_window_hours 168
    && leb request.cooldown_period_minutes 1440
    && leb 100000 request.high_value_escalation_threshold_cents

abbrev pub is_razorpay : MerchantProviderConfigModel → Bool
is_razorpay row = (row.provider == codes "RAZORPAY") && row.is_active

abbrev pub config_id : MerchantProviderConfigModel → ℕ
config_id row = row.id

abbrev pub new_config : Settings → ℕ → MerchantProviderConfigModel
new_config settings id = record {
  id = id;
  provider = codes "RAZORPAY";
  webhook_secret_enc = or_default settings.webhook_secret (codes "rzp_webhook_secret");
  is_active = true;
  config_json = record { policy = none; policy_version = some 1; policy_history = some [] };
}

-- The configuration takes the secret of the settings.
abbrev pub synchronized_config :
    Settings → MerchantProviderConfigModel → MerchantProviderConfigModel
synchronized_config settings row = record row {
  webhook_secret_enc = or_default settings.webhook_secret row.webhook_secret_enc;
}

abbrev pub with_config : MerchantProviderConfigModel → MerchantModel → MerchantModel
with_config config merchant = record merchant {
  provider_configs = update_row config_id config.id config merchant.provider_configs;
}

-- The provider is unique for a merchant, also among the configurations that are not active.
abbrev pub ensure_config :
    Settings
    → ℕ
    → MerchantModel
    → Option MerchantProviderConfigModel
    → Result (MerchantProviderConfigModel × MerchantModel)
ensure_config settings id merchant (some found) =
    let config = synchronized_config settings found in ok (config, with_config config merchant)
ensure_config settings id merchant none =
    let config = new_config settings id in
    elim (is_some (find (λ row. row.provider == codes "RAZORPAY") merchant.provider_configs)) [
      | true ↦ raised integrity_error
      | false ↦
          ok (config, record merchant { provider_configs = config ∷ merchant.provider_configs })
    ]

-- The configuration with its snapshot, and the merchant's row.
unfoldable pub get_or_create_policy_config :
    Settings → ℕ → MerchantModel → Result (MerchantProviderConfigModel × MerchantModel)
get_or_create_policy_config settings id merchant =
    ensure_config settings id merchant (find is_razorpay merchant.provider_configs)

abbrev pub rules_of : PolicyUpdateRequest → RawPolicy
rules_of request = record {
  max_allowed_attempts = some request.max_allowed_attempts;
  recovery_window_hours = some request.recovery_window_hours;
  cooldown_period_minutes = some request.cooldown_period_minutes;
  high_value_escalation_threshold_cents = some request.high_value_escalation_threshold_cents;
  disallowed_actions = some (map action_value request.disallowed_actions);
  require_human_escalation_for_high_risk = some request.require_human_escalation_for_high_risk;
  auto_retry_transient_failures = some request.auto_retry_transient_failures;
}

abbrev pub archived : MerchantPolicySnapshot → ArchivedPolicy
archived snapshot = record {
  version = snapshot.policy_version;
  max_allowed_attempts = snapshot.max_allowed_attempts;
  recovery_window_hours = snapshot.recovery_window_hours;
  cooldown_period_minutes = snapshot.cooldown_period_minutes;
  high_value_escalation_threshold_cents = snapshot.high_value_escalation_threshold_cents;
  disallowed_actions = map action_value snapshot.disallowed_actions;
}

-- `config_json` after an update.
abbrev pub updated_config : PolicyUpdateRequest → PolicyConfig → PolicyConfig
updated_config request config = record {
  policy = some (rules_of request);
  policy_version = some ((snapshot_of config).policy_version + 1);
  policy_history =
      some (or_default config.policy_history [] ++ (archived (snapshot_of config) ∷ []));
}

module _ {F : Type 0} (settings : Settings) where
  -- The active policy and its history. The configuration that may be made here is not committed.
  unfoldable pub get_policy_config :
      Text → Db F → Result (MerchantPolicySnapshot × List ArchivedPolicy)
  get_policy_config merchant_slug db = do
    merchant ← resolve_merchant_by_slug db.merchants merchant_slug
    found ← get_or_create_policy_config settings db.next_id merchant
    ok (snapshot_of found.0.config_json, or_default found.0.config_json.policy_history [])

  -- The new version, and the database after.
  unfoldable pub update_policy : Crypto → ℕ → PolicyUpdateRequest → Text → Db F → Result (ℕ × Db F)
  update_policy crypto now request merchant_slug db = do
    _ ← raise_unless (is_valid_request request) unprocessable_request
    merchant ← resolve_merchant_by_slug db.merchants merchant_slug
    found ← get_or_create_policy_config settings db.next_id merchant
    let config : MerchantProviderConfigModel = record found.0 {
      config_json = updated_config request found.0.config_json;
    } in
        let version = (snapshot_of found.0.config_json).policy_version + 1 in
        ok (
          version,
          record db {
            merchants =
                update_row (λ row. row.id) merchant.id (with_config config found.1) db.merchants;
            ledger =
                record_event crypto merchant.id
                  (record {
                    entity_type = codes "POLICY_CONFIG";
                    entity_id = config.id;
                    action = codes "POLICY_VERSION_CREATED";
                    actor_type = codes "MERCHANT_ADMIN";
                    actor_id = merchant_slug;
                    payload = AuditPayload.policy_version_created version (rules_of request);
                  })
                  now db.ledger;
            next_id = db.next_id + 1;
          },
        )
