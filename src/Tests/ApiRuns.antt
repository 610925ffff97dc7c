-- ===== src/Tests/ApiRuns.antt =====
-- Requests about the stored case.
use razor_flow.Prelude.{
  map, ℕ, ◌≡◌, ◌⊎◌, ◌≤◌, ◌+◌, refl, true, false, Option, none, some, [], ◌∷◌, Text, codes, ok,
  arith, Member,
}
use razor_flow.Prelude.Int.{pos}
use razor_flow.Domain.Enums.{RecoveryActionType, RecoveryCaseStatus, FailureCategory, PolicyVerdict}
use razor_flow.Domain.Entities.{RuleCode, RecoveryCaseSnapshot, default_policy}
use razor_flow.Domain.Money.{from_paise}
use razor_flow.Domain.Policy.{
  evaluate, evaluate_after_cooldown, evaluate_risk, evaluate_preferences, cooldown_remaining,
}
use razor_flow.Domain.MerchantPolicy.{snapshot_of, actions_of}
use razor_flow.Persistence.{Db, RecoveryCaseModel, RecoveryDecisionModel, IdempotencyKey}
use razor_flow.Execution.{OrchestrationResult}
use razor_flow.Api.{
  resolve, resolve_merchant_by_slug, resolve_case_by_id_or_link, execute_case_command, Settings,
  PolicyUpdateRequest, get_or_create_policy_config, get_policy_config, PolicyPreviewRequest,
  preview_under, preview_policy_impact, summary_of, get_recovery_metrics,
}
use razor_flow.Api.Tenants.{IsOwn, resolve-IsOwn}
use razor_flow.Api.Totals.{counted, at_risk, totals_fit}
use razor_flow.Api.PolicyVersions.{requested}
use razor_flow.Api.PreviewVerdict.{preview_stands}
use razor_flow.Api.Again.{key_of, execute_again}
use razor_flow.Tests.Fixtures.{
  db_with, stored_case, snapshot, context, fixed_point, later, order, shop, plain_crypto, soon,
  gateway_up, gateway_down,
}

-- Every text is the id 1.
abbrev the_first : Text → Option ℕ
the_first identifier = some 1

-- The link of the decision has been sent, and the case waits.
abbrev waiting_case : RecoveryCaseModel ℕ
waiting_case = record stored_case { status = RecoveryCaseStatus.waiting_external }

abbrev link_decision : RecoveryDecisionModel
link_decision = record {
  id = 9;
  case_id = 1;
  merchant_id = 7;
  attempt_number = 1;
  eligible_candidate_actions = RecoveryActionType.payment_link ∷ [];
  ai_recommended_action = RecoveryActionType.payment_link;
  policy_verdict = PolicyVerdict.approved;
  authorized_action = RecoveryActionType.payment_link;
  policy_rule_triggered = RuleCode.policy_approval_cleared;
  reassessment_delay_seconds = none;
}

abbrev waiting_db : Db ℕ
waiting_db = record (db_with waiting_case) { decisions = link_decision ∷ [] }

resolved : resolve the_first (codes "1") (codes "shop") waiting_db ≡ ok (shop, waiting_case)
unfolding resolve resolve_merchant_by_slug resolve_case_by_id_or_link
resolved = refl

resolve-IsOwn_example :
    Member shop waiting_db.merchants
    × (shop.slug ≡ codes "shop")
    × (shop.is_active ≡ true)
    × IsOwn the_first waiting_db shop.id waiting_case
resolve-IsOwn_example = resolve-IsOwn the_first waiting_db (codes "1") (codes "shop") resolved

-- The policy has approved a link, which was not sent yet.
abbrev approved_case : RecoveryCaseModel ℕ
approved_case = record stored_case { status = RecoveryCaseStatus.approved }

abbrev approved_db : Db ℕ
approved_db = record (db_with approved_case) { decisions = link_decision ∷ [] }

shop_named : resolve_merchant_by_slug approved_db.merchants (codes "shop") ≡ ok shop
unfolding resolve_merchant_by_slug
shop_named = refl

abbrev nth_key : ℕ → IdempotencyKey
nth_key = key_of approved_case link_decision

execute_again_example :
    (first : OrchestrationResult × Db ℕ) × (second : OrchestrationResult × Db ℕ)
    × (execute_case_command the_first plain_crypto soon gateway_up
          (codes "1")
          (codes "shop")
          approved_db
        ≡ ok first)
    × (execute_case_command the_first plain_crypto later gateway_down
          (codes "1")
          (codes "shop")
          first.1
        ≡ ok second)
    × (first.0.case_status ≡ RecoveryCaseStatus.waiting_external)
    × (first.0.is_duplicate_execution ≡ false)
    × (second.0.is_duplicate_execution ≡ false)
    × (second.1.gateway_calls
        ≡ nth_key (approved_case.current_attempt_count + 1 + 1)
          ∷ nth_key (approved_case.current_attempt_count + 1)
          ∷ [])
    × (map (λ row. row.decision_id) second.1.attempts ≡ some 9 ∷ some 9 ∷ [])
execute_again_example =
    execute_again the_first plain_crypto soon later gateway_up gateway_down approved_db (codes "1")
      (codes "shop") shop approved_case link_decision order
      (record {
        is_success = true;
        gateway_link_id = some (codes "plink_A");
        status = codes "created";
        is_retryable = false;
      })
      shop_named refl refl refl refl refl refl refl refl refl refl refl refl

-- No secret in the settings.
abbrev bare_settings : Settings
bare_settings = record { webhook_secret = none }

abbrev strict_request : PolicyUpdateRequest
strict_request = record {
  max_allowed_attempts = 1;
  recovery_window_hours = 48;
  cooldown_period_minutes = 60;
  high_value_escalation_threshold_cents = 100000;
  disallowed_actions = RecoveryActionType.customer_reminder ∷ [];
  require_human_escalation_for_high_risk = true;
  auto_retry_transient_failures = false;
}

-- The shop is at version 3, without a policy and a history.
third_policy :
    get_policy_config bare_settings (codes "shop") waiting_db
    ≡ ok (record default_policy { policy_version = 3 }, [])
unfolding get_policy_config get_or_create_policy_config resolve_merchant_by_slug snapshot_of
    actions_of
third_policy = refl

-- A link for an amount like the one of the snapshot.
abbrev link_preview : PolicyPreviewRequest fixed_point
link_preview = record {
  candidate_action = RecoveryActionType.payment_link;
  amount_at_risk_cents = pos 250000;
  current_attempt_count = 0;
  failure_category = FailureCategory.user_authentication_dropoff;
  is_transient = false;
  customer_risk_score = 1000;
  policy_override = some strict_request;
}

-- The override has a threshold below the amount.
previewed_link :
    preview_policy_impact fixed_point soon link_preview bare_settings (codes "shop") waiting_db
    ≡ ok (record {
      policy_verdict = PolicyVerdict.escalated;
      authorized_action = RecoveryActionType.human_escalation;
      policy_rule_triggered = RuleCode.high_value_threshold_exceeded;
      was_overridden = true;
    })
unfolding preview_policy_impact preview_under get_or_create_policy_config resolve_merchant_by_slug
    from_paise evaluate evaluate_after_cooldown evaluate_risk evaluate_preferences
    cooldown_remaining
previewed_link = refl

abbrev fresh_case : RecoveryCaseSnapshot
fresh_case = record snapshot {
  last_attempt_at = none;
  active_payment_link_id = none;
  current_attempt_count = 0;
  failure_category = some FailureCategory.user_authentication_dropoff;
}

preview_stands_example :
    let s =
      evaluate RecoveryActionType.payment_link fresh_case context
        (requested 999 strict_request)
        []
        later in
    (PolicyVerdict.escalated ≡ s.verdict)
    × (RuleCode.high_value_threshold_exceeded ≡ s.rule_code)
    × ((RecoveryActionType.human_escalation ≡ s.authorized_action)
        ⊎ (RuleCode.high_value_threshold_exceeded ≡ RuleCode.action_disallowed_by_merchant))
preview_stands_example =
    preview_stands fixed_point soon link_preview fresh_case context [] later bare_settings
      (codes "shop") waiting_db third_policy previewed_link
      (λ e. ground arith, omega arith, refl, refl) refl refl refl

-- The waiting case is the shop's only one, and it has no outcome.
one_waiting :
    get_recovery_metrics (codes "shop") waiting_db ≡ ok (summary_of (waiting_case ∷ []) [])
unfolding get_recovery_metrics resolve_merchant_by_slug
one_waiting = refl

totals_fit_example :
    let metrics = summary_of (waiting_case ∷ []) [] in
    (counted metrics.failure_breakdown ≡ 1)
    × (at_risk metrics.failure_breakdown ≡ metrics.revenue_at_risk_cents)
    × (0 ≤ 1)
    × (1 + 0 ≤ 1)
totals_fit_example = totals_fit (codes "shop") waiting_db one_waiting
