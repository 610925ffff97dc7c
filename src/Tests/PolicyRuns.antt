-- ===== src/Tests/PolicyRuns.antt =====
-- The policy engine at concrete inputs.
use razor_flow.Prelude.{◌<◌, ◌≡◌, refl, ◌≢◌, ◌↔◌, inl, none, some, List, [], ◌∷◌}
use razor_flow.Domain.Enums.{RecoveryActionType, PolicyVerdict, FailureCategory, action_eq}
use razor_flow.Domain.StateMachine.Reach.{IsTerminal}
use razor_flow.Domain.Entities.{RecoveryCaseSnapshot, MerchantPolicySnapshot, default_policy}
use razor_flow.Domain.Policy.{
  evaluate, evaluate_after_cooldown, evaluate_risk, evaluate_preferences, cooldown_remaining,
}
use razor_flow.Domain.Policy.Contact.{CooldownPassed, authorized_intervention, contact_authorized}
use razor_flow.Domain.Policy.Verdicts.{TimeCleared, RiskCleared, approved_iff}
use razor_flow.Domain.Policy.Merchant.{IsLinkless, disallowed_link_iff}
use razor_flow.Tests.Fixtures.{snapshot, context, later, soon}

abbrev ranked : List RecoveryActionType
ranked = RecoveryActionType.payment_link ∷ RecoveryActionType.wait_and_reassess ∷ []

link_approved :
    (evaluate RecoveryActionType.payment_link snapshot context default_policy ranked
      later).authorized_action
    ≡ RecoveryActionType.payment_link
unfolding evaluate evaluate_after_cooldown evaluate_risk evaluate_preferences cooldown_remaining
link_approved = refl

contact_authorized_example :
    (¬ (IsTerminal snapshot.status))
    × (later < snapshot.deadline_at)
    × (snapshot.current_attempt_count < default_policy.max_allowed_attempts)
    × CooldownPassed snapshot.last_attempt_at later default_policy.cooldown_period_minutes
    × (snapshot.failure_category ≢ some FailureCategory.fraud_risk_block)
    × (snapshot.amount_at_risk.cents < default_policy.high_value_escalation_threshold_cents)
    × ((evaluate RecoveryActionType.payment_link snapshot context default_policy ranked
          later).authorized_action
        ≡ RecoveryActionType.payment_link)
contact_authorized_example =
    contact_authorized RecoveryActionType.payment_link snapshot context default_policy ranked later
      refl (λ e. cc) (inl link_approved)

authorized_intervention_example :
    (¬ (IsTerminal snapshot.status))
    × (later < snapshot.deadline_at)
    × (snapshot.current_attempt_count < default_policy.max_allowed_attempts)
authorized_intervention_example =
    authorized_intervention RecoveryActionType.payment_link snapshot context default_policy ranked
      later (λ e. cc link_approved)

approved_iff_example :
    ((evaluate RecoveryActionType.payment_link snapshot context default_policy ranked later).verdict
      ≡ PolicyVerdict.approved)
    ↔ TimeCleared RecoveryActionType.payment_link snapshot context default_policy ranked later
      × RiskCleared RecoveryActionType.payment_link snapshot context default_policy ranked
approved_iff_example =
    approved_iff RecoveryActionType.payment_link snapshot context default_policy ranked later

delay_run :
    (evaluate RecoveryActionType.payment_link snapshot context default_policy ranked
      soon).reassessment_delay_seconds
    ≡ some 1200
unfolding evaluate evaluate_after_cooldown cooldown_remaining
delay_run = refl

abbrev no_links : List RecoveryActionType
no_links = RecoveryActionType.payment_link ∷ []

-- Links are disallowed, and the amount is at the threshold.
abbrev strict_policy : MerchantPolicySnapshot
strict_policy = record default_policy {
  disallowed_actions = no_links;
  high_value_escalation_threshold_cents = 250000;
}

abbrev fresh : RecoveryCaseSnapshot
fresh = record snapshot { last_attempt_at = none }

disallowed_link_iff_example :
    ((evaluate RecoveryActionType.customer_reminder fresh context strict_policy ranked
        later).authorized_action
      ≡ RecoveryActionType.payment_link)
    ↔ TimeCleared RecoveryActionType.customer_reminder fresh context strict_policy ranked later
      × IsLinkless RecoveryActionType.customer_reminder fresh context strict_policy ranked
disallowed_link_iff_example =
    disallowed_link_iff RecoveryActionType.customer_reminder fresh context strict_policy ranked
      later refl
