-- ===== src/Domain/Strategies.antt =====
-- The five recovery strategies of backend/packages/domain/strategies, one function for each
-- class. The reason, rationale and metadata texts of an evaluation are left out. Every amount is
-- `MonetaryAmount.from_paise(n)` with the default currency, which never raises.
use razor_flow.Prelude.{
  ℕ, Bool, true, false, not, ◌&&◌, ◌||◌, some, List, [], ◌∷◌, leb, nat_beq, if◌then◌else◌, ◌==◌,
  contains, codes, text_eq,
}
use razor_flow.Domain.Enums.{RecoveryActionType, FailureCategory, category_eq}
use razor_flow.Domain.Money.{MonetaryAmount, inr_currency}
use razor_flow.Domain.Entities.{RecoveryCaseSnapshot, CaseEnrichmentContext, MerchantPolicySnapshot}
use razor_flow.Domain.Policy.{has_active_link}

pub record StrategyEvaluation : Type 0 where
  pub is_eligible : Bool
  pub intervention_cost : MonetaryAmount
  pub risk_penalty : MonetaryAmount

abbrev paise : ℕ → MonetaryAmount
paise n = record { cents = n; currency = inr_currency }

abbrev evaluation : Bool → ℕ → ℕ → StrategyEvaluation
evaluation eligible cost risk = record {
  is_eligible = eligible;
  intervention_cost = paise cost;
  risk_penalty = paise risk;
}

abbrev attempts_exhausted : RecoveryCaseSnapshot → Bool
attempts_exhausted case = leb case.max_allowed_attempts case.current_attempt_count

-- `PaymentLinkStrategy.evaluate`
unfoldable pub payment_link_evaluate :
    RecoveryCaseSnapshot → CaseEnrichmentContext → StrategyEvaluation
payment_link_evaluate case context =
    if attempts_exhausted case
    then evaluation false 200 0
    else if case.failure_category == some FailureCategory.fraud_risk_block
    then evaluation false 200 10000
    else if leb case.amount_at_risk.cents 0
    then evaluation false 200 0
    else evaluation true 200 (
        if leb 5 context.historical_failure_count && nat_beq context.historical_success_count 0
        then 500
        else 50)

-- `CustomerReminderStrategy.evaluate`
unfoldable pub customer_reminder_evaluate :
    RecoveryCaseSnapshot → CaseEnrichmentContext → StrategyEvaluation
customer_reminder_evaluate case context =
    if not (has_active_link case context)
    then evaluation false 150 0
    else if attempts_exhausted case
    then evaluation false 150 0
    else evaluation true 150 100

-- `WaitAndReassessStrategy.evaluate`
unfoldable pub wait_and_reassess_evaluate : RecoveryCaseSnapshot → StrategyEvaluation
wait_and_reassess_evaluate case =
    let cat = case.failure_category in
    if contains cat (
      some FailureCategory.fraud_risk_block
      ∷ some FailureCategory.permanent_instrument_decline
      ∷ [])
    then evaluation false 0 0
    else let is_transient =
        case.is_transient
        || contains cat (
            some FailureCategory.bank_system_outage
            ∷ some FailureCategory.technical_gateway_timeout
            ∷ []) in
      if not is_transient && attempts_exhausted case
      then evaluation false 0 0
      else evaluation true 0 0

-- `HumanEscalationStrategy.evaluate`; the policy snapshot always has the threshold.
unfoldable pub human_escalation_evaluate :
    RecoveryCaseSnapshot → CaseEnrichmentContext → MerchantPolicySnapshot → StrategyEvaluation
human_escalation_evaluate case context policy =
    let amount = case.amount_at_risk.cents in
    let is_high_value = leb policy.high_value_escalation_threshold_cents amount in
    let is_chronic_failure =
      leb 1 case.current_attempt_count && leb 3 context.historical_failure_count in
    let is_vip = (context.customer_risk_tier == codes "LOW_RISK_VIP") && leb 1000000 amount in
    evaluation (is_high_value || is_chronic_failure || is_vip || leb 2000000 amount) 10000 0

-- `DoNothingStrategy.evaluate`
abbrev pub do_nothing_evaluate : StrategyEvaluation
do_nothing_evaluate = evaluation true 0 0

-- `_STRATEGY_REGISTRY` has every action type, so `get_recovery_strategy` never raises; this is
-- `get_recovery_strategy(action).evaluate(case, context, policy)`.
unfoldable pub strategy_evaluate :
    RecoveryActionType
    → RecoveryCaseSnapshot
    → CaseEnrichmentContext
    → MerchantPolicySnapshot
    → StrategyEvaluation
strategy_evaluate RecoveryActionType.payment_link case context policy =
    payment_link_evaluate case context
strategy_evaluate RecoveryActionType.customer_reminder case context policy =
    customer_reminder_evaluate case context
strategy_evaluate RecoveryActionType.wait_and_reassess case context policy =
    wait_and_reassess_evaluate case
strategy_evaluate RecoveryActionType.human_escalation case context policy =
    human_escalation_evaluate case context policy
strategy_evaluate RecoveryActionType.do_nothing case context policy = do_nothing_evaluate

-- `get_all_recovery_strategies`, in registry order.
abbrev pub all_strategies : List RecoveryActionType
all_strategies =
    RecoveryActionType.payment_link ∷ RecoveryActionType.customer_reminder
    ∷ RecoveryActionType.wait_and_reassess ∷ RecoveryActionType.human_escalation
    ∷ RecoveryActionType.do_nothing ∷ []
