-- ===== src/Domain/Policy/Engine.antt =====
-- `PolicyEngine.evaluate`: its guards in the order of the source. The engine reads the clock once
-- when `now` is not given, so the time is an argument.
use razor_flow.Prelude.{
  ℕ, ◌+◌, ◌-◌, ◌*◌, ◌/◌, Bool, not, ◌&&◌, ◌||◌, Option, none, some, List, [], ◌∷◌, ltb, leb,
  if◌then◌else◌, ◌==◌, contains, is_some,
}
use razor_flow.Domain.Enums.{
  RecoveryCaseStatus, RecoveryActionType, FailureCategory, PolicyVerdict, case_status_eq, action_eq,
  category_eq,
}
use razor_flow.Domain.Entities.{
  RecoveryCaseSnapshot, CaseEnrichmentContext, MerchantPolicySnapshot, PolicyEvaluationResult,
  RuleCode,
}

-- The tuple `terminal_statuses`.
abbrev pub terminal_statuses : List RecoveryCaseStatus
terminal_statuses =
    RecoveryCaseStatus.recovered ∷ RecoveryCaseStatus.unrecoverable ∷ RecoveryCaseStatus.expired
    ∷ RecoveryCaseStatus.stopped ∷ []

abbrev pub microseconds : ℕ → ℕ
microseconds seconds = seconds * 1000000

-- Guard 4: the whole seconds that remain of the cooldown, if it holds the action back. The test
-- `now - last < minutes * 60` and `int(minutes * 60 - (now - last))` in microseconds.
unfoldable pub cooldown_remaining : Option ℕ → ℕ → ℕ → RecoveryActionType → Option ℕ
cooldown_remaining none now minutes action = none
cooldown_remaining (some last) now minutes action =
    let until = last + microseconds (minutes * 60) in
    if ltb now until
      && not (
          contains action
            (RecoveryActionType.wait_and_reassess ∷ RecoveryActionType.do_nothing ∷ []))
    then some ((until - now) / 1000000)
    else none

-- `has_active_link` of guard 6
abbrev pub has_active_link : RecoveryCaseSnapshot → CaseEnrichmentContext → Bool
has_active_link case context =
    context.has_active_payment_link || is_some case.active_payment_link_id

-- The loop of guard 8 over the actions of the rankings.
unfoldable pub fallback_action :
    List RecoveryActionType → RecoveryActionType → List RecoveryActionType → RecoveryActionType
fallback_action disallowed proposed [] = RecoveryActionType.do_nothing
fallback_action disallowed proposed (r ∷ rankings) =
    let rest = fallback_action disallowed proposed rankings in
    if not (contains r disallowed) && not (r == proposed) then r else rest

abbrev pub result :
    MerchantPolicySnapshot
    → PolicyVerdict
    → RecoveryActionType
    → RecoveryActionType
    → RuleCode
    → Option ℕ
    → PolicyEvaluationResult
result policy verdict proposed authorized code delay = record {
  verdict = verdict;
  proposed_action = proposed;
  authorized_action = authorized;
  rule_code = code;
  policy_version = policy.policy_version;
  reassessment_delay_seconds = delay;
}

module _ (proposed : RecoveryActionType) (case : RecoveryCaseSnapshot)
    (context : CaseEnrichmentContext) (policy : MerchantPolicySnapshot)
    (rankings : List RecoveryActionType) where
  -- Guards 8 to 10.
  unfoldable pub evaluate_preferences : PolicyEvaluationResult
  evaluate_preferences =
      if contains proposed policy.disallowed_actions
      then result policy PolicyVerdict.modified proposed
          (fallback_action policy.disallowed_actions proposed rankings)
          RuleCode.action_disallowed_by_merchant none
      else if proposed == RecoveryActionType.do_nothing
      then result policy PolicyVerdict.approved proposed RecoveryActionType.do_nothing
          RuleCode.no_intervention_authorized none
      else result policy PolicyVerdict.approved proposed proposed RuleCode.policy_approval_cleared
          none

  -- Guards 5 to 10.
  unfoldable pub evaluate_risk : PolicyEvaluationResult
  evaluate_risk =
      if (case.failure_category == some FailureCategory.fraud_risk_block)
        && not (proposed == RecoveryActionType.do_nothing)
      then result policy PolicyVerdict.rejected proposed RecoveryActionType.do_nothing
          RuleCode.fraud_risk_guard none
      else if (proposed == RecoveryActionType.customer_reminder)
          && not (has_active_link case context)
      then result policy PolicyVerdict.modified proposed RecoveryActionType.payment_link
          RuleCode.no_active_payment_link none
      else if leb policy.high_value_escalation_threshold_cents case.amount_at_risk.cents
          && not (proposed == RecoveryActionType.human_escalation)
      then result policy PolicyVerdict.escalated proposed RecoveryActionType.human_escalation
          RuleCode.high_value_threshold_exceeded none
      else evaluate_preferences

  -- Guard 4, and what follows it.
  unfoldable pub evaluate_after_cooldown : Option ℕ → PolicyEvaluationResult
  evaluate_after_cooldown none = evaluate_risk
  evaluate_after_cooldown (some remaining) =
      result policy PolicyVerdict.modified proposed RecoveryActionType.wait_and_reassess
        RuleCode.cooldown_active (some remaining)

  -- `PolicyEngine.evaluate` at the time `now`
  unfoldable pub evaluate : ℕ → PolicyEvaluationResult
  evaluate now =
      if contains case.status terminal_statuses
      then result policy PolicyVerdict.rejected proposed RecoveryActionType.do_nothing
          RuleCode.case_already_terminal none
      else if leb case.deadline_at now
      then result policy PolicyVerdict.modified proposed RecoveryActionType.do_nothing
          RuleCode.deadline_expired none
      else if leb policy.max_allowed_attempts case.current_attempt_count
      then result policy PolicyVerdict.modified proposed RecoveryActionType.do_nothing
          RuleCode.max_attempts_exceeded none
      else evaluate_after_cooldown
          (cooldown_remaining case.last_attempt_at now policy.cooldown_period_minutes proposed)
