-- ===== src/Domain/Policy/Verdicts.antt =====
-- What the verdict says, and when the engine approves.
use razor_flow.Prelude.{
  ℕ, ◌<◌, ◌≡◌, ◌≢◌, refl, ◌⊎◌, ◌↔◌, inl, inr, true, false, Option, none, some, List, [], ◌∷◌, arith,
  contains,
}
use razor_flow.Domain.Enums.{
  RecoveryActionType, FailureCategory, PolicyVerdict, action_eq, category_eq,
}
use razor_flow.Domain.StateMachine.Reach.{IsTerminal}
use razor_flow.Domain.Entities.{
  RecoveryCaseSnapshot, CaseEnrichmentContext, MerchantPolicySnapshot, PolicyEvaluationResult,
}
use razor_flow.Domain.Policy.Engine.{
  fallback_action, cooldown_remaining, has_active_link, evaluate_preferences, evaluate_risk,
  evaluate_after_cooldown, evaluate,
}
use razor_flow.Domain.Policy.Contact.{CooldownPassed}

-- What each verdict promises of the result.
abbrev pub VerdictMeans : PolicyVerdict → PolicyEvaluationResult → Type 0
VerdictMeans PolicyVerdict.approved r = r.authorized_action ≡ r.proposed_action
VerdictMeans PolicyVerdict.rejected r = r.authorized_action ≡ RecoveryActionType.do_nothing
VerdictMeans PolicyVerdict.escalated r = r.authorized_action ≡ RecoveryActionType.human_escalation
VerdictMeans PolicyVerdict.modified r =
    (r.proposed_action ≢ r.authorized_action)
    ⊎ (r.authorized_action ≡ RecoveryActionType.do_nothing)

abbrev IsHonest : PolicyEvaluationResult → Type 0
IsHonest r = VerdictMeans r.verdict r

module _ (proposed : RecoveryActionType) (case : RecoveryCaseSnapshot)
    (context : CaseEnrichmentContext) (policy : MerchantPolicySnapshot)
    (rankings : List RecoveryActionType) where
  -- A case that neither fraud, nor a missing link, nor its amount, nor the merchant holds back.
  abbrev pub RiskCleared : Type 0
  RiskCleared =
      ((case.failure_category ≢ some FailureCategory.fraud_risk_block)
        ⊎ (proposed ≡ RecoveryActionType.do_nothing))
      × ((proposed ≢ RecoveryActionType.customer_reminder) ⊎ (has_active_link case context ≡ true))
      × ((case.amount_at_risk.cents < policy.high_value_escalation_threshold_cents)
          ⊎ (proposed ≡ RecoveryActionType.human_escalation))
      × (contains proposed policy.disallowed_actions ≡ false)

  -- A case that is live, on time, under the limit, and outside the cooldown or not acted upon.
  abbrev pub TimeCleared : ℕ → Type 0
  TimeCleared now =
      (¬ (IsTerminal case.status))
      × (now < case.deadline_at)
      × (case.current_attempt_count < policy.max_allowed_attempts)
      × (CooldownPassed case.last_attempt_at now policy.cooldown_period_minutes
          ⊎ (proposed ≡ RecoveryActionType.wait_and_reassess)
          ⊎ (proposed ≡ RecoveryActionType.do_nothing))

  risk_approves :
      ((evaluate_risk proposed case context policy rankings).verdict ≡ PolicyVerdict.approved)
      ↔ RiskCleared
  unfolding evaluate_risk evaluate_preferences
  risk_approves = (λ h. ground arith, λ h. ground arith)

  pub no_cooldown :
      (last : Option ℕ) (now minutes : ℕ)
      → (cooldown_remaining last now minutes proposed ≡ none) ↔ (
          CooldownPassed last now minutes
          ⊎ (proposed ≡ RecoveryActionType.wait_and_reassess)
          ⊎ (proposed ≡ RecoveryActionType.do_nothing))
  unfolding cooldown_remaining
  no_cooldown none now minutes = (λ h. inl tt, λ h. refl)
  no_cooldown (some last) now minutes = (λ h. ground arith, λ h. ground arith)

  after_approves :
      (remaining : Option ℕ)
      → ((evaluate_after_cooldown proposed case context policy rankings remaining).verdict
          ≡ PolicyVerdict.approved)
        ↔ ((remaining ≡ none)
            × ((evaluate_risk proposed case context policy rankings).verdict
                ≡ PolicyVerdict.approved))
  unfolding evaluate_after_cooldown
  after_approves none = (λ h. (refl, h), λ h. h.1)
  after_approves (some r) = (λ h. cc, λ h. cc (h.0))

  evaluate_approves :
      (now : ℕ) (remaining : Option ℕ)
      → remaining
        ≡ cooldown_remaining case.last_attempt_at now policy.cooldown_period_minutes proposed
      → ((evaluate proposed case context policy rankings now).verdict ≡ PolicyVerdict.approved) ↔ (
          (¬ (IsTerminal case.status))
          × (now < case.deadline_at)
          × (case.current_attempt_count < policy.max_allowed_attempts)
          × ((evaluate_after_cooldown proposed case context policy rankings remaining).verdict
              ≡ PolicyVerdict.approved))
  unfolding evaluate
  evaluate_approves now remaining e = (λ h. ground arith, λ h. ground arith)

  -- The engine approves exactly when every guard lets the proposal pass.
  pub approved_iff :
      (now : ℕ)
      → ((evaluate proposed case context policy rankings now).verdict ≡ PolicyVerdict.approved)
        ↔ TimeCleared now × RiskCleared
  approved_iff now =
      let remaining =
        cooldown_remaining case.last_attempt_at now policy.cooldown_period_minutes proposed in
      let (split, join) = evaluate_approves now remaining refl in
      let (open_after, close_after) = after_approves remaining in
      let (quiet, waited) = no_cooldown case.last_attempt_at now policy.cooldown_period_minutes in
      (
        λ h.
            let (live, early, few, after) = split h in
            let (none_left, risk) = open_after after in
            ((live, early, few, quiet none_left), risk_approves.0 risk),
        λ h. join (h.0.0, h.0.1, h.0.2, close_after (waited h.0.3, risk_approves.1 h.1)),
      )

  fallback_honest :
      (xs : List RecoveryActionType)
      → (proposed ≢ fallback_action policy.disallowed_actions proposed xs)
        ⊎ (fallback_action policy.disallowed_actions proposed xs ≡ RecoveryActionType.do_nothing)
  unfolding fallback_action
  fallback_honest [] = inr refl
  fallback_honest (r ∷ xs) = ground (arith, fallback_honest xs)

  preferences_means : IsHonest (evaluate_preferences proposed case context policy rankings)
  unfolding evaluate_preferences
  preferences_means = ground (arith, fallback_honest rankings)

  risk_means : IsHonest (evaluate_risk proposed case context policy rankings)
  unfolding evaluate_risk
  risk_means = ground (arith, preferences_means)

  cooldown_moves :
      (last : Option ℕ) (now minutes remaining : ℕ)
      → cooldown_remaining last now minutes proposed ≡ some remaining
      → proposed ≢ RecoveryActionType.wait_and_reassess
  unfolding cooldown_remaining
  cooldown_moves none now minutes remaining h = cc
  cooldown_moves (some last) now minutes remaining h = ground arith

  after_means :
      (remaining : Option ℕ)
      → ((k : ℕ) → remaining ≡ some k → proposed ≢ RecoveryActionType.wait_and_reassess)
      → IsHonest (evaluate_after_cooldown proposed case context policy rankings remaining)
  unfolding evaluate_after_cooldown
  after_means none h = risk_means
  after_means (some r) h = inl (h r refl)

  -- APPROVED authorizes the proposal itself, REJECTED nothing, ESCALATED a human; MODIFIED
  -- authorizes another action than the proposed one, or nothing.
  pub verdict_means : (now : ℕ) → IsHonest (evaluate proposed case context policy rankings now)
  unfolding evaluate
  verdict_means now =
      let after =
        after_means
          (cooldown_remaining case.last_attempt_at now policy.cooldown_period_minutes proposed)
          (cooldown_moves case.last_attempt_at now policy.cooldown_period_minutes) in
      ground arith
