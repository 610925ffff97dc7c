-- ===== src/Domain/Policy/Contact.antt =====
-- When the engine lets the program contact a customer.
use razor_flow.Prelude.{
  ℕ, ◌+◌, ◌*◌, ◌≤◌, ◌<◌, ◌≡◌, refl, ◌≢◌, ◌⊎◌, true, false, Option, none, some, List, arith,
  contains,
}
use razor_flow.Domain.Enums.{
  RecoveryActionType, FailureCategory, case_status_eq, action_eq, category_eq,
}
use razor_flow.Domain.StateMachine.Reach.{IsTerminal}
use razor_flow.Domain.Entities.{RecoveryCaseSnapshot, CaseEnrichmentContext, MerchantPolicySnapshot}
use razor_flow.Domain.Policy.Engine.{
  cooldown_remaining, has_active_link, microseconds, evaluate_preferences, evaluate_risk,
  evaluate_after_cooldown, evaluate,
}

-- The two actions that send something to the customer.
abbrev pub ContactsCustomer : RecoveryActionType → Type 0
ContactsCustomer a =
    (a ≡ RecoveryActionType.payment_link) ⊎ (a ≡ RecoveryActionType.customer_reminder)

-- The cooldown after the last attempt has passed.
abbrev pub CooldownPassed : Option ℕ → ℕ → ℕ → Type 0
CooldownPassed none now minutes = Unit
CooldownPassed (some last) now minutes = last + microseconds (minutes * 60) ≤ now

module _ (proposed : RecoveryActionType) (case : RecoveryCaseSnapshot)
    (context : CaseEnrichmentContext) (policy : MerchantPolicySnapshot)
    (rankings : List RecoveryActionType) where
  -- An action other than DO_NOTHING is authorized only for a case that is not terminal, before its
  -- deadline and under the merchant's attempt limit.
  pub authorized_intervention :
      (now : ℕ)
      → (evaluate proposed case context policy rankings now).authorized_action
        ≢ RecoveryActionType.do_nothing
      → (¬ (IsTerminal case.status))
        × (now < case.deadline_at)
        × (case.current_attempt_count < policy.max_allowed_attempts)
  unfolding evaluate
  authorized_intervention now h = ground arith

  -- A proposal that the merchant allows.
  abbrev Allowed : Type 0
  Allowed = contains proposed policy.disallowed_actions ≡ false

  -- A reminder is proposed only for a case with a link, as the candidate generator does.
  abbrev ReminderHasLink : Type 0
  ReminderHasLink =
      proposed ≡ RecoveryActionType.customer_reminder → has_active_link case context ≡ true

  preferences_keep :
      Allowed
      → (evaluate_preferences proposed case context policy rankings).authorized_action ≡ proposed
  unfolding evaluate_preferences
  preferences_keep allowed = ground arith

  risk_contact :
      Allowed
      → ReminderHasLink
      → ContactsCustomer (evaluate_risk proposed case context policy rankings).authorized_action
      → (case.failure_category ≢ some FailureCategory.fraud_risk_block)
        × (case.amount_at_risk.cents < policy.high_value_escalation_threshold_cents)
        × ((evaluate_risk proposed case context policy rankings).authorized_action ≡ proposed)
  unfolding evaluate_risk
  risk_contact allowed link c = ground (arith, preferences_keep allowed)

  cooldown_contact :
      (last : Option ℕ) (now minutes : ℕ)
      → cooldown_remaining last now minutes proposed ≡ none
      → ContactsCustomer proposed
      → CooldownPassed last now minutes
  unfolding cooldown_remaining
  cooldown_contact none now minutes e c = tt
  cooldown_contact (some last) now minutes e c = ground arith

  after_contact :
      (remaining : Option ℕ)
      → ContactsCustomer
          (evaluate_after_cooldown proposed case context policy rankings
            remaining).authorized_action
      → (remaining ≡ none)
        × (evaluate_after_cooldown proposed case context policy rankings remaining
            ≡ evaluate_risk proposed case context policy rankings)
  unfolding evaluate_after_cooldown
  after_contact none c = (refl, refl)
  after_contact (some r) c = ground arith

  pub evaluate_contact :
      (now : ℕ)
      → ContactsCustomer (evaluate proposed case context policy rankings now).authorized_action
      → (cooldown_remaining case.last_attempt_at now policy.cooldown_period_minutes proposed ≡ none)
        × (evaluate proposed case context policy rankings now
            ≡ evaluate_risk proposed case context policy rankings)
  unfolding evaluate
  evaluate_contact now c = ground (
    arith,
    after_contact
        (cooldown_remaining case.last_attempt_at now policy.cooldown_period_minutes proposed),
  )

  contact_is_intervention :
      (a : RecoveryActionType) → ContactsCustomer a → a ≢ RecoveryActionType.do_nothing
  contact_is_intervention a c = ground arith

  -- The engine authorizes a payment link or a reminder, for a proposal that the merchant allows
  -- and whose reminder has a link, only before the deadline, under the attempt limit, after the
  -- cooldown, outside fraud, below the high-value threshold, for a case that is not terminal, and
  -- only as the action that was proposed.
  pub contact_authorized :
      (now : ℕ)
      → Allowed
      → ReminderHasLink
      → ContactsCustomer (evaluate proposed case context policy rankings now).authorized_action
      → (¬ (IsTerminal case.status))
        × (now < case.deadline_at)
        × (case.current_attempt_count < policy.max_allowed_attempts)
        × CooldownPassed case.last_attempt_at now policy.cooldown_period_minutes
        × (case.failure_category ≢ some FailureCategory.fraud_risk_block)
        × (case.amount_at_risk.cents < policy.high_value_escalation_threshold_cents)
        × ((evaluate proposed case context policy rankings now).authorized_action ≡ proposed)
  contact_authorized now allowed link c =
      let (quiet, same) = evaluate_contact now c in
      let (live, early, few) = authorized_intervention now (contact_is_intervention _ c) in
      let (clean, low, kept) = risk_contact allowed link (rw same at c) in
      let kept' : (evaluate proposed case context policy rankings now).authorized_action
          ≡ proposed =
        rw same kept in
      let passed = cooldown_contact _ now _ quiet (rw kept' at c) in
      (live, early, few, passed, clean, low, kept')
