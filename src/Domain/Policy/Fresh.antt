-- ===== src/Domain/Policy/Fresh.antt =====
-- The policy engine on a case that nothing was done about.
use razor_flow.Prelude.{ℕ, ◌<◌, ◌≡◌, sym, ◌∙◌, ◌⊎◌, false, none, List, arith, leb, if◌then◌else◌}
use razor_flow.Domain.Enums.{RecoveryActionType, PolicyVerdict, action_eq, category_eq}
use razor_flow.Domain.StateMachine.Reach.{IsTerminal}
use razor_flow.Domain.Entities.{
  RecoveryCaseSnapshot, CaseEnrichmentContext, MerchantPolicySnapshot, PolicyEvaluationResult,
  RuleCode,
}
use razor_flow.Domain.Policy.Engine.{
  cooldown_remaining, has_active_link, result, evaluate_preferences, evaluate_risk,
  evaluate_after_cooldown, evaluate,
}

-- An open case without an attempt and a link, before its deadline.
abbrev pub IsFresh : RecoveryCaseSnapshot → CaseEnrichmentContext → ℕ → Type 0
IsFresh case context now =
    (¬ (IsTerminal case.status))
    × (now < case.deadline_at)
    × (case.last_attempt_at ≡ none)
    × (has_active_link case context ≡ false)

-- What the guards read of a case is the same.
abbrev pub IsAlike : RecoveryCaseSnapshot → RecoveryCaseSnapshot → Type 0
IsAlike a b =
    (a.failure_category ≡ b.failure_category)
    × (a.current_attempt_count ≡ b.current_attempt_count)
    × (a.amount_at_risk.cents ≡ b.amount_at_risk.cents)

-- The verdict and its rule agree, and but for a disallowed action the authorized action does.
abbrev pub Agrees : PolicyEvaluationResult → PolicyEvaluationResult → Type 0
Agrees r s =
    (r.verdict ≡ s.verdict)
    × (r.rule_code ≡ s.rule_code)
    × ((r.authorized_action ≡ s.authorized_action)
        ⊎ (r.rule_code ≡ RuleCode.action_disallowed_by_merchant))

module _ (proposed : RecoveryActionType) (policy : MerchantPolicySnapshot) where
  -- The guards before the cooldown let a fresh case under its limit pass.
  fresh-evaluate :
      (case : RecoveryCaseSnapshot) (context : CaseEnrichmentContext)
      (rankings : List RecoveryActionType) (now : ℕ)
      → IsFresh case context now
      → evaluate proposed case context policy rankings now ≡ (
          if leb policy.max_allowed_attempts case.current_attempt_count
          then result policy PolicyVerdict.modified proposed RecoveryActionType.do_nothing
              RuleCode.max_attempts_exceeded none
          else evaluate_risk proposed case context policy rankings)
  unfolding evaluate evaluate_after_cooldown cooldown_remaining
  fresh-evaluate case context rankings now (live, early, quiet, unlinked) = rw quiet (ground arith)

  risk-Agrees :
      (a b : RecoveryCaseSnapshot) (context context' : CaseEnrichmentContext)
      (rankings rankings' : List RecoveryActionType)
      → IsAlike a b
      → has_active_link a context ≡ has_active_link b context'
      → Agrees
          (evaluate_risk proposed a context policy rankings)
          (evaluate_risk proposed b context' policy rankings')
  unfolding evaluate_risk evaluate_preferences
  risk-Agrees a b context context' rankings rankings' (category, count, amount) linked =
      rw (category, amount, linked) (ground arith)

  -- Two fresh cases that are alike get the same verdict.
  pub fresh-Agrees :
      (a b : RecoveryCaseSnapshot) (context context' : CaseEnrichmentContext)
      (rankings rankings' : List RecoveryActionType) (now now' : ℕ)
      → IsFresh a context now
      → IsFresh b context' now'
      → IsAlike a b
      → Agrees
          (evaluate proposed a context policy rankings now)
          (evaluate proposed b context' policy rankings' now')
  fresh-Agrees a b context context' rankings rankings' now now' fresh fresh' alike =
      let same =
        risk-Agrees a b context context' rankings rankings' alike (fresh.3 ∙ sym fresh'.3) in
      rw
        (
          fresh-evaluate a context rankings now fresh,
          fresh-evaluate b context' rankings' now' fresh',
          alike.1,
        )
        (ground arith)
