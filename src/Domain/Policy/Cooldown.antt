-- ===== src/Domain/Policy/Cooldown.antt =====
-- The reassessment delay that an active cooldown sets.
use razor_flow.Prelude.{ℕ, ◌+◌, ◌*◌, ◌≤◌, ◌<◌, ◌≡◌, ◌≢◌, Option, none, some, List, arith}
use razor_flow.Domain.Enums.{RecoveryActionType, PolicyVerdict, action_eq}
use razor_flow.Domain.Entities.{RecoveryCaseSnapshot, CaseEnrichmentContext, MerchantPolicySnapshot}
use razor_flow.Domain.Policy.Engine.{
  microseconds, cooldown_remaining, evaluate_preferences, evaluate_risk, evaluate_after_cooldown,
  evaluate,
}

-- The delay is the time from `now` to the end of the cooldown, rounded down to whole seconds.
abbrev pub IsRemaining : Option ℕ → ℕ → ℕ → ℕ → Type 0
IsRemaining none now minutes delay = ⊥
IsRemaining (some last) now minutes delay =
    (now + microseconds delay ≤ last + microseconds (minutes * 60))
    × (last + microseconds (minutes * 60) < now + microseconds (delay + 1))

cooldown_remaining-IsRemaining :
    (last : Option ℕ) (now minutes : ℕ) (action : RecoveryActionType) {delay : ℕ}
    → cooldown_remaining last now minutes action ≡ some delay
    → IsRemaining last now minutes delay
      × (action ≢ RecoveryActionType.wait_and_reassess)
      × (action ≢ RecoveryActionType.do_nothing)
unfolding cooldown_remaining
cooldown_remaining-IsRemaining none now minutes action e = cc
cooldown_remaining-IsRemaining (some last) now minutes action e = ground arith

module _ (proposed : RecoveryActionType) (case : RecoveryCaseSnapshot)
    (context : CaseEnrichmentContext) (policy : MerchantPolicySnapshot)
    (rankings : List RecoveryActionType) where
  risk_no_delay :
      (evaluate_risk proposed case context policy rankings).reassessment_delay_seconds ≡ none
  unfolding evaluate_risk evaluate_preferences
  risk_no_delay = ground arith

  after_delay :
      (remaining : Option ℕ) {delay : ℕ}
      → (evaluate_after_cooldown proposed case context policy rankings
          remaining).reassessment_delay_seconds
        ≡ some delay
      → (remaining ≡ some delay)
        × ((evaluate_after_cooldown proposed case context policy rankings
              remaining).authorized_action
            ≡ RecoveryActionType.wait_and_reassess)
        × ((evaluate_after_cooldown proposed case context policy rankings remaining).verdict
            ≡ PolicyVerdict.modified)
  unfolding evaluate_after_cooldown
  after_delay none e = cc (risk_no_delay)
  after_delay (some r) e = ground arith

  evaluate_delay :
      (now : ℕ) {delay : ℕ}
      → (evaluate proposed case context policy rankings now).reassessment_delay_seconds ≡ some delay
      → evaluate proposed case context policy rankings now
        ≡ evaluate_after_cooldown proposed case context policy rankings
            (cooldown_remaining case.last_attempt_at now policy.cooldown_period_minutes proposed)
  unfolding evaluate
  evaluate_delay now e = ground arith

  -- The engine sets a delay only when it replaces an action by WAIT_AND_REASSESS, and then the
  -- delay is the rest of the merchant's cooldown after the last attempt, in whole seconds.
  pub delay_exact :
      (now : ℕ) {delay : ℕ}
      → (evaluate proposed case context policy rankings now).reassessment_delay_seconds ≡ some delay
      → IsRemaining case.last_attempt_at now policy.cooldown_period_minutes delay
        × ((evaluate proposed case context policy rankings now).authorized_action
            ≡ RecoveryActionType.wait_and_reassess)
        × ((evaluate proposed case context policy rankings now).verdict ≡ PolicyVerdict.modified)
        × (proposed ≢ RecoveryActionType.wait_and_reassess)
  delay_exact now e =
      let same = evaluate_delay now e in
      let (waits, action, verdict) = after_delay _ (rw same at e) in
      let (exact, moving, _) = cooldown_remaining-IsRemaining _ now _ proposed waits in
      (exact, rw same action, rw same verdict, moving)
