-- ===== src/Domain/Policy/Merchant.antt =====
-- The fallback of guard 8, and the substitution of guard 6.
use razor_flow.Prelude.{
  ℕ, ◌≡◌, ◌≢◌, ◌↔◌, refl, ◌⊎◌, inl, inr, true, false, not, ◌&&◌, some, List, [], ◌∷◌, ◌++◌, arith,
  contains, All, ◌==◌,
}
use razor_flow.Domain.Enums.{
  RecoveryActionType, FailureCategory, action_eq, category_eq, case_status_eq,
}
use razor_flow.Domain.Entities.{RecoveryCaseSnapshot, CaseEnrichmentContext, MerchantPolicySnapshot}
use razor_flow.Domain.Policy.Engine.{
  has_active_link, fallback_action, evaluate_preferences, evaluate_risk, evaluate_after_cooldown,
  evaluate,
}
use razor_flow.Domain.Policy.Contact.{authorized_intervention, evaluate_contact}
use razor_flow.Domain.Policy.Verdicts.{TimeCleared, no_cooldown}

module _ (disallowed : List RecoveryActionType) (proposed : RecoveryActionType) where
  -- An action that the loop takes.
  abbrev pub Usable : RecoveryActionType → Type 0
  Usable r = (contains r disallowed ≡ false) × ((r == proposed) ≡ false)

  abbrev pub Unusable : RecoveryActionType → Type 0
  Unusable r = (contains r disallowed ≡ true) ⊎ (r ≡ proposed)

  -- The first usable action of the rankings, with what stands before it.
  abbrev pub FirstUsable : List RecoveryActionType → RecoveryActionType → Type 0
  FirstUsable rankings a =
      (before : List RecoveryActionType) × (after : List RecoveryActionType) × (rankings
        ≡ before ++ (a ∷ after))
      × All Unusable before
      × Usable a

  usable_or_not :
      (r : RecoveryActionType)
      → ((not (contains r disallowed) && not (r == proposed)) ≡ true) × Usable r
        ⊎ ((not (contains r disallowed) && not (r == proposed)) ≡ false) × Unusable r
  usable_or_not r = ground arith

  -- The fallback is the first action of the rankings that the merchant allows and that was not
  -- proposed; where there is none, it is DO_NOTHING.
  pub fallback_action-first :
      (rankings : List RecoveryActionType)
      → FirstUsable rankings (fallback_action disallowed proposed rankings)
        ⊎ All Unusable rankings
          × (fallback_action disallowed proposed rankings ≡ RecoveryActionType.do_nothing)
  unfolding fallback_action
  fallback_action-first [] = inr (tt, refl)
  fallback_action-first (r ∷ rankings) = elim (usable_or_not r) [
    | inl (e, usable) ↦ rw e (inl ([], rankings, refl, tt, usable))
    | inr (e, unusable) ↦ rw e (elim (fallback_action-first rankings) [
      | inl (before, after, same, skipped, usable) ↦
          inl (r ∷ before, after, (cc), (unusable, skipped), usable)
      | inr (skipped, nothing) ↦ inr ((unusable, skipped), nothing)
    ])
  ]

module _ (proposed : RecoveryActionType) (case : RecoveryCaseSnapshot)
    (context : CaseEnrichmentContext) (policy : MerchantPolicySnapshot)
    (rankings : List RecoveryActionType) where
  -- Guard 6: a reminder without a link, outside fraud.
  abbrev pub IsLinkless : Type 0
  IsLinkless =
      (proposed ≡ RecoveryActionType.customer_reminder)
      × (case.failure_category ≢ some FailureCategory.fraud_risk_block)
      × (has_active_link case context ≡ false)

  fallback_kept :
      (rs : List RecoveryActionType)
      → contains RecoveryActionType.payment_link policy.disallowed_actions ≡ true
      → fallback_action policy.disallowed_actions proposed rs ≢ RecoveryActionType.payment_link
  unfolding fallback_action
  fallback_kept [] h e = cc
  fallback_kept (r ∷ rs) h e = ground (arith, fallback_kept rs h)

  disallowed_risk :
      contains RecoveryActionType.payment_link policy.disallowed_actions ≡ true
      → ((evaluate_risk proposed case context policy rankings).authorized_action
          ≡ RecoveryActionType.payment_link)
        ↔ IsLinkless
  unfolding evaluate_risk evaluate_preferences
  disallowed_risk h = (λ e. ground (arith, fallback_kept rankings h), λ e. ground arith)

  cleared_evaluate :
      (now : ℕ)
      → TimeCleared proposed case context policy rankings now
      → evaluate proposed case context policy rankings now
        ≡ evaluate_risk proposed case context policy rankings
  unfolding evaluate evaluate_after_cooldown
  cleared_evaluate now (live, early, few, passed) =
      rw
        ((no_cooldown proposed case context policy rankings case.last_attempt_at now
            policy.cooldown_period_minutes).1
          passed)
        (ground arith)

  -- A merchant that disallows payment links gets one authorized in exactly one way, whatever is
  -- proposed and however the candidates rank: by a reminder for a case without an active link and
  -- not classified as fraud, that is not terminal, before its deadline, under the attempt limit and
  -- outside the cooldown. Neither the amount nor the merchant's list is looked at then.
  pub disallowed_link_iff :
      (now : ℕ)
      → contains RecoveryActionType.payment_link policy.disallowed_actions ≡ true
      → ((evaluate proposed case context policy rankings now).authorized_action
          ≡ RecoveryActionType.payment_link)
        ↔ TimeCleared proposed case context policy rankings now × IsLinkless
  disallowed_link_iff now h = (
    λ e.
        let (quiet, same) = evaluate_contact proposed case context policy rankings now (inl e) in
        let (live, early, few) =
          authorized_intervention proposed case context policy rankings now (λ nothing. cc) in
        let passed =
          (no_cooldown proposed case context policy rankings case.last_attempt_at now
              policy.cooldown_period_minutes).0
            quiet in
        ((live, early, few, passed), (disallowed_risk h).0 (rw same at e)),
    λ (cleared, linkless). rw (cleared_evaluate now cleared) ((disallowed_risk h).1 linkless),
  )
