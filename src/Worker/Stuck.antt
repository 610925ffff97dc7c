-- ===== src/Worker/Stuck.antt =====
-- What becomes of a case that is reassessed.
use razor_flow.Prelude.{
  ℕ, ◌≡◌, inl, inr, true, none, List, [], ◌∷◌, arith, Member, raised, invalid_state_transition,
}
use razor_flow.Domain.Enums.{RecoveryCaseStatus, RecoveryActionType}
use razor_flow.Domain.Entities.{CaseEnrichmentContext, MerchantPolicySnapshot}
use razor_flow.Domain.Floats.{Floats, FloatLaws}
use razor_flow.Domain.Scoring.{Model}
use razor_flow.Persistence.{RecoveryCaseModel}
use razor_flow.Decision.{decide}
use razor_flow.Decision.Outcome.{HasValidColumns}
use razor_flow.Decision.Totality.{decide_elsewhere}
use razor_flow.Worker.Reassess.{is_due, reassess_case, reassess_cases}

reassess_cases-Member :
    {F : Type 0} (now : ℕ) (case : RecoveryCaseModel F) (cases : List (RecoveryCaseModel F))
    → Member case cases
    → Member (reassess_case now case) (reassess_cases now cases).0
unfolding reassess_cases
reassess_cases-Member now case [] m = m
reassess_cases-Member now case (x ∷ cases) (inl e) = inl (cc e)
reassess_cases-Member now case (x ∷ cases) (inr m) = inr (reassess_cases-Member now case cases m)

module _ (fl : Floats) (laws : FloatLaws fl) (model : Model fl)
    (choose : List RecoveryActionType → RecoveryActionType → RecoveryActionType)
    (case : RecoveryCaseModel (Floats.F fl)) (context : CaseEnrichmentContext)
    (policy : MerchantPolicySnapshot) where
  -- A waiting case with valid columns whose scheduled time has come is reassessed, and then no
  -- decision can be made on it, at any time, with any context and under any policy: it is DETECTED,
  -- and every decision raises an invalid transition.
  pub reassessed_undecidable :
      (now later : ℕ) (cases : List (RecoveryCaseModel (Floats.F fl)))
      → Member case cases
      → is_due now case ≡ true
      → HasValidColumns fl case
      → Member
          (record case { status = RecoveryCaseStatus.detected; next_action_scheduled_at = none })
          (reassess_cases now cases).0
        × (decide fl model choose
              (record case {
                status = RecoveryCaseStatus.detected;
                next_action_scheduled_at = none;
              })
              context
              policy
              later
            ≡ raised invalid_state_transition)
  reassessed_undecidable now later cases m due valid = (
    rw due at (reassess_cases-Member now case cases m),
    decide_elsewhere fl laws model choose
        (record case { status = RecoveryCaseStatus.detected; next_action_scheduled_at = none })
        context policy later valid (λ h. ground arith, λ e. cc),
  )
