-- ===== src/Domain/Scoring/Bounds.antt =====
-- Every score is a probability, and every expected value lies below the amount at risk.
use razor_flow.Prelude.{
  ℕ, ◌+◌, ◌≤◌, ◌^◌, ◌≡◌, Bool, true, false, ◌==◌, Option, none, some, arith, Result, ok,
  if◌then◌else◌,
}
use razor_flow.Prelude.Int.{pos, pos_part, neg_part, int_laws}
use razor_flow.Domain.Enums.{RecoveryActionType, FailureCategory, action_eq, category_eq}
use razor_flow.Domain.Entities.{RecoveryCaseSnapshot, CaseEnrichmentContext, MerchantPolicySnapshot}
use razor_flow.Domain.Floats.{Floats, IsUnit, FloatLaws}
use razor_flow.Domain.Scoring.Scorer.{
  clamp, from_float, raw_score, baseline_score, predicted, score_with, score, Model,
}
use razor_flow.Domain.Scoring.Erv.{calculate_erv}

module _ (fl : Floats) (laws : FloatLaws fl) where
  open fl use {F, literal, lt, le, round4}

  -- A score that was returned, and is a probability.
  abbrev pub IsScore : Result F → Type 0
  IsScore r = (p : F) × (r ≡ ok p) × IsUnit fl p

  from_float-IsScore : (p : F) → IsUnit fl p → IsScore (from_float fl p)
  unfolding from_float
  from_float-IsScore p (low, high) = (p, rw (low, high), (low, high))

  clamp-IsUnit : (x : F) → IsUnit fl (clamp fl x)
  unfolding clamp
  clamp-IsUnit x = ground (
    arith,
    laws.literal_unit 0 (omega arith),
    laws.literal_unit 100 (omega arith),
    laws.lt_le x (literal 100),
    laws.lt_le (literal 0) x,
  )

  clamped-IsScore : (x : F) → IsScore (from_float fl (round4 (clamp fl x)))
  clamped-IsScore x = from_float-IsScore _ (laws.round4_unit _ (clamp-IsUnit x))

  literal-IsScore : (n : ℕ) → n ≤ 100 → IsScore (from_float fl (literal n))
  literal-IsScore n h = from_float-IsScore _ (laws.literal_unit n h)

  if_IsScore : (b : Bool) (x y : Result F) → IsScore x → IsScore y → IsScore (if b then x else y)
  if_IsScore true x y h k = h
  if_IsScore false x y h k = k

  organic_literal : (b : Bool) → IsScore (from_float fl (if b then literal 5 else literal 1))
  organic_literal true = literal-IsScore 5 (omega arith)
  organic_literal false = literal-IsScore 1 (omega arith)

  baseline-IsScore :
      (case : RecoveryCaseSnapshot) (context : CaseEnrichmentContext) (action : RecoveryActionType)
      → IsScore (baseline_score fl case context action)
  unfolding baseline_score
  baseline-IsScore case context action =
      if_IsScore (action == RecoveryActionType.do_nothing) _ _ (organic_literal case.is_transient) (
        if_IsScore (case.failure_category == some FailureCategory.fraud_risk_block) _ _
          (literal-IsScore 0 (omega arith)) (clamped-IsScore (raw_score fl case context action)))

  predicted-IsScore :
      (p : Option F) (fallback : Result F) → IsScore fallback → IsScore (predicted fl p fallback)
  unfolding predicted
  predicted-IsScore none fallback h = h
  predicted-IsScore (some p) fallback h = clamped-IsScore p

  score_with-IsScore :
      (model : Model fl) (case : RecoveryCaseSnapshot) (context : CaseEnrichmentContext)
      (action : RecoveryActionType)
      → IsScore (score_with fl model case context action)
  unfolding score_with
  score_with-IsScore none case context action = baseline-IsScore case context action
  score_with-IsScore (some predict) case context action =
      predicted-IsScore _ _ (baseline-IsScore case context action)

  -- The scorer never raises, and what it returns lies in [0, 1]: whatever the trained model
  -- predicts, whether it is loaded or not, and whether it raises.
  pub score-IsScore :
      (model : Model fl) (case : RecoveryCaseSnapshot) (context : CaseEnrichmentContext)
      (action : RecoveryActionType)
      → IsScore (score fl model case context action)
  unfolding score
  score-IsScore model case context action =
      if_IsScore (case.failure_category == some FailureCategory.fraud_risk_block) _ _
        (literal-IsScore 0 (omega arith)) (score_with-IsScore model case context action)

  -- For an amount below 2^53 and a probability, the gross value is a share of the amount at risk
  -- and the net value is that share less the action's cost and risk penalty, exactly.
  pub erv_bounds :
      (action : RecoveryActionType) (case : RecoveryCaseSnapshot) (context : CaseEnrichmentContext)
      (p : F) (policy : MerchantPolicySnapshot)
      → IsUnit fl p
      → case.amount_at_risk.cents ≤ 2 ^ 53
      → let erv = calculate_erv fl action case context p policy in
        (gross : ℕ) × (erv.gross_expected_recovery_cents ≡ pos gross)
        × (gross ≤ case.amount_at_risk.cents)
        × (pos_part erv.expected_net_recovery_value_cents
              + erv.intervention_cost_cents
              + erv.risk_penalty_cents
            ≡ gross + neg_part erv.expected_net_recovery_value_cents)
  unfolding calculate_erv
  erv_bounds action case context p policy unit small =
      let (gross, same, share) = laws.truncate_share p case.amount_at_risk.cents unit small in
      (gross, same, share, rw same (omega int_laws))
