-- ===== src/Domain/Scoring/Scorer.antt =====
-- probability_scorer.py: the baseline heuristic, and the scorer that prefers a trained model. A
-- `RecoveryProbability` is its float; `from_float` runs the range check of its constructor.
use razor_flow.Prelude.{
  ℕ, ◌&&◌, Option, none, some, [], ◌∷◌, ltb, leb, nat_beq, if◌then◌else◌, ◌==◌, contains, Result,
  ok, raised, probability_out_of_range,
}
use razor_flow.Domain.Enums.{RecoveryActionType, FailureCategory, action_eq, category_eq}
use razor_flow.Domain.Entities.{RecoveryCaseSnapshot, CaseEnrichmentContext}
use razor_flow.Domain.Floats.{Floats}

-- The table of base probabilities, in hundredths, by category and action.
abbrev pub base_p : Option FailureCategory → RecoveryActionType → ℕ
base_p none action = 35
base_p (some FailureCategory.user_authentication_dropoff) action =
    if contains action (RecoveryActionType.payment_link ∷ RecoveryActionType.customer_reminder ∷ [])
    then 65
    else if action == RecoveryActionType.human_escalation
    then 70
    else 30
base_p (some FailureCategory.insufficient_funds) action =
    if contains action (RecoveryActionType.payment_link ∷ RecoveryActionType.customer_reminder ∷ [])
    then 50
    else if action == RecoveryActionType.wait_and_reassess
    then 40
    else 25
base_p (some FailureCategory.bank_system_outage) action =
    if action == RecoveryActionType.wait_and_reassess
    then 75
    else if action == RecoveryActionType.payment_link
    then 45
    else 20
base_p (some FailureCategory.technical_gateway_timeout) action =
    if action == RecoveryActionType.wait_and_reassess
    then 70
    else if action == RecoveryActionType.payment_link
    then 60
    else 30
base_p (some FailureCategory.permanent_instrument_decline) action =
    if action == RecoveryActionType.payment_link
    then 20
    else if action == RecoveryActionType.human_escalation
    then 35
    else 5
base_p (some FailureCategory.fraud_risk_block) action = 35
base_p (some FailureCategory.unknown) action = 35

module _ (fl : Floats) where
  open fl use {F, literal, of_int, lt, le, plus, minus, times, round4}

  -- `max(a, b)` and `min(a, b)` keep their first argument on a tie.
  abbrev float_max : F → F → F
  float_max a b = if lt a b then b else a

  abbrev float_min : F → F → F
  float_min a b = if lt b a then b else a

  -- `max(0.0, min(1.0, x))`
  unfoldable pub clamp : F → F
  clamp x = float_max (literal 0) (float_min (literal 100) x)

  -- `RecoveryProbability.from_float`
  unfoldable pub from_float : F → Result F
  from_float p =
      if le (literal 0) p && le p (literal 100) then ok p else raised probability_out_of_range

  -- The behavioural multiplier, before the attempt decay.
  abbrev history_multiplier : CaseEnrichmentContext → F
  history_multiplier context =
      let history =
        if leb 3 context.historical_success_count
        then plus (literal 100) (literal 15)
        else if leb 3 context.historical_failure_count && nat_beq context.historical_success_count 0
        then minus (literal 100) (literal 20)
        else literal 100 in
      if ltb 0 context.previous_recovery_count then plus history (literal 10) else history

  -- `base_p * multiplier`
  unfoldable pub raw_score : RecoveryCaseSnapshot → CaseEnrichmentContext → RecoveryActionType → F
  raw_score case context action =
      let decay =
        float_max (literal 20)
          (minus (literal 100) (times (of_int case.current_attempt_count) (literal 25))) in
      times (literal (base_p case.failure_category action))
        (times (history_multiplier context) decay)

  -- `BaselineHeuristicProbabilityScorer.score`
  unfoldable pub baseline_score :
      RecoveryCaseSnapshot → CaseEnrichmentContext → RecoveryActionType → Result F
  baseline_score case context action =
      if action == RecoveryActionType.do_nothing
      then from_float (if case.is_transient then literal 5 else literal 1)
      else if case.failure_category == some FailureCategory.fraud_risk_block
      then from_float (literal 0)
      else from_float (round4 (clamp (raw_score case context action)))

  -- What the trained model does: `none` when no artifact was loaded; the inner `none` when
  -- building the features or predicting raises.
  abbrev pub Model : Type 0
  Model = Option (RecoveryCaseSnapshot → CaseEnrichmentContext → RecoveryActionType → Option F)

  unfoldable pub predicted : Option F → Result F → Result F
  predicted none fallback = fallback
  predicted (some p) fallback = from_float (round4 (clamp p))

  unfoldable pub score_with :
      Model → RecoveryCaseSnapshot → CaseEnrichmentContext → RecoveryActionType → Result F
  score_with none case context action = baseline_score case context action
  score_with (some predict) case context action =
      predicted (predict case context action) (baseline_score case context action)

  -- `MLProbabilityScorer.score`
  unfoldable pub score :
      Model → RecoveryCaseSnapshot → CaseEnrichmentContext → RecoveryActionType → Result F
  score model case context action =
      if case.failure_category == some FailureCategory.fraud_risk_block
      then from_float (literal 0)
      else score_with model case context action
