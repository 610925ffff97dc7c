-- ===== src/Decision/Pipeline.antt =====
-- Candidates, scores, ranking, proposal, policy and the case status, for both services. They
-- differ in how the proposal comes from the candidates and the best ranked action.
use razor_flow.Prelude.{
  ℕ, ◌+◌, Bool, true, false, not, ◌&&◌, Option, none, some, List, [], ◌∷◌, map, if◌then◌else◌, ◌==◌,
  contains, Result, ok, raised, ◌>>=◌, ◌>>◌, index_out_of_range,
}
use razor_flow.Domain.Enums.{
  RecoveryCaseStatus, RecoveryActionType, PolicyVerdict, case_status_eq, action_eq, verdict_eq,
}
use razor_flow.Domain.StateMachine.{validate_transition}
use razor_flow.Domain.Entities.{
  RecoveryCaseSnapshot, CaseEnrichmentContext, MerchantPolicySnapshot, PolicyEvaluationResult,
}
use razor_flow.Domain.Policy.{evaluate}
use razor_flow.Domain.Candidates.{generate_candidates}
use razor_flow.Domain.Floats.{Floats}
use razor_flow.Domain.Scoring.{Model, score, ErvResult, calculate_erv}
use razor_flow.Domain.Scoring.Ranker.{rank_candidates}
use razor_flow.Persistence.{RecoveryCaseModel, RecoveryCommand}
use razor_flow.Decision.Snapshot.{build_snapshot}

-- What the AI port answers; `none` is any exception.
abbrev pub AiReply : Type 0
AiReply = Option RecoveryActionType

-- `AIDecisionService`: a reply outside the candidates, an exception and a disabled AI all fall
-- back to the deterministic proposal.
unfoldable pub ai_recommendation :
    Bool → AiReply → List RecoveryActionType → RecoveryActionType → RecoveryActionType
ai_recommendation false reply candidates top = top
ai_recommendation true none candidates top = top
ai_recommendation true (some action) candidates top =
    if not (contains action candidates) then top else action

-- `DecisionService` proposes the best ranked action.
abbrev pub deterministic : List RecoveryActionType → RecoveryActionType → RecoveryActionType
deterministic candidates top = top

-- Steps 4 and 5: DIAGNOSING -> STRATEGY_GENERATED -> POLICY_CHECK_PENDING, where they apply.
unfoldable pub advance_to_policy_check : RecoveryCaseStatus → Result RecoveryCaseStatus
advance_to_policy_check status = do
  generated ←
      if status == RecoveryCaseStatus.diagnosing
      then (validate_transition status RecoveryCaseStatus.strategy_generated
          >> ok RecoveryCaseStatus.strategy_generated)
      else ok status
  if generated == RecoveryCaseStatus.strategy_generated
      then (validate_transition generated RecoveryCaseStatus.policy_check_pending
          >> ok RecoveryCaseStatus.policy_check_pending)
      else ok generated

-- Step 7.
unfoldable pub target_status : PolicyEvaluationResult → RecoveryCaseStatus
target_status policy_eval =
    if policy_eval.verdict == PolicyVerdict.approved
    then RecoveryCaseStatus.approved
    else if policy_eval.verdict == PolicyVerdict.modified
    then (if not (policy_eval.authorized_action == RecoveryActionType.do_nothing)
        then RecoveryCaseStatus.approved
        else RecoveryCaseStatus.rejected)
    else if policy_eval.verdict == PolicyVerdict.escalated
    then RecoveryCaseStatus.escalated
    else RecoveryCaseStatus.rejected

module _ (fl : Floats) (model : Model fl) where
  open fl use {F}

  -- Step 2: scores and expected values, in candidate order.
  unfoldable pub score_candidates :
      RecoveryCaseSnapshot
      → CaseEnrichmentContext
      → MerchantPolicySnapshot
      → List RecoveryActionType
      → Result (List (ErvResult F))
  score_candidates case context policy [] = ok []
  score_candidates case context policy (cand ∷ candidates) = do
    prob ← score fl model case context cand
    rest ← score_candidates case context policy candidates
    ok (calculate_erv fl cand case context prob policy ∷ rest)

  -- `ranked_ervs[0]`
  abbrev pub first_ranked : List (ErvResult F) → Result (ErvResult F)
  first_ranked [] = raised index_out_of_range
  first_ranked (top ∷ rest) = ok top

  -- Step 8.
  abbrev pub authorized_command :
      RecoveryCaseModel F → PolicyEvaluationResult → Option RecoveryCommand
  authorized_command case policy_eval =
      if not (policy_eval.authorized_action == RecoveryActionType.do_nothing)
        && not (policy_eval.verdict == PolicyVerdict.rejected)
      then some (record {
        case_id = case.id;
        merchant_id = case.merchant_id;
        order_id = case.order_id;
        action_type = policy_eval.authorized_action;
        idempotency_key = record {
          case_id = case.id;
          attempt_number = case.current_attempt_count + 1;
          action_type = policy_eval.authorized_action;
        };
        amount_at_risk_cents = case.amount_at_risk_cents;
        currency = case.currency;
        deadline_at = case.deadline_at;
        rule_code = policy_eval.rule_code;
        reassessment_delay_seconds = policy_eval.reassessment_delay_seconds;
      })
      else none

  -- What a decision comes to, before it is stored.
  pub record Decision : Type 0 where
    pub candidates : List RecoveryActionType
    pub rankings : List (ErvResult F)
    pub top : ErvResult F
    pub proposed_action : RecoveryActionType
    pub policy_evaluation : PolicyEvaluationResult
    pub command : Option RecoveryCommand
    pub case_after : RecoveryCaseModel F

  abbrev pub evaluation_of :
      RecoveryCaseSnapshot
      → CaseEnrichmentContext
      → MerchantPolicySnapshot
      → ℕ
      → List (ErvResult F)
      → RecoveryActionType
      → PolicyEvaluationResult
  evaluation_of snapshot context policy now ranked proposed =
      evaluate proposed snapshot context policy (map (λ r. r.action) ranked) now

  -- The pipeline at the time `now`; the first argument chooses the proposal.
  unfoldable pub decide :
      (List RecoveryActionType → RecoveryActionType → RecoveryActionType)
      → RecoveryCaseModel F
      → CaseEnrichmentContext
      → MerchantPolicySnapshot
      → ℕ
      → Result Decision
  decide choose case context policy now = do
    snapshot ← build_snapshot fl case
    let candidates = generate_candidates snapshot context policy
    erv_results ← score_candidates snapshot context policy candidates
    let ranked = rank_candidates fl erv_results
    top ← first_ranked ranked
    let proposed = choose candidates top.action
    pending ← advance_to_policy_check case.status
    let policy_eval = evaluation_of snapshot context policy now ranked proposed
    validate_transition pending (target_status policy_eval)
    ok (record {
      candidates = candidates;
      rankings = ranked;
      top = top;
      proposed_action = proposed;
      policy_evaluation = policy_eval;
      command = authorized_command case policy_eval;
      case_after = record case {
        status = target_status policy_eval;
        recovery_probability = some top.recovery_probability;
        expected_recovery_value_cents = some top.expected_net_recovery_value_cents;
      };
    })
