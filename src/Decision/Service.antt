-- ===== src/Decision/Service.antt =====
-- The two services' entry points: the decision, its record, and its audit event.
use razor_flow.Prelude.{ℕ, ◌+◌, Bool, true, false, none, some, ◌∷◌, Text, codes, Result, ok, ◌>>=◌}
use razor_flow.Domain.Entities.{CaseEnrichmentContext, MerchantPolicySnapshot}
use razor_flow.Domain.Floats.{Floats}
use razor_flow.Domain.Scoring.{Model}
use razor_flow.Audit.{AuditEntry, AuditPayload, Crypto, record_event}
use razor_flow.Persistence.{Db, RecoveryCaseModel, RecoveryDecisionModel, save_case}
use razor_flow.Decision.Pipeline.{Decision, decide, deterministic, ai_recommendation, AiReply}

-- `ai_metadata.model`: the fallbacks have names of their own.
abbrev model_of : Bool → AiReply → Text → Text
model_of false reply model_name = codes "erv_baseline_v1"
model_of true none model_name = codes "fallback_erv_v1"
model_of true (some action) model_name = model_name

module _ (fl : Floats) (model : Model fl) (crypto : Crypto) (now : ℕ) where
  open fl use {F}

  abbrev pub decision_row : RecoveryCaseModel F → ℕ → Decision fl model → RecoveryDecisionModel
  decision_row case id d = record {
    id = id;
    case_id = case.id;
    merchant_id = case.merchant_id;
    attempt_number = case.current_attempt_count + 1;
    eligible_candidate_actions = d.candidates;
    ai_recommended_action = d.proposed_action;
    policy_verdict = d.policy_evaluation.verdict;
    authorized_action = d.policy_evaluation.authorized_action;
    policy_rule_triggered = d.policy_evaluation.rule_code;
    reassessment_delay_seconds = d.policy_evaluation.reassessment_delay_seconds;
  }

  -- Steps 9 and 10, with the columns of the case that were set before.
  abbrev pub persist : RecoveryCaseModel F → Decision fl model → AuditEntry → Db F → Db F
  persist case d entry db = save_case d.case_after (record db {
    decisions = decision_row case db.next_id d ∷ db.decisions;
    ledger = record_event crypto case.merchant_id entry now db.ledger;
    next_id = db.next_id + 1;
  })

  -- `DecisionService.evaluate_case_decision`
  unfoldable pub evaluate_case_decision :
      RecoveryCaseModel F
      → CaseEnrichmentContext
      → MerchantPolicySnapshot
      → Db F
      → Result (Decision fl model × Db F)
  evaluate_case_decision case context policy db = do
    d ← decide fl model deterministic case context policy now
    let entry : AuditEntry = record {
      entity_type = codes "RECOVERY_DECISION";
      entity_id = db.next_id;
      action = codes "RECOVERY_DECISION_EVALUATED";
      actor_type = codes "SYSTEM";
      actor_id = codes "deterministic-policy-engine";
      payload =
          AuditPayload.decision_evaluated case.id d.proposed_action
            d.policy_evaluation.authorized_action d.policy_evaluation.verdict
            d.policy_evaluation.rule_code d.top.expected_net_recovery_value_cents
            (case.current_attempt_count + 1);
    }
    ok (d, persist case d entry db)

  -- `AIDecisionService.evaluate_with_ai`, with the AI's switch and answer and the name of its
  -- model.
  unfoldable pub evaluate_with_ai :
      Bool
      → AiReply
      → Text
      → RecoveryCaseModel F
      → CaseEnrichmentContext
      → MerchantPolicySnapshot
      → Db F
      → Result (Decision fl model × Db F)
  evaluate_with_ai enabled reply model_name case context policy db = do
    d ← decide fl model (ai_recommendation enabled reply) case context policy now
    let entry : AuditEntry = record {
      entity_type = codes "RECOVERY_DECISION";
      entity_id = db.next_id;
      action = codes "AI_RECOVERY_DECISION_EVALUATED";
      actor_type = codes "AI_AGENT";
      actor_id = model_of enabled reply model_name;
      payload =
          AuditPayload.ai_decision_evaluated case.id d.proposed_action d.top.action
            d.policy_evaluation.authorized_action d.policy_evaluation.verdict
            d.policy_evaluation.rule_code;
    }
    ok (d, persist case d entry db)
