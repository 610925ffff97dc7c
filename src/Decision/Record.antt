-- ===== src/Decision/Record.antt =====
-- What a decision leaves in the database.
use razor_flow.Prelude.{
  ℕ, ◌+◌, ◌≡◌, sym, ap, ◌∙◌, some, ◌∷◌, arith, ok, bind-ok, ok_injective, subst,
}
use razor_flow.Domain.Enums.{action_eq, verdict_eq}
use razor_flow.Domain.Entities.{
  CaseEnrichmentContext, MerchantPolicySnapshot, PolicyEvaluationResult,
}
use razor_flow.Domain.Floats.{Floats}
use razor_flow.Domain.Scoring.{Model}
use razor_flow.Audit.{Crypto, events_of}
use razor_flow.Audit.Chain.{IsChain, record_event-keeps}
use razor_flow.Persistence.{
  Db, RecoveryCaseModel, RecoveryCommand, RecoveryDecisionModel, save_case,
}
use razor_flow.Decision.Pipeline.{Decision, decide, deterministic, authorized_command}
use razor_flow.Decision.Contact.{stages}
use razor_flow.Decision.Service.{evaluate_case_decision, decision_row}

module _ (fl : Floats) (model : Model fl) (crypto : Crypto) (now : ℕ)
    (case : RecoveryCaseModel (Floats.F fl)) (context : CaseEnrichmentContext)
    (policy : MerchantPolicySnapshot) (db : Db (Floats.F fl)) where
  command_agrees :
      (r : PolicyEvaluationResult) {c : RecoveryCommand}
      → authorized_command fl model case r ≡ some c
      → (case.id ≡ c.case_id)
        × (r.authorized_action ≡ c.action_type)
        × (case.current_attempt_count + 1 ≡ c.idempotency_key.attempt_number)
        × (c.idempotency_key.action_type ≡ c.action_type)
  command_agrees r e = ground arith

  command_record :
      (d : Decision fl model) {c : RecoveryCommand}
      → decide fl model deterministic case context policy now ≡ ok d
      → d.command ≡ some c
      → (case.id ≡ c.case_id)
        × (d.policy_evaluation.authorized_action ≡ c.action_type)
        × (case.current_attempt_count + 1 ≡ c.idempotency_key.attempt_number)
        × (c.idempotency_key.action_type ≡ c.action_type)
  command_record d decided commanded =
      command_agrees d.policy_evaluation
        (sym (stages fl model deterministic case context policy now decided).commanded ∙ commanded)

  -- A decision that returns a command has left one new record, which agrees with the command on
  -- the case, the action and the attempt number; it created no attempt and sent no request; and
  -- the audit chain of any merchant whose chain was whole is whole.
  pub decision_recorded :
      {d : Decision fl model} {db' : Db (Floats.F fl)} {c : RecoveryCommand} (merchant : ℕ)
      → evaluate_case_decision fl model crypto now case context policy db ≡ ok (d, db')
      → d.command ≡ some c
      → IsChain crypto (events_of merchant db.ledger)
      → (row : RecoveryDecisionModel) × (db'.decisions ≡ row ∷ db.decisions)
        × ((row.case_id ≡ c.case_id)
            × (row.authorized_action ≡ c.action_type)
            × (row.attempt_number ≡ c.idempotency_key.attempt_number)
            × (c.idempotency_key.action_type ≡ c.action_type))
        × (db'.attempts ≡ db.attempts)
        × (db'.gateway_calls ≡ db.gateway_calls)
        × IsChain crypto (events_of merchant db'.ledger)
  unfolding evaluate_case_decision save_case
  decision_recorded {d = d} {db' = db'} merchant e commanded whole =
      let (d', decided, e₁) = bind-ok (decide fl model deterministic case context policy now) _ e in
      let same : d' ≡ d = ap (λ x. x.0) (ok_injective e₁) in
      let stored = ap (λ x. x.1) (ok_injective e₁) in
      (
        decision_row fl model crypto now case db.next_id d',
        ap (λ x. x.decisions) (sym stored),
        command_record d' decided (ap (λ x. x.command) same ∙ commanded),
        ap (λ x. x.attempts) (sym stored),
        ap (λ x. x.gateway_calls) (sym stored),
        subst (λ x. IsChain crypto (events_of merchant x.ledger)) stored
            (record_event-keeps crypto case.merchant_id merchant _ now db.ledger whole),
      )
