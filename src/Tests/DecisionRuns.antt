-- ===== src/Tests/DecisionRuns.antt =====
-- Decisions over the fixed-point floats.
use razor_flow.Prelude.{ℕ, All, arith, ◌≡◌, refl, inl, some, [], ◌∷◌, ok, raised, negative_amount}
use razor_flow.Prelude.Int.{pos, negsuc, ◌-ℤ◌}
use razor_flow.Domain.Enums.{RecoveryActionType}
use razor_flow.Domain.Entities.{MerchantPolicySnapshot, default_policy}
use razor_flow.Domain.StateMachine.{can_transition, validate_transition}
use razor_flow.Domain.Money.{from_paise}
use razor_flow.Domain.Candidates.{generate_candidates}
use razor_flow.Domain.Strategies.{
  strategy_evaluate, payment_link_evaluate, customer_reminder_evaluate, wait_and_reassess_evaluate,
  human_escalation_evaluate,
}
use razor_flow.Domain.Scoring.{
  score, score_with, baseline_score, from_float, clamp, raw_score, calculate_erv,
}
use razor_flow.Domain.Scoring.Ranker.{rank_candidates, insert_ranked, key_lt}
use razor_flow.Domain.Policy.{
  evaluate, evaluate_after_cooldown, evaluate_risk, evaluate_preferences, cooldown_remaining,
}
use razor_flow.Persistence.{RecoveryCaseModel, RecoveryCommand, RecoveryDecisionModel, Db, get_case}
use razor_flow.Audit.{events_of}
use razor_flow.Audit.Chain.{IsChain}
use razor_flow.Decision.{
  build_snapshot, parse_category, score_candidates, advance_to_policy_check, target_status,
  Decision, decide, deterministic, evaluate_case_decision,
}
use razor_flow.Decision.Outcome.{HasValidColumns, IsDecided}
use razor_flow.Decision.Net.{IsNetBounded, rankings-IsNetBounded}
use razor_flow.Decision.Negative.{negative_net-stuck}
use razor_flow.Decision.Totality.{decide_total}
use razor_flow.Decision.Contact.{deterministic-ChoosesCandidate}
use razor_flow.Decision.Guards.{GuardsPassed, decision_contact}
use razor_flow.Decision.Record.{decision_recorded}
use razor_flow.Tests.Fixtures.{
  context, later, fixed_point, fixed_point_laws, stored_case, db_with, plain_crypto,
}
use razor_flow.Tests.ScoringRuns.{untrained}

valid_columns : HasValidColumns fixed_point stored_case
valid_columns = (refl, (250000, refl), (0, refl), tt, tt)

decide_total_example :
    (d : Decision fixed_point untrained) × (decide fixed_point untrained deterministic stored_case
        context default_policy later
      ≡ ok d)
    × IsDecided d.case_after.status
decide_total_example =
    decide_total fixed_point fixed_point_laws untrained deterministic stored_case context
      default_policy later valid_columns (inl refl)

-- The link is approved.
decision_run :
    (d : Decision fixed_point untrained) × (decide fixed_point untrained deterministic stored_case
        context default_policy later
      ≡ ok d)
    × ((c : RecoveryCommand) × (d.command ≡ some c)
        × (c.action_type ≡ RecoveryActionType.payment_link))
unfolding decide build_snapshot parse_category from_paise generate_candidates strategy_evaluate
    payment_link_evaluate customer_reminder_evaluate wait_and_reassess_evaluate
    human_escalation_evaluate score_candidates score score_with baseline_score from_float clamp
    raw_score calculate_erv ◌-ℤ◌ rank_candidates insert_ranked key_lt advance_to_policy_check
    validate_transition can_transition evaluate evaluate_after_cooldown evaluate_risk
    evaluate_preferences cooldown_remaining target_status
decision_run = (_, refl, (_, refl, refl))

rankings-IsNetBounded_example :
    All (IsNetBounded fixed_point context stored_case.amount_at_risk_cents) decision_run.0.rankings
rankings-IsNetBounded_example =
    rankings-IsNetBounded fixed_point fixed_point_laws context default_policy untrained
      deterministic stored_case later decision_run.1 (omega arith)

-- One rupee is at risk, and the merchant allows neither waiting nor doing nothing.
abbrev petty_case : RecoveryCaseModel ℕ
petty_case = record stored_case { amount_at_risk_cents = pos 100 }

abbrev busy_policy : MerchantPolicySnapshot
busy_policy = record default_policy {
  disallowed_actions = RecoveryActionType.wait_and_reassess ∷ RecoveryActionType.do_nothing ∷ [];
}

-- The link is expected to lose 202 paise.
petty_run :
    (d : Decision fixed_point untrained) × (db : Db ℕ) × (evaluate_case_decision fixed_point
        untrained plain_crypto later petty_case context busy_policy
        (db_with petty_case)
      ≡ ok (d, db))
    × (d.top.expected_net_recovery_value_cents ≡ negsuc 201)
unfolding evaluate_case_decision decide build_snapshot parse_category from_paise generate_candidates
    strategy_evaluate payment_link_evaluate customer_reminder_evaluate wait_and_reassess_evaluate
    human_escalation_evaluate score_candidates score score_with baseline_score from_float clamp
    raw_score calculate_erv ◌-ℤ◌ rank_candidates insert_ranked key_lt advance_to_policy_check
    validate_transition can_transition evaluate evaluate_after_cooldown evaluate_risk
    evaluate_preferences cooldown_remaining target_status
petty_run = (_, _, refl, refl)

negative_net-stuck_example :
    (row : RecoveryCaseModel ℕ) × (get_case 1 petty_run.1 ≡ some row)
    × (row.expected_recovery_value_cents ≡ some (negsuc 201))
    × (decide fixed_point untrained deterministic row context default_policy 5000000000
        ≡ raised negative_amount)
negative_net-stuck_example =
    negative_net-stuck fixed_point fixed_point_laws untrained plain_crypto later petty_case context
      busy_policy (db_with petty_case) untrained deterministic context default_policy 5000000000 201
      refl petty_run.2 petty_run.3

decision_contact_example :
    GuardsPassed fixed_point untrained deterministic stored_case context default_policy later
      decision_run.2.0.action_type
decision_contact_example =
    decision_contact fixed_point untrained deterministic stored_case context default_policy later
      deterministic-ChoosesCandidate decision_run.1 decision_run.2.1 (inl decision_run.2.2)

recorded_run :
    (d : Decision fixed_point untrained) × (db : Db ℕ) × (evaluate_case_decision fixed_point
        untrained plain_crypto later stored_case context default_policy
        (db_with stored_case)
      ≡ ok (d, db))
    × ((c : RecoveryCommand) × (d.command ≡ some c))
unfolding evaluate_case_decision decide build_snapshot parse_category from_paise generate_candidates
    strategy_evaluate payment_link_evaluate customer_reminder_evaluate wait_and_reassess_evaluate
    human_escalation_evaluate score_candidates score score_with baseline_score from_float clamp
    raw_score calculate_erv ◌-ℤ◌ rank_candidates insert_ranked key_lt advance_to_policy_check
    validate_transition can_transition evaluate evaluate_after_cooldown evaluate_risk
    evaluate_preferences cooldown_remaining target_status
recorded_run = (_, _, refl, (_, refl))

decision_recorded_example :
    (row : RecoveryDecisionModel) × (recorded_run.1.decisions ≡ row ∷ [])
    × ((row.case_id ≡ recorded_run.3.0.case_id)
        × (row.authorized_action ≡ recorded_run.3.0.action_type)
        × (row.attempt_number ≡ recorded_run.3.0.idempotency_key.attempt_number)
        × (recorded_run.3.0.idempotency_key.action_type ≡ recorded_run.3.0.action_type))
    × (recorded_run.1.attempts ≡ [])
    × (recorded_run.1.gateway_calls ≡ [])
    × IsChain plain_crypto (events_of 7 recorded_run.1.ledger)
decision_recorded_example =
    decision_recorded fixed_point untrained plain_crypto later stored_case context default_policy
      (db_with stored_case) 7 recorded_run.2 recorded_run.3.1 tt
