-- ===== src/Tests/DomainRuns.antt =====
-- The state machines, the candidates and the amounts at concrete values.
use razor_flow.Prelude.{
  ◌↔◌, Member, ◌≡◌, refl, ◌⊎◌, List, [], ◌∷◌, Member, raised, negative_amount, invalid_currency,
  codes,
}
use razor_flow.Prelude.Int.{pos, negsuc}
use razor_flow.Domain.Enums.{
  RecoveryCaseStatus, RecoveryAttemptStatus, RecoveryActionType, action_eq,
}
use razor_flow.Domain.StateMachine.{can_transition, attempt_can_transition}
use razor_flow.Domain.StateMachine.Reach.{Run, here, step, recovered_path}
use razor_flow.Domain.StateMachine.AttemptRank.{AttemptRun}
use razor_flow.Domain.Money.{from_paise, inr_currency}
use razor_flow.Domain.Entities.{default_policy}
use razor_flow.Domain.Candidates.{generate_candidates}
use razor_flow.Domain.Candidates.Eligible.{IsCleared, candidates_justified}
use razor_flow.Domain.Strategies.{
  strategy_evaluate, payment_link_evaluate, customer_reminder_evaluate, wait_and_reassess_evaluate,
  human_escalation_evaluate,
}
use razor_flow.Tests.Fixtures.{snapshot, context}

abbrev happy_path : List RecoveryCaseStatus
happy_path =
    RecoveryCaseStatus.enriching ∷ RecoveryCaseStatus.diagnosing
    ∷ RecoveryCaseStatus.strategy_generated ∷ RecoveryCaseStatus.policy_check_pending
    ∷ RecoveryCaseStatus.approved ∷ RecoveryCaseStatus.executing
    ∷ RecoveryCaseStatus.waiting_external ∷ RecoveryCaseStatus.verifying
    ∷ RecoveryCaseStatus.recovered ∷ []

happy-Run : Run RecoveryCaseStatus.detected happy_path RecoveryCaseStatus.recovered
unfolding can_transition
happy-Run = step refl (
    step refl
      (step refl (step refl (step refl (step refl (step refl (step refl (step refl here))))))))

recovered_path_example :
    Member RecoveryCaseStatus.approved happy_path × Member RecoveryCaseStatus.verifying happy_path
recovered_path_example = recovered_path happy-Run

abbrev attempt_path : List RecoveryAttemptStatus
attempt_path =
    RecoveryAttemptStatus.dispatched ∷ RecoveryAttemptStatus.acknowledged
    ∷ RecoveryAttemptStatus.succeeded ∷ []

attempt_run : AttemptRun RecoveryAttemptStatus.draft attempt_path RecoveryAttemptStatus.succeeded
unfolding attempt_can_transition
attempt_run = AttemptRun.step refl (AttemptRun.step refl (AttemptRun.step refl AttemptRun.here))

from_paise_negative : from_paise (negsuc 4) inr_currency ≡ raised negative_amount
unfolding from_paise
from_paise_negative = refl

from_paise_long_currency : from_paise (pos 5) (codes "EURO") ≡ raised invalid_currency
unfolding from_paise
from_paise_long_currency = refl

candidates_run :
    generate_candidates snapshot context default_policy
    ≡ RecoveryActionType.payment_link ∷ RecoveryActionType.wait_and_reassess
      ∷ RecoveryActionType.do_nothing ∷ []
unfolding generate_candidates strategy_evaluate payment_link_evaluate customer_reminder_evaluate
    wait_and_reassess_evaluate human_escalation_evaluate
candidates_run = refl

candidates_justified_example :
    Member RecoveryActionType.payment_link (generate_candidates snapshot context default_policy) ↔ (
      IsCleared snapshot context default_policy RecoveryActionType.payment_link
      ⊎ ((RecoveryActionType.payment_link ≡ RecoveryActionType.do_nothing)
          × ((b : RecoveryActionType) → ¬ (IsCleared snapshot context default_policy b))))
candidates_justified_example =
    candidates_justified snapshot context default_policy RecoveryActionType.payment_link
