-- ===== src/Domain/Scoring/Erv.antt =====
-- erv_calculator.py: the expected net recovery value of an action, in whole cents.
use razor_flow.Prelude.{ℕ}
use razor_flow.Prelude.Int.{ℤ, pos, ◌-ℤ◌}
use razor_flow.Domain.Enums.{RecoveryActionType}
use razor_flow.Domain.Entities.{RecoveryCaseSnapshot, CaseEnrichmentContext, MerchantPolicySnapshot}
use razor_flow.Domain.Strategies.{strategy_evaluate}
use razor_flow.Domain.Floats.{Floats}

-- The rationale text is left out.
pub record ErvResult (P : Type 0) : Type 0 where
  pub action : RecoveryActionType
  pub recovery_probability : P
  pub amount_at_risk_cents : ℕ
  pub gross_expected_recovery_cents : ℤ
  pub intervention_cost_cents : ℕ
  pub risk_penalty_cents : ℕ
  pub expected_net_recovery_value_cents : ℤ

module _ (fl : Floats) where
  open fl use {F, of_int, times, truncate}

  -- `ERVCalculator.calculate_erv`
  unfoldable pub calculate_erv :
      RecoveryActionType
      → RecoveryCaseSnapshot
      → CaseEnrichmentContext
      → F
      → MerchantPolicySnapshot
      → ErvResult F
  calculate_erv action case context probability policy =
      let evaluation = strategy_evaluate action case context policy in
      let amount_cents = case.amount_at_risk.cents in
      let gross_cents = truncate (times probability (of_int amount_cents)) in
      let cost_cents = evaluation.intervention_cost.cents in
      let risk_cents = evaluation.risk_penalty.cents in
      record {
        action = action;
        recovery_probability = probability;
        amount_at_risk_cents = amount_cents;
        gross_expected_recovery_cents = gross_cents;
        intervention_cost_cents = cost_cents;
        risk_penalty_cents = risk_cents;
        expected_net_recovery_value_cents = gross_cents -ℤ pos cost_cents -ℤ pos risk_cents;
      }
