-- ===== src/Api/Metrics.antt =====
-- The dashboard numbers of metrics.py. The recovery rate, which is a float, and the formatted texts
-- are left out.
use razor_flow.Prelude.{
  ℕ, suc, Bool, true, false, ◌&&◌, Option, none, some, List, [], ◌∷◌, if◌then◌else◌, ◌==◌, contains,
  length, nat_beq, select, Text, text_eq, Result, ok, ◌>>=◌,
}
use razor_flow.Prelude.Int.{ℤ, pos, ◌+ℤ◌}
use razor_flow.Domain.Enums.{RecoveryCaseStatus, case_status_eq}
use razor_flow.Persistence.{Db, RecoveryCaseModel, RecoveryOutcomeModel}
use razor_flow.Api.Cases.{resolve_merchant_by_slug}

-- `coalesce(sum(amount), 0)`
abbrev pub sum_of {ℓ} : {A : Type ℓ} → (A → ℤ) → List A → ℤ
sum_of amount [] = pos 0
sum_of amount (row ∷ rows) = amount row +ℤ sum_of amount rows

-- An entry of `failure_breakdown`.
pub record CategoryMetrics : Type 0 where
  pub category : Option Text
  pub count : ℕ
  pub amount_at_risk_cents : ℤ

-- NULL is a group of its own.
abbrev pub same_category : Option Text → Option Text → Bool
same_category none none = true
same_category none (some b) = false
same_category (some a) none = false
same_category (some a) (some b) = a == b

abbrev pub count_in : Option Text → ℤ → List CategoryMetrics → List CategoryMetrics
count_in category cents [] =
    record { category = category; count = 1; amount_at_risk_cents = cents } ∷ []
count_in category cents (entry ∷ entries) =
    let rest = count_in category cents entries in
    if same_category entry.category category
    then record entry {
      count = suc entry.count;
      amount_at_risk_cents = cents +ℤ entry.amount_at_risk_cents;
    }
      ∷ entries
    else entry ∷ rest

pub record SummaryMetrics : Type 0 where
  pub revenue_at_risk_cents : ℤ
  pub verified_revenue_recovered_cents : ℤ
  pub intervention_cost_cents : ℤ
  pub net_recovered_revenue_cents : ℤ
  pub total_cases_count : ℕ
  pub successful_recoveries_count : ℕ
  pub active_cases_count : ℕ
  pub awaiting_action_count : ℕ
  pub escalated_cases_count : ℕ
  pub average_recovery_latency_seconds : ℕ
  pub failure_breakdown : List CategoryMetrics

abbrev pub active_statuses : List RecoveryCaseStatus
active_statuses =
    RecoveryCaseStatus.diagnosing ∷ RecoveryCaseStatus.approved ∷ RecoveryCaseStatus.executing
    ∷ RecoveryCaseStatus.waiting_external ∷ RecoveryCaseStatus.verifying ∷ []

abbrev pub awaiting_statuses : List RecoveryCaseStatus
awaiting_statuses = RecoveryCaseStatus.diagnosing ∷ RecoveryCaseStatus.approved ∷ []

module _ {F : Type 0} where
  -- `group_by(failure_category)`; the order of the groups is open in SQL.
  abbrev pub breakdown : List (RecoveryCaseModel F) → List CategoryMetrics
  breakdown [] = []
  breakdown (case ∷ cases) =
      count_in case.failure_category case.amount_at_risk_cents (breakdown cases)

  -- The number of cases in one of the statuses.
  abbrev pub count_status : List RecoveryCaseStatus → List (RecoveryCaseModel F) → ℕ
  count_status statuses cases = length (select (λ row. contains row.status statuses) cases)

  -- The metrics of a merchant's cases and successful outcomes.
  abbrev pub summary_of : List (RecoveryCaseModel F) → List RecoveryOutcomeModel → SummaryMetrics
  summary_of cases outcomes = record {
    revenue_at_risk_cents = sum_of (λ row. row.amount_at_risk_cents) cases;
    verified_revenue_recovered_cents = sum_of (λ row. row.amount_recovered_cents) outcomes;
    intervention_cost_cents = sum_of (λ row. pos row.cost_incurred_cents) outcomes;
    net_recovered_revenue_cents = sum_of (λ row. row.net_recovery_cents) outcomes;
    total_cases_count = length cases;
    successful_recoveries_count = length outcomes;
    active_cases_count = count_status active_statuses cases;
    awaiting_action_count = count_status awaiting_statuses cases;
    escalated_cases_count = count_status (RecoveryCaseStatus.escalated ∷ []) cases;
    average_recovery_latency_seconds = 420;
    failure_breakdown = breakdown cases;
  }

  unfoldable pub get_recovery_metrics : Text → Db F → Result SummaryMetrics
  get_recovery_metrics merchant_slug db = do
    merchant ← resolve_merchant_by_slug db.merchants merchant_slug
    ok (
        summary_of (select (λ row. nat_beq row.merchant_id merchant.id) db.cases)
          (select (λ row. nat_beq row.merchant_id merchant.id && row.is_successful) db.outcomes))
