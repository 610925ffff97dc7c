-- ===== src/Api/Totals.antt =====
-- The numbers of the dashboard fit together.
use razor_flow.Prelude.{
  ℕ, suc, ◌+◌, ◌≤◌, ◌≡◌, refl, ap, ◌∙◌, subst, Bool-cases, inl, inr, Option, List, [], ◌∷◌, Text,
  text_eq, length, select, nat_beq, ok, bind-ok, ok_injective, arith,
}
use razor_flow.Prelude.Int.{ℤ, ◌+ℤ◌, +ℤ-assoc, +ℤ_left_comm}
use razor_flow.Domain.Enums.{RecoveryCaseStatus, case_status_eq}
use razor_flow.Persistence.{Db, RecoveryCaseModel}
use razor_flow.Api.Cases.{resolve_merchant_by_slug}
use razor_flow.Api.Metrics.{
  sum_of, CategoryMetrics, same_category, count_in, SummaryMetrics, active_statuses,
  awaiting_statuses, breakdown, count_status, get_recovery_metrics,
}

-- The sum of the counts of the entries.
abbrev pub counted : List CategoryMetrics → ℕ
counted [] = 0
counted (entry ∷ entries) = entry.count + counted entries

abbrev pub at_risk : List CategoryMetrics → ℤ
at_risk = sum_of (λ entry. entry.amount_at_risk_cents)

count_in-counted :
    (category : Option Text) (cents : ℤ) (entries : List CategoryMetrics)
    → counted (count_in category cents entries) ≡ suc (counted entries)
count_in-counted category cents [] = refl
count_in-counted category cents (entry ∷ entries) =
    let more = count_in-counted category cents entries in
    elim (Bool-cases (same_category entry.category category)) [
      | inl same ↦ rw same (omega arith)
      | inr other ↦ rw other (omega arith)
    ]

count_in-at_risk :
    (category : Option Text) (cents : ℤ) (entries : List CategoryMetrics)
    → at_risk (count_in category cents entries) ≡ cents +ℤ at_risk entries
count_in-at_risk category cents [] = refl
count_in-at_risk category cents (entry ∷ entries) =
    elim (Bool-cases (same_category entry.category category)) [
      | inl same ↦ rw same (+ℤ-assoc cents entry.amount_at_risk_cents (at_risk entries))
      | inr other ↦ rw other (
          ap (λ x. entry.amount_at_risk_cents +ℤ x) (count_in-at_risk category cents entries)
          ∙ +ℤ_left_comm entry.amount_at_risk_cents cents (at_risk entries))
    ]

module _ {F : Type 0} where
  breakdown-counted :
      (cases : List (RecoveryCaseModel F)) → counted (breakdown cases) ≡ length cases
  breakdown-counted [] = refl
  breakdown-counted (case ∷ cases) =
      count_in-counted case.failure_category case.amount_at_risk_cents (breakdown cases)
      ∙ ap suc (breakdown-counted cases)

  breakdown-at_risk :
      (cases : List (RecoveryCaseModel F))
      → at_risk (breakdown cases) ≡ sum_of (λ row. row.amount_at_risk_cents) cases
  breakdown-at_risk [] = refl
  breakdown-at_risk (case ∷ cases) =
      count_in-at_risk case.failure_category case.amount_at_risk_cents (breakdown cases)
      ∙ ap (λ x. case.amount_at_risk_cents +ℤ x) (breakdown-at_risk cases)

  -- One status is counted once.
  counts_fit :
      (cases : List (RecoveryCaseModel F))
      → (count_status awaiting_statuses cases ≤ count_status active_statuses cases)
        × (count_status active_statuses cases
              + count_status (RecoveryCaseStatus.escalated ∷ []) cases
            ≤ length cases)
  counts_fit [] = (omega arith, omega arith)
  counts_fit (case ∷ cases) = let rest = counts_fit cases in ground arith

  -- In an answer, the breakdown by failure category adds up to the number of all cases and to the
  -- revenue at risk, the cases that await an action are at most the active ones, and the active and
  -- the escalated ones together are at most all cases.
  pub totals_fit :
      (slug : Text) (db : Db F) {metrics : SummaryMetrics}
      → get_recovery_metrics slug db ≡ ok metrics
      → (counted metrics.failure_breakdown ≡ metrics.total_cases_count)
        × (at_risk metrics.failure_breakdown ≡ metrics.revenue_at_risk_cents)
        × (metrics.awaiting_action_count ≤ metrics.active_cases_count)
        × (metrics.active_cases_count + metrics.escalated_cases_count ≤ metrics.total_cases_count)
  unfolding get_recovery_metrics
  totals_fit slug db h =
      let (merchant, e, h₁) = bind-ok (resolve_merchant_by_slug db.merchants slug) _ h in
      let cases = select (λ row. nat_beq row.merchant_id merchant.id) db.cases in
      subst
        (λ metrics.
          (counted metrics.failure_breakdown ≡ metrics.total_cases_count)
          × (at_risk metrics.failure_breakdown ≡ metrics.revenue_at_risk_cents)
          × (metrics.awaiting_action_count ≤ metrics.active_cases_count)
          × (metrics.active_cases_count + metrics.escalated_cases_count
              ≤ metrics.total_cases_count))
        (ok_injective h₁)
        (
          breakdown-counted cases,
          breakdown-at_risk cases,
          (counts_fit cases).0,
          (counts_fit cases).1,
        )
