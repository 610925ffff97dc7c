-- ===== src/Decision/Negative.antt =====
-- A negative net value that a decision stores.
use razor_flow.Prelude.{
  ℕ, ◌≡◌, sym, ap, ◌∙◌, subst, some, List, [], ◌∷◌, All, ok, raised, bind-ok, ok_injective,
  negative_amount, nat_beq, nat_beq_iff,
}
use razor_flow.Prelude.Int.{negsuc}
use razor_flow.Domain.Enums.{RecoveryActionType}
use razor_flow.Domain.Entities.{RecoveryCaseSnapshot, CaseEnrichmentContext, MerchantPolicySnapshot}
use razor_flow.Domain.Candidates.{generate_candidates}
use razor_flow.Domain.Floats.{Floats, FloatLaws, IsUnit}
use razor_flow.Domain.Scoring.{Model, ErvResult, calculate_erv}
use razor_flow.Audit.{Crypto}
use razor_flow.Persistence.{Db, RecoveryCaseModel, get_case, save_case}
use razor_flow.Persistence.Lookup.{find-update_row}
use razor_flow.Webhooks.Dedup.{find-Member}
use razor_flow.Decision.Pipeline.{Decision, decide, deterministic}
use razor_flow.Decision.Service.{evaluate_case_decision}
use razor_flow.Decision.Contact.{Stages, stages}
use razor_flow.Decision.Net.{IsScored, candidates-IsScored, ranked-IsScored}
use razor_flow.Decision.Outcome.{IsOptionalUnit, negative_erv_raises}

module _ (fl : Floats) (laws : FloatLaws fl) where
  open fl use {F}

  scored-IsUnit :
      (model : Model fl) (case : RecoveryCaseSnapshot) (context : CaseEnrichmentContext)
      (policy : MerchantPolicySnapshot) (P : RecoveryActionType → Type 0) (r : ErvResult F)
      → IsScored fl laws model case context policy P r
      → IsUnit fl r.recovery_probability
  unfolding calculate_erv
  scored-IsUnit model case context policy P r (a, p, _, unit, same) =
      subst (λ x. IsUnit fl x.recovery_probability) same unit

  -- The best ranked value is under a probability.
  top-IsUnit :
      (model : Model fl) (case : RecoveryCaseModel F) (context : CaseEnrichmentContext)
      (policy : MerchantPolicySnapshot) (now : ℕ) {d : Decision fl model}
      (s : Stages fl model deterministic case context policy now d)
      → IsUnit fl s.top.recovery_probability
  top-IsUnit model case context policy now s =
      let candidates = generate_candidates s.snapshot context policy in
      let scored =
        candidates-IsScored fl laws model s.snapshot context policy (λ a. Unit {0}) candidates
          (all_units candidates) s.scored in
      let ranked =
        ranked-IsScored fl laws model s.snapshot context policy (λ a. Unit {0}) s.ervs scored in
      scored-IsUnit model s.snapshot context policy (λ a. Unit {0}) s.top
        (subst (All (IsScored fl laws model s.snapshot context policy (λ a. Unit {0}))) s.ranked
          ranked).0
    where
      all_units : (xs : List RecoveryActionType) → All (λ a. Unit {0}) xs
      all_units [] = tt
      all_units (x ∷ xs) = (tt, all_units xs)

  module _ (model : Model fl) (crypto : Crypto) (now : ℕ) (case : RecoveryCaseModel F)
      (context : CaseEnrichmentContext) (policy : MerchantPolicySnapshot) (db : Db F)
      (model' : Model fl)
      (choose : List RecoveryActionType → RecoveryActionType → RecoveryActionType)
      (context' : CaseEnrichmentContext) (policy' : MerchantPolicySnapshot) (later : ℕ) where
    -- A deterministic decision on a stored case whose best ranked net value is negative returns,
    -- and stores that value with the case; every decision on the row that it leaves then raises,
    -- by either service, under any policy and at any time: an amount must not be negative.
    pub negative_net-stuck :
        {d : Decision fl model} {db' : Db F} {stored : RecoveryCaseModel F} (n : ℕ)
        → get_case case.id db ≡ some stored
        → evaluate_case_decision fl model crypto now case context policy db ≡ ok (d, db')
        → d.top.expected_net_recovery_value_cents ≡ negsuc n
        → (row : RecoveryCaseModel F) × (get_case case.id db' ≡ some row)
          × (row.expected_recovery_value_cents ≡ some (negsuc n))
          × (decide fl model' choose row context' policy' later ≡ raised negative_amount)
    unfolding evaluate_case_decision save_case
    negative_net-stuck {d} {db'} {stored} n there e negative =
        let (d', decided, e₁) =
          bind-ok (decide fl model deterministic case context policy now) _ e in
        let same : d' ≡ d = ap (λ x. x.0) (ok_injective e₁) in
        let s = stages fl model deterministic case context policy now decided in
        let (_, named) = find-Member (λ row. nat_beq row.id case.id) db.cases there in
        let own : case.id ≡ d'.case_after.id = ap (λ c. c.id) (sym s.case_stored) in
        let found : stored.id ≡ d'.case_after.id = (nat_beq_iff stored.id case.id).0 named ∙ own in
        let kept = (nat_beq_iff d'.case_after.id case.id).1 (sym own) in
        let value : d'.case_after.expected_recovery_value_cents ≡ some (negsuc n) =
          ap (λ c. c.expected_recovery_value_cents) s.case_stored
          ∙ ap some (
              ap (λ r. r.expected_net_recovery_value_cents) (sym s.top_after)
              ∙ (ap (λ x. x.top.expected_net_recovery_value_cents) same ∙ negative)) in
        let unit =
          subst (λ p. IsOptionalUnit fl p) (ap (λ c. c.recovery_probability) (sym s.case_stored))
            (top-IsUnit model case context policy now s) in
        (
          d'.case_after,
          subst (λ x. get_case case.id x ≡ some d'.case_after) (ap (λ x. x.1) (ok_injective e₁))
              (find-update_row (λ row. nat_beq row.id case.id) (λ row. row.id) d'.case_after.id
                d'.case_after kept db.cases found there),
          value,
          negative_erv_raises fl model' choose d'.case_after context' policy' later n value unit,
        )
