-- ===== src/Decision/Net.antt =====
-- The net values that a decision ranks: decision_service.py with candidate_generator.py, the
-- strategies, the scorer and erv_calculator.py.
use razor_flow.Prelude.{
  ℕ, ◌+◌, ◌≤◌, ◌^◌, ◌≡◌, refl, sym, ap, ◌∙◌, subst, true, inl, inr, List, [], ◌∷◌, arith, All,
  Member, ok, bind-ok, ok_injective, leb, nat_beq, ◌&&◌, if◌then◌else◌,
}
use razor_flow.Prelude.Int.{ℤ, pos, negsuc, pos_part, neg_part}
use razor_flow.Domain.Enums.{RecoveryActionType, category_eq}
use razor_flow.Domain.Entities.{RecoveryCaseSnapshot, CaseEnrichmentContext, MerchantPolicySnapshot}
use razor_flow.Domain.Strategies.{
  strategy_evaluate, payment_link_evaluate, customer_reminder_evaluate, wait_and_reassess_evaluate,
  human_escalation_evaluate,
}
use razor_flow.Domain.Candidates.{generate_candidates}
use razor_flow.Domain.Candidates.Eligible.{candidates_split, justified_eligible}
use razor_flow.Domain.Floats.{Floats, FloatLaws, IsUnit}
use razor_flow.Domain.Scoring.{Model, ErvResult, score, calculate_erv}
use razor_flow.Domain.Scoring.Bounds.{score-IsScore, erv_bounds}
use razor_flow.Domain.Scoring.Ranker.{rank_candidates}
use razor_flow.Domain.Scoring.Ranking.{All-insert}
use razor_flow.Persistence.{RecoveryCaseModel}
use razor_flow.Decision.Pipeline.{Decision, decide, score_candidates}
use razor_flow.Decision.Contact.{stages}
use razor_flow.Decision.Guards.{snapshot_columns}

-- What an eligible action costs in paise, with its risk: more for a link to a customer with five
-- failures and no success.
abbrev pub charge : CaseEnrichmentContext → RecoveryActionType → ℕ
charge context RecoveryActionType.payment_link =
    if leb 5 context.historical_failure_count && nat_beq context.historical_success_count 0
    then 700
    else 250
charge context RecoveryActionType.customer_reminder = 250
charge context RecoveryActionType.wait_and_reassess = 0
charge context RecoveryActionType.human_escalation = 10000
charge context RecoveryActionType.do_nothing = 0

eligible_charge :
    (a : RecoveryActionType) (case : RecoveryCaseSnapshot) (context : CaseEnrichmentContext)
    (policy : MerchantPolicySnapshot)
    → (strategy_evaluate a case context policy).is_eligible ≡ true
    → (strategy_evaluate a case context policy).intervention_cost.cents
        + (strategy_evaluate a case context policy).risk_penalty.cents
      ≡ charge context a
unfolding strategy_evaluate payment_link_evaluate customer_reminder_evaluate
    wait_and_reassess_evaluate human_escalation_evaluate
eligible_charge RecoveryActionType.payment_link case context policy h = ground arith
eligible_charge RecoveryActionType.customer_reminder case context policy h = ground arith
eligible_charge RecoveryActionType.wait_and_reassess case context policy h = ground arith
eligible_charge RecoveryActionType.human_escalation case context policy h = ground arith
eligible_charge RecoveryActionType.do_nothing case context policy h = refl

candidate_eligible :
    (a : RecoveryActionType) (case : RecoveryCaseSnapshot) (context : CaseEnrichmentContext)
    (policy : MerchantPolicySnapshot)
    → Member a (generate_candidates case context policy)
    → (strategy_evaluate a case context policy).is_eligible ≡ true
candidate_eligible a case context policy m = elim (candidates_split case context policy a m) [
  | inl (_, just) ↦ justified_eligible case context policy a just
  | inr (nothing, _) ↦
      subst (λ x. (strategy_evaluate x case context policy).is_eligible ≡ true) (sym nothing)
        (justified_eligible case context policy RecoveryActionType.do_nothing tt)
]

All-self : {A : Type 0} (xs : List A) → All (λ x. Member x xs) xs
All-self xs = all_in xs xs (λ a m. m)
  where
    all_in :
        {A : Type 0} (xs ys : List A)
        → ((a : A) → Member a xs → Member a ys)
        → All (λ x. Member x ys) xs
    all_in [] ys sub = tt
    all_in (x ∷ xs) ys sub = (sub x (inl refl), all_in xs ys (λ a m. sub a (inr m)))

module _ (fl : Floats) (laws : FloatLaws fl) (model : Model fl) (case : RecoveryCaseSnapshot)
    (context : CaseEnrichmentContext) (policy : MerchantPolicySnapshot) where
  open fl use {F}

  -- The value of a candidate under a probability.
  abbrev pub IsScored : (RecoveryActionType → Type 0) → ErvResult F → Type 0
  IsScored P r =
      (a : RecoveryActionType) × (p : F) × P a
      × IsUnit fl p
      × (calculate_erv fl a case context p policy ≡ r)

  pub candidates-IsScored :
      (P : RecoveryActionType → Type 0) (candidates : List RecoveryActionType)
      {ervs : List (ErvResult F)}
      → All P candidates
      → score_candidates fl model case context policy candidates ≡ ok ervs
      → All (IsScored P) ervs
  unfolding score_candidates
  candidates-IsScored P [] h e = subst (All (IsScored P)) (ok_injective e) tt
  candidates-IsScored P (cand ∷ candidates) (h, hs) e =
      let (p, told, e₁) = bind-ok (score fl model case context cand) _ e in
      let (rest, scored, e₂) =
        bind-ok (score_candidates fl model case context policy candidates) _ e₁ in
      let (q, told', unit) = score-IsScore fl laws model case context cand in
      let same = ok_injective (subst (λ r. r ≡ ok p) told' told) in
      subst (All (IsScored P)) (ok_injective e₂) (
        (cand, p, h, subst (IsUnit fl) same unit, refl),
        candidates-IsScored P candidates hs scored,
      )

  pub ranked-IsScored :
      (P : RecoveryActionType → Type 0) (ervs : List (ErvResult F))
      → All (IsScored P) ervs
      → All (IsScored P) (rank_candidates fl ervs)
  unfolding rank_candidates
  ranked-IsScored P [] h = tt
  ranked-IsScored P (x ∷ xs) (h, hs) = All-insert fl _ x _ h (ranked-IsScored P xs hs)

module _ (fl : Floats) (context : CaseEnrichmentContext) (amount : ℤ) where
  open fl use {F}

  -- The net value lies between the loss of the whole charge and the amount less the charge.
  abbrev pub IsNetBounded : ErvResult F → Type 0
  IsNetBounded r =
      (neg_part r.expected_net_recovery_value_cents ≤ charge context r.action)
      × (pos_part r.expected_net_recovery_value_cents + charge context r.action
          ≤ pos_part amount + neg_part r.expected_net_recovery_value_cents)

parts_between :
    (z : ℤ) (cost risk c g a : ℕ)
    → pos_part z + cost + risk ≡ g + neg_part z
    → cost + risk ≡ c
    → g ≤ a
    → (neg_part z ≤ c) × (pos_part z + c ≤ a + neg_part z)
parts_between (pos n) cost risk c g a e k h = (omega arith, omega arith)
parts_between (negsuc n) cost risk c g a e k h = (omega arith, omega arith)

module _ (fl : Floats) (laws : FloatLaws fl) (context : CaseEnrichmentContext)
    (policy : MerchantPolicySnapshot) where
  open fl use {F}

  scored-IsNetBounded :
      (case : RecoveryCaseSnapshot) (a : RecoveryActionType) (p : F)
      → case.amount_at_risk.cents ≤ 2 ^ 53
      → IsUnit fl p
      → Member a (generate_candidates case context policy)
      → IsNetBounded fl context
          (pos case.amount_at_risk.cents)
          (calculate_erv fl a case context p policy)
  unfolding calculate_erv
  scored-IsNetBounded case a p small unit m =
      let (gross, same, share, net) = erv_bounds fl laws a case context p policy unit small in
      let charged =
        eligible_charge a case context policy (candidate_eligible a case context policy m) in
      parts_between (calculate_erv fl a case context p policy).expected_net_recovery_value_cents
        (strategy_evaluate a case context policy).intervention_cost.cents
        (strategy_evaluate a case context policy).risk_penalty.cents (charge context a) gross
        case.amount_at_risk.cents net charged share

  scored-All :
      (case : RecoveryCaseSnapshot) (model : Model fl) (ervs : List (ErvResult F))
      → case.amount_at_risk.cents ≤ 2 ^ 53
      → All
          (IsScored fl laws model case context policy
            (λ a. Member a (generate_candidates case context policy)))
          ervs
      → All (IsNetBounded fl context (pos case.amount_at_risk.cents)) ervs
  scored-All case model [] small h = tt
  scored-All case model (r ∷ ervs) small ((a, p, m, unit, same), hs) = (
    subst (IsNetBounded fl context (pos case.amount_at_risk.cents)) same
        (scored-IsNetBounded case a p small unit m),
    scored-All case model ervs small hs,
  )

  -- Every net value that a decision ranks is bounded: for an amount at risk up to 2^53 paise, it
  -- loses at most what the action is charged, and gains at most the amount less that charge: 250
  -- for a reminder or a link, 700 for a link to a customer with five failures and no success,
  -- 10,000 for an escalation, and nothing for waiting or doing nothing. Whatever the model predicts.
  pub rankings-IsNetBounded :
      (model : Model fl)
      (choose : List RecoveryActionType → RecoveryActionType → RecoveryActionType)
      (case : RecoveryCaseModel F) (now : ℕ) {d : Decision fl model}
      → decide fl model choose case context policy now ≡ ok d
      → pos_part case.amount_at_risk_cents ≤ 2 ^ 53
      → All (IsNetBounded fl context case.amount_at_risk_cents) d.rankings
  rankings-IsNetBounded model choose case now e small =
      let s = stages fl model choose case context policy now e in
      let (amount, risk, built) = snapshot_columns fl case s.built in
      let cents : case.amount_at_risk_cents ≡ pos s.snapshot.amount_at_risk.cents =
        risk ∙ ap (λ x. pos x.amount_at_risk.cents) built in
      let low : s.snapshot.amount_at_risk.cents ≤ 2 ^ 53 =
        subst (λ z. pos_part z ≤ 2 ^ 53) cents small in
      let candidates = generate_candidates s.snapshot context policy in
      let scored =
        candidates-IsScored fl laws model s.snapshot context policy (λ a. Member a candidates)
          candidates (All-self candidates) s.scored in
      let ranked =
        ranked-IsScored fl laws model s.snapshot context policy (λ a. Member a candidates) s.ervs
          scored in
      subst (λ rs. All (IsNetBounded fl context case.amount_at_risk_cents) rs)
        (sym s.rankings_after)
        (subst (λ z. All (IsNetBounded fl context z) (rank_candidates fl s.ervs)) (sym cents)
          (scored-All s.snapshot model (rank_candidates fl s.ervs) low ranked))
