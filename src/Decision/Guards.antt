-- ===== src/Decision/Guards.antt =====
-- A decision that contacts the customer has passed every guard, from the stored case to the
-- command.
use razor_flow.Prelude.{
  ℕ, ◌<◌, ◌≡◌, ◌≢◌, refl, sym, ap, ◌∙◌, inl, inr, true, false, some, List, [], ◌∷◌, map, arith,
  Member, All, contains, ok, bind-ok, ok_injective, subst,
}
use razor_flow.Prelude.Int.{ℤ, pos}
use razor_flow.Domain.Enums.{RecoveryActionType, FailureCategory, action_eq}
use razor_flow.Domain.StateMachine.Reach.{IsTerminal}
use razor_flow.Domain.Money.{MonetaryAmount, from_paise}
use razor_flow.Domain.Entities.{
  RecoveryCaseSnapshot, CaseEnrichmentContext, MerchantPolicySnapshot, PolicyEvaluationResult,
}
use razor_flow.Domain.Policy.{has_active_link}
use razor_flow.Domain.Policy.Contact.{ContactsCustomer, CooldownPassed, contact_authorized}
use razor_flow.Domain.Candidates.{generate_candidates}
use razor_flow.Domain.Candidates.Eligible.{candidates_split, Justified}
use razor_flow.Domain.Floats.{Floats}
use razor_flow.Domain.Scoring.{Model, ErvResult}
use razor_flow.Domain.Scoring.Ranker.{rank_candidates}
use razor_flow.Persistence.{RecoveryCaseModel, RecoveryCommand}
use razor_flow.Decision.Snapshot.{
  build_snapshot, snapshot_with, optional_amount, optional_probability, category_of,
}
use razor_flow.Decision.Pipeline.{
  Decision, decide, authorized_command, evaluation_of, score_candidates,
}
use razor_flow.Decision.Contact.{
  IsNothing, nothing_contacts_nobody, scored_members, ranked_members, stages, ChoosesCandidate,
  All-Member,
}

from_paise_pos :
    (n : ℤ) (currency : _) {amount : MonetaryAmount}
    → from_paise n currency ≡ ok amount
    → n ≡ pos amount.cents
unfolding from_paise
from_paise_pos n currency e = ground arith

All-map :
    {A : Type 0} (f : A → RecoveryActionType) (xs : List A)
    → All (λ a. IsNothing (f a)) xs
    → All IsNothing (map f xs)
All-map f [] h = tt
All-map f (x ∷ xs) (h, hs) = (h, All-map f xs hs)

module _ (fl : Floats) where
  open fl use {F}

  -- A snapshot that was built has the case's own columns.
  pub snapshot_columns :
      (case : RecoveryCaseModel F) {snapshot : RecoveryCaseSnapshot}
      → build_snapshot fl case ≡ ok snapshot
      → (amount : MonetaryAmount) × (case.amount_at_risk_cents ≡ pos amount.cents)
        × (snapshot_with fl case amount ≡ snapshot)
  unfolding build_snapshot
  snapshot_columns case e =
      let (_, _, e₁) = bind-ok (optional_probability fl case.recovery_probability) _ e in
      let (_, _, e₂) =
        bind-ok (optional_amount case.expected_recovery_value_cents case.currency) _ e₁ in
      let (amount, risk, e₃) = bind-ok (from_paise case.amount_at_risk_cents case.currency) _ e₂ in
      let (_, _, e₄) = bind-ok (from_paise case.amount_recovered_cents case.currency) _ e₃ in
      (amount, from_paise_pos _ _ risk, ok_injective e₄)

  command_action :
      (model : Model fl) (case : RecoveryCaseModel F) (r : PolicyEvaluationResult)
      {c : RecoveryCommand}
      → authorized_command fl model case r ≡ some c
      → r.authorized_action ≡ c.action_type
  command_action model case r e = ground arith

module _ (fl : Floats) (model : Model fl)
    (choose : List RecoveryActionType → RecoveryActionType → RecoveryActionType)
    (case : RecoveryCaseModel (Floats.F fl)) (context : CaseEnrichmentContext)
    (policy : MerchantPolicySnapshot) (now : ℕ) where
  -- What holds of a case whose customer is contacted by `action`.
  abbrev pub GuardsPassed : RecoveryActionType → Type 0
  GuardsPassed action =
      (¬ (IsTerminal case.status))
      × (now < case.deadline_at)
      × (case.current_attempt_count < policy.max_allowed_attempts)
      × CooldownPassed case.last_attempt_at now policy.cooldown_period_minutes
      × (category_of case.failure_category ≢ some FailureCategory.fraud_risk_block)
      × ((cents : ℕ) × (case.amount_at_risk_cents ≡ pos cents)
          × (cents < policy.high_value_escalation_threshold_cents))
      × (contains action policy.disallowed_actions ≡ false)

  module _ (snapshot : RecoveryCaseSnapshot) (ervs : List (ErvResult (Floats.F fl))) where
    ranked-All :
        (P : RecoveryActionType → Type 0)
        → All P (generate_candidates snapshot context policy)
        → score_candidates fl model snapshot context policy
            (generate_candidates snapshot context policy)
          ≡ ok ervs
        → All (λ r. P r.action) (rank_candidates fl ervs)
    ranked-All P h scored = ranked_members fl model P ervs (
        scored_members fl model snapshot context policy P
          (generate_candidates snapshot context policy) h scored)

    reminder_link :
        (proposed : RecoveryActionType)
        → Justified snapshot context policy proposed
        → proposed ≡ RecoveryActionType.customer_reminder
        → has_active_link snapshot context ≡ true
    reminder_link RecoveryActionType.customer_reminder why e = why.0
    reminder_link RecoveryActionType.payment_link why e = cc
    reminder_link RecoveryActionType.wait_and_reassess why e = cc
    reminder_link RecoveryActionType.human_escalation why e = cc
    reminder_link RecoveryActionType.do_nothing why e = cc

    -- A contact comes from a candidate that the merchant allows and its strategy justifies.
    proposal_cleared :
        (proposed : RecoveryActionType)
        → Member proposed (generate_candidates snapshot context policy)
        → score_candidates fl model snapshot context policy
            (generate_candidates snapshot context policy)
          ≡ ok ervs
        → ContactsCustomer
            (evaluation_of fl model snapshot context policy now
              (rank_candidates fl ervs)
              proposed).authorized_action
        → (contains proposed policy.disallowed_actions ≡ false)
          × Justified snapshot context policy proposed
    proposal_cleared proposed m scored c =
        elim (candidates_split snapshot context policy proposed m) [
          | inl cleared ↦ cleared
          | inr (idle, alone) ↦
              let idles = ranked-All IsNothing (rw alone (refl, tt)) scored in
              absurd (
                nothing_contacts_nobody snapshot context policy _
                  (All-map (λ r. r.action) (rank_candidates fl ervs) idles) now
                  (subst
                    (λ a.
                      ContactsCustomer
                        (evaluation_of fl model snapshot context policy now
                          (rank_candidates fl ervs) a).authorized_action)
                    idle c))
        ]

  -- Every contact that the engine authorizes on a snapshot, for a candidate, has passed the guards.
  abbrev ContactsGuarded : MonetaryAmount → RecoveryCaseSnapshot → Type 0
  ContactsGuarded amount snapshot =
      (ervs : List (ErvResult (Floats.F fl))) (proposed : RecoveryActionType)
      → case.amount_at_risk_cents ≡ pos amount.cents
      → Member proposed (generate_candidates snapshot context policy)
      → score_candidates fl model snapshot context policy
          (generate_candidates snapshot context policy)
        ≡ ok ervs
      → ContactsCustomer
          (evaluation_of fl model snapshot context policy now (rank_candidates fl ervs)
            proposed).authorized_action
      → GuardsPassed
          (evaluation_of fl model snapshot context policy now (rank_candidates fl ervs)
            proposed).authorized_action

  guards_of : (amount : MonetaryAmount) → ContactsGuarded amount (snapshot_with fl case amount)
  guards_of amount ervs proposed risk m scored c =
      let snapshot = snapshot_with fl case amount in
      let (allowed, why) = proposal_cleared snapshot ervs proposed m scored c in
      let (live, early, few, passed, clean, low, kept) =
        contact_authorized proposed snapshot context policy _ now allowed
          (reminder_link snapshot ervs proposed why) c in
      (live, early, few, passed, clean, (amount.cents, risk, low), rw kept allowed)

  -- If a decision succeeds, and its proposal comes from the candidates as both services choose
  -- it, then a command for a payment link or a reminder means that every guard was passed: the
  -- stored case is not terminal, before its deadline, under the merchant's attempt limit, after
  -- the cooldown, not classified as fraud and below the high-value threshold, and the action is
  -- not one that the merchant disallows.
  pub decision_contact :
      {d : Decision fl model} {c : RecoveryCommand}
      → ChoosesCandidate choose
      → decide fl model choose case context policy now ≡ ok d
      → d.command ≡ some c
      → ContactsCustomer c.action_type
      → GuardsPassed c.action_type
  decision_contact {d = d} {c = c} keeps decided commanded contact =
      let s = stages fl model choose case context policy now decided in
      let (amount, risk, same) = snapshot_columns fl case s.built in
      let candidates = generate_candidates s.snapshot context policy in
      let tops =
        ranked-All s.snapshot s.ervs (λ a. Member a candidates) (All-Member candidates) s.scored in
      let top_in : Member s.top.action candidates = (rw s.ranked at tops).0 in
      let authorized : d.policy_evaluation.authorized_action ≡ c.action_type =
        command_action fl model case d.policy_evaluation (sym s.commanded ∙ commanded) in
      let reached = ap (λ r. r.authorized_action) (sym s.verdict) ∙ authorized in
      subst GuardsPassed reached (
        subst (ContactsGuarded amount) same (guards_of amount) s.ervs
          (choose candidates s.top.action) risk (keeps candidates s.top.action top_in) s.scored
          (subst ContactsCustomer (sym reached) contact))
