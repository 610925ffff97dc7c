-- ===== src/Decision/Contact.antt =====
-- A decision that contacts the customer has passed every guard, from the stored case to the
-- command: candidates, ranking, proposal and policy together.
use razor_flow.Prelude.{
  Bool-cases, ℕ, ◌≡◌, refl, sym, ap, inl, inr, Bool, true, false, Option, none, some, List, [], ◌∷◌,
  arith, Member, All, contains, ok, bind-ok, then-ok, ok_injective, subst,
}
use razor_flow.Domain.Enums.{RecoveryActionType, action_eq}
use razor_flow.Domain.StateMachine.{validate_transition}
use razor_flow.Domain.Entities.{RecoveryCaseSnapshot, CaseEnrichmentContext, MerchantPolicySnapshot}
use razor_flow.Domain.Policy.{
  evaluate, evaluate_after_cooldown, evaluate_risk, evaluate_preferences, fallback_action,
  cooldown_remaining,
}
use razor_flow.Domain.Policy.Contact.{ContactsCustomer}
use razor_flow.Domain.Candidates.{generate_candidates}
use razor_flow.Domain.Floats.{Floats}
use razor_flow.Domain.Scoring.{Model, ErvResult, score, calculate_erv}
use razor_flow.Domain.Scoring.Ranker.{rank_candidates}
use razor_flow.Domain.Scoring.Ranking.{All-insert}
use razor_flow.Persistence.{RecoveryCaseModel}
use razor_flow.Decision.Snapshot.{build_snapshot}
use razor_flow.Decision.Pipeline.{
  Decision, decide, score_candidates, first_ranked, advance_to_policy_check, target_status,
  evaluation_of, authorized_command, ai_recommendation, deterministic,
}

abbrev pub IsNothing : RecoveryActionType → Type 0
IsNothing a = a ≡ RecoveryActionType.do_nothing

-- With nothing but DO_NOTHING ranked, a proposal to do nothing contacts nobody.
module _ (case : RecoveryCaseSnapshot) (context : CaseEnrichmentContext)
    (policy : MerchantPolicySnapshot) (rankings : List RecoveryActionType)
    (nothing : All IsNothing rankings) where
  fallback_nothing :
      (disallowed rs : List RecoveryActionType)
      → All IsNothing rs
      → fallback_action disallowed RecoveryActionType.do_nothing rs ≡ RecoveryActionType.do_nothing
  unfolding fallback_action
  fallback_nothing disallowed [] h = refl
  fallback_nothing disallowed (r ∷ rs) (h, hs) = ground (arith, fallback_nothing disallowed rs hs)

  risk_nothing : ¬ (
      ContactsCustomer
        (evaluate_risk RecoveryActionType.do_nothing case context policy
          rankings).authorized_action)
  unfolding evaluate_risk evaluate_preferences
  risk_nothing c = ground (arith, fallback_nothing policy.disallowed_actions rankings nothing)

  after_nothing :
      (remaining : Option ℕ)
      → ¬ (
          ContactsCustomer
            (evaluate_after_cooldown RecoveryActionType.do_nothing case context policy rankings
              remaining).authorized_action)
  unfolding evaluate_after_cooldown
  after_nothing none c = risk_nothing c
  after_nothing (some r) c = ground arith

  pub nothing_contacts_nobody :
      (now : ℕ)
      → ¬ (
          ContactsCustomer
            (evaluate RecoveryActionType.do_nothing case context policy rankings
              now).authorized_action)
  unfolding evaluate
  nothing_contacts_nobody now c = ground (
    arith,
    after_nothing (
        cooldown_remaining case.last_attempt_at now policy.cooldown_period_minutes
          RecoveryActionType.do_nothing),
  )

module _ (fl : Floats) (model : Model fl) where
  open fl use {F}

  -- The actions that a decision works with are candidates throughout.
  pub scored_members :
      (case : RecoveryCaseSnapshot) (context : CaseEnrichmentContext)
      (policy : MerchantPolicySnapshot) (P : RecoveryActionType → Type 0)
      (candidates : List RecoveryActionType) {ervs : List (ErvResult F)}
      → All P candidates
      → score_candidates fl model case context policy candidates ≡ ok ervs
      → All (λ r. P r.action) ervs
  unfolding score_candidates calculate_erv
  scored_members case context policy P [] h e = subst (All (λ r. P r.action)) (ok_injective e) tt
  scored_members case context policy P (cand ∷ candidates) (h, hs) e =
      let (p, _, e₁) = bind-ok (score fl model case context cand) _ e in
      let (rest, scored, e₂) =
        bind-ok (score_candidates fl model case context policy candidates) _ e₁ in
      subst (All (λ r. P r.action)) (ok_injective e₂)
        (h, scored_members case context policy P candidates hs scored)

  pub ranked_members :
      (P : RecoveryActionType → Type 0) (ervs : List (ErvResult F))
      → All (λ r. P r.action) ervs
      → All (λ r. P r.action) (rank_candidates fl ervs)
  unfolding rank_candidates
  ranked_members P [] h = tt
  ranked_members P (x ∷ xs) (h, hs) = All-insert fl _ x _ h (ranked_members P xs hs)

  -- The parts of a decision that was made.
  pub record Stages (choose : List RecoveryActionType → RecoveryActionType → RecoveryActionType)
      (case : RecoveryCaseModel F) (context : CaseEnrichmentContext)
      (policy : MerchantPolicySnapshot) (now : ℕ) (d : Decision fl model) : Type 0 where
    pub snapshot : RecoveryCaseSnapshot
    pub ervs : List (ErvResult F)
    pub top : ErvResult F
    pub others : List (ErvResult F)
    pub built : build_snapshot fl case ≡ ok snapshot
    pub scored :
        score_candidates fl model snapshot context policy
          (generate_candidates snapshot context policy)
        ≡ ok ervs
    pub ranked : rank_candidates fl ervs ≡ top ∷ others
    pub verdict :
        d.policy_evaluation
        ≡ evaluation_of fl model snapshot context policy now
            (rank_candidates fl ervs)
            (choose (generate_candidates snapshot context policy) top.action)
    pub commanded : d.command ≡ authorized_command fl model case d.policy_evaluation
    pub status_after : d.case_after.status ≡ target_status d.policy_evaluation
    pub rankings_after : d.rankings ≡ rank_candidates fl ervs
    pub top_after : d.top ≡ top
    pub case_stored : d.case_after ≡ (record case {
      status = target_status d.policy_evaluation;
      recovery_probability = some top.recovery_probability;
      expected_recovery_value_cents = some top.expected_net_recovery_value_cents;
    })

  first_ranked-eq-ok :
      (xs : List (ErvResult F)) {x : ErvResult F}
      → first_ranked fl model xs ≡ ok x
      → (rest : List (ErvResult F)) × (xs ≡ x ∷ rest)
  first_ranked-eq-ok [] e = cc
  first_ranked-eq-ok (y ∷ ys) e = (ys, cc)

  pub stages :
      (choose : List RecoveryActionType → RecoveryActionType → RecoveryActionType)
      (case : RecoveryCaseModel F) (context : CaseEnrichmentContext)
      (policy : MerchantPolicySnapshot) (now : ℕ) {d : Decision fl model}
      → decide fl model choose case context policy now ≡ ok d
      → Stages choose case context policy now d
  unfolding decide
  stages choose case context policy now e =
      let (snapshot, built, e₁) = bind-ok (build_snapshot fl case) _ e in
      let (ervs, scored, e₂) =
        bind-ok
          (score_candidates fl model snapshot context policy
            (generate_candidates snapshot context policy))
          _ e₁ in
      let (top, first, e₃) = bind-ok (first_ranked fl model (rank_candidates fl ervs)) _ e₂ in
      let (others, ranked) = first_ranked-eq-ok (rank_candidates fl ervs) first in
      let (pending, _, e₄) = bind-ok (advance_to_policy_check case.status) _ e₃ in
      let (_, e₅) = then-ok (validate_transition pending _) _ e₄ in
      let same = ok_injective e₅ in
      record {
        snapshot = snapshot;
        ervs = ervs;
        top = top;
        others = others;
        built = built;
        scored = scored;
        ranked = ranked;
        verdict = ap (λ x. x.policy_evaluation) (sym same);
        commanded =
            subst (λ x. x.command ≡ authorized_command fl model case x.policy_evaluation) same refl;
        status_after =
            subst (λ x. x.case_after.status ≡ target_status x.policy_evaluation) same refl;
        rankings_after = ap (λ x. x.rankings) (sym same);
        top_after = ap (λ x. x.top) (sym same);
        case_stored =
            subst
              (λ x. x.case_after ≡ (record case {
                status = target_status x.policy_evaluation;
                recovery_probability = some top.recovery_probability;
                expected_recovery_value_cents = some top.expected_net_recovery_value_cents;
              }))
              same refl;
      }

-- The proposal is one of the candidates whenever the best ranked action is.
abbrev pub ChoosesCandidate :
    (List RecoveryActionType → RecoveryActionType → RecoveryActionType) → Type 0
ChoosesCandidate choose =
    (candidates : List RecoveryActionType) (top : RecoveryActionType)
    → Member top candidates
    → Member (choose candidates top) candidates

pub deterministic-ChoosesCandidate : ChoosesCandidate deterministic
deterministic-ChoosesCandidate candidates top h = h

contains-Member :
    (a : RecoveryActionType) (actions : List RecoveryActionType)
    → contains a actions ≡ true
    → Member a actions
contains-Member a [] h = cc
contains-Member a (x ∷ actions) h = ground (arith, contains-Member a actions)

-- Whatever the AI answers, and whether or not it answers, its service proposes a candidate.
pub ai-ChoosesCandidate :
    (enabled : Bool) (reply : Option RecoveryActionType)
    → ChoosesCandidate (ai_recommendation enabled reply)
unfolding ai_recommendation
ai-ChoosesCandidate false reply candidates top h = h
ai-ChoosesCandidate true none candidates top h = h
ai-ChoosesCandidate true (some action) candidates top h =
    elim (Bool-cases (contains action candidates)) [
      | inl inside ↦ rw inside (contains-Member action candidates inside)
      | inr outside ↦ rw outside h
    ]

pub All-Member : (actions : List RecoveryActionType) → All (λ a. Member a actions) actions
All-Member actions = all_self actions (λ a m. m)
  where
    all_self :
        (xs : List RecoveryActionType)
        → ((a : RecoveryActionType) → Member a xs → Member a actions)
        → All (λ a. Member a actions) xs
    all_self [] up = tt
    all_self (x ∷ xs) up = (up x (inl refl), all_self xs (λ a m. up a (inr m)))
