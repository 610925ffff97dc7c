-- ===== src/Decision/Totality.antt =====
-- A case that is ready for a decision always gets one; any other case raises.
use razor_flow.Prelude.{
  ℕ, ◌≡◌, ◌≢◌, refl, some, List, [], ◌∷◌, map, arith, ok, raised, invalid_state_transition, ◌∙◌,
}
use razor_flow.Domain.Enums.{RecoveryCaseStatus, RecoveryActionType}
use razor_flow.Domain.StateMachine.{validate_transition}
use razor_flow.Domain.Entities.{
  RecoveryCaseSnapshot, CaseEnrichmentContext, MerchantPolicySnapshot, PolicyEvaluationResult,
}
use razor_flow.Domain.Candidates.{generate_candidates, or_do_nothing}
use razor_flow.Domain.Floats.{Floats, FloatLaws}
use razor_flow.Domain.Scoring.{Model, ErvResult}
use razor_flow.Domain.Scoring.Ranker.{rank_candidates}
use razor_flow.Persistence.{RecoveryCaseModel}
use razor_flow.Decision.Snapshot.{build_snapshot}
use razor_flow.Decision.Pipeline.{
  Decision, decide, score_candidates, advance_to_policy_check, target_status, evaluation_of,
  authorized_command,
}
use razor_flow.Decision.Outcome.{
  IsDecided, IsUndecided, HasValidColumns, build_snapshot_valid, score_candidates_total,
  insert_ranked_nonempty,
}

target_status-IsDecided : (r : PolicyEvaluationResult) → IsDecided (target_status r)
unfolding target_status
target_status-IsDecided r = ground arith

advance_undecided :
    (s : RecoveryCaseStatus)
    → IsUndecided s
    → advance_to_policy_check s ≡ ok RecoveryCaseStatus.policy_check_pending
unfolding advance_to_policy_check validate_transition
advance_undecided s h = ground arith

-- Neither ready for a decision nor escalated.
abbrev pub IsElsewhere : RecoveryCaseStatus → Type 0
IsElsewhere s = (¬ (IsUndecided s)) × (s ≢ RecoveryCaseStatus.escalated)

advance_elsewhere : (s : RecoveryCaseStatus) → ¬ (IsUndecided s) → advance_to_policy_check s ≡ ok s
unfolding advance_to_policy_check validate_transition
advance_elsewhere s h = ground arith

pending_validates :
    (t : RecoveryCaseStatus)
    → IsDecided t
    → validate_transition RecoveryCaseStatus.policy_check_pending t ≡ ok tt
unfolding validate_transition
pending_validates t h = ground arith

elsewhere_raises :
    (s t : RecoveryCaseStatus)
    → IsElsewhere s
    → IsDecided t
    → validate_transition s t ≡ raised invalid_state_transition
unfolding validate_transition
elsewhere_raises s t h d = ground arith

or_do_nothing_nonempty :
    (actions : List RecoveryActionType)
    → (a : RecoveryActionType) × (rest : List RecoveryActionType) × (or_do_nothing actions
        ≡ a ∷ rest)
or_do_nothing_nonempty [] = (RecoveryActionType.do_nothing, [], refl)
or_do_nothing_nonempty (a ∷ rest) = (a, rest, refl)

module _ (fl : Floats) (laws : FloatLaws fl) (model : Model fl) where
  open fl use {F}

  rank_nonempty :
      (ervs : List (ErvResult F)) {a : RecoveryActionType} {rest : List RecoveryActionType}
      → map (λ r. r.action) ervs ≡ a ∷ rest
      → (top : ErvResult F) × (others : List (ErvResult F)) × (rank_candidates fl ervs
          ≡ top ∷ others)
  unfolding rank_candidates
  rank_nonempty [] e = cc
  rank_nonempty (x ∷ xs) e = insert_ranked_nonempty fl x (rank_candidates fl xs)

  generate_nonempty :
      (case : RecoveryCaseSnapshot) (context : CaseEnrichmentContext)
      (policy : MerchantPolicySnapshot)
      → (a : RecoveryActionType) × (rest : List RecoveryActionType) × (generate_candidates case
            context policy
          ≡ a ∷ rest)
  unfolding generate_candidates
  generate_nonempty case context policy = or_do_nothing_nonempty _

  module _ (choose : List RecoveryActionType → RecoveryActionType → RecoveryActionType)
      (case : RecoveryCaseModel F) (context : CaseEnrichmentContext)
      (policy : MerchantPolicySnapshot) (now : ℕ) where
    -- Everything before the status changes succeeds.
    abbrev Prepared : Type 0
    Prepared =
        (snapshot : RecoveryCaseSnapshot) × (ervs : List (ErvResult F)) × (top : ErvResult F)
        × (others : List (ErvResult F)) × (build_snapshot fl case ≡ ok snapshot)
        × (score_candidates fl model snapshot context policy
              (generate_candidates snapshot context policy)
            ≡ ok ervs)
        × (rank_candidates fl ervs ≡ top ∷ others)

    prepared : HasValidColumns fl case → Prepared
    prepared valid =
        let (k, _, built) = build_snapshot_valid fl case valid in
        let (ervs, scored, names) = score_candidates_total fl laws model _ context policy _ in
        let (_, _, some_candidate) = generate_nonempty _ context policy in
        let (top, others, ranked) = rank_nonempty ervs (names ∙ some_candidate) in
        (_, ervs, top, others, built, scored, ranked)

    -- With valid columns, a case in DIAGNOSING, STRATEGY_GENERATED or POLICY_CHECK_PENDING gets a
    -- decision, which leaves it APPROVED, REJECTED or ESCALATED.
    pub decide_total :
        HasValidColumns fl case
        → IsUndecided case.status
        → (d : Decision fl model) × (decide fl model choose case context policy now ≡ ok d)
          × IsDecided d.case_after.status
    unfolding decide
    decide_total valid ready =
        let (snapshot, ervs, top, others, built, scored, ranked) = prepared valid in
        let proposed = choose (generate_candidates snapshot context policy) top.action in
        let verdict = evaluation_of fl model snapshot context policy now (top ∷ others) proposed in
        let decided = target_status-IsDecided verdict in
        (
          record {
            candidates = generate_candidates snapshot context policy;
            rankings = top ∷ others;
            top = top;
            proposed_action = proposed;
            policy_evaluation = verdict;
            command = authorized_command fl model case verdict;
            case_after = record case {
              status = target_status verdict;
              recovery_probability = some top.recovery_probability;
              expected_recovery_value_cents = some top.expected_net_recovery_value_cents;
            };
          },
          rw (
            built,
            scored,
            ranked,
            advance_undecided case.status ready,
            pending_validates (target_status verdict) decided,
          ),
          decided,
        )

    -- With valid columns, a case in any other status but ESCALATED raises an invalid transition:
    -- a decision is never repeated on a case that is approved, in execution or finished, nor made
    -- on one that is only DETECTED.
    pub decide_elsewhere :
        HasValidColumns fl case
        → IsElsewhere case.status
        → decide fl model choose case context policy now ≡ raised invalid_state_transition
    unfolding decide
    decide_elsewhere valid elsewhere =
        let (snapshot, ervs, top, others, built, scored, ranked) = prepared valid in
        let proposed = choose (generate_candidates snapshot context policy) top.action in
        let verdict = evaluation_of fl model snapshot context policy now (top ∷ others) proposed in
        rw (
          built,
          scored,
          ranked,
          advance_elsewhere case.status elsewhere.0,
          elsewhere_raises case.status (target_status verdict) elsewhere
              (target_status-IsDecided verdict),
        )
