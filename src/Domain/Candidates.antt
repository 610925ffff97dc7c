-- ===== src/Domain/Candidates.antt =====
-- `CandidateGenerator.generate_candidates` of backend/packages/domain/candidate_generator.py. The
-- strategies never raise, so its `except` branch is not reached.
pub mod Eligible
use razor_flow.Prelude.{
  Bool, true, false, not, ◌&&◌, List, [], ◌∷◌, if◌then◌else◌, ◌==◌, contains, select,
}
use razor_flow.Domain.Enums.{RecoveryActionType, action_eq}
use razor_flow.Domain.Entities.{RecoveryCaseSnapshot, CaseEnrichmentContext, MerchantPolicySnapshot}
use razor_flow.Domain.Strategies.{strategy_evaluate, all_strategies}

-- The two tests of the loop body: not on the merchant's list, and eligible.
abbrev pub is_candidate :
    RecoveryCaseSnapshot
    → CaseEnrichmentContext
    → MerchantPolicySnapshot
    → RecoveryActionType
    → Bool
is_candidate case context policy action =
    not (contains action policy.disallowed_actions)
    && (strategy_evaluate action case context policy).is_eligible

-- `[DO_NOTHING]` stands for the empty list, and for itself.
abbrev pub or_do_nothing : List RecoveryActionType → List RecoveryActionType
or_do_nothing [] = RecoveryActionType.do_nothing ∷ []
or_do_nothing (a ∷ actions) = a ∷ actions

unfoldable pub generate_candidates :
    RecoveryCaseSnapshot → CaseEnrichmentContext → MerchantPolicySnapshot → List RecoveryActionType
generate_candidates case context policy =
    or_do_nothing (select (is_candidate case context policy) all_strategies)
