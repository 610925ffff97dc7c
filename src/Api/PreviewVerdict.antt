-- ===== src/Api/PreviewVerdict.antt =====
-- What a preview says of the cases that it stands for.
use razor_flow.Prelude.{
  ℕ, ◌+◌, ◌≡◌, refl, sym, ◌∙◌, ap, subst, ◌⊎◌, some, List, [], Text, ok, bind-ok, ok_injective,
  arith, raise_unless, unprocessable_request, risk_score_out_of_range,
}
use razor_flow.Prelude.Int.{ℤ, pos, negsuc}
use razor_flow.Domain.Enums.{RecoveryActionType}
use razor_flow.Domain.Money.{MonetaryAmount, from_paise}
use razor_flow.Domain.Entities.{
  MerchantPolicySnapshot, RecoveryCaseSnapshot, CaseEnrichmentContext, RuleCode, post_init,
}
use razor_flow.Domain.Floats.{Floats}
use razor_flow.Domain.Policy.{evaluate}
use razor_flow.Domain.Policy.Fresh.{IsFresh, fresh-Agrees}
use razor_flow.Domain.MerchantPolicy.{ArchivedPolicy, snapshot_of}
use razor_flow.Persistence.{Db, MerchantModel}
use razor_flow.Api.Cases.{resolve_merchant_by_slug}
use razor_flow.Api.Policies.{Settings, get_or_create_policy_config, get_policy_config}
use razor_flow.Api.Preview.{
  PreviewResult, PolicyPreviewRequest, is_risk_score, is_valid_override, previewed_policy,
  previewed_case, previewed_context, previewed, preview_under, preview_policy_impact,
}

-- An amount that exists has the cents that it was made of.
from_paise-cents :
    (paise : ℤ) (currency : Text) {amount : MonetaryAmount}
    → from_paise paise currency ≡ ok amount
    → paise ≡ pos amount.cents
unfolding from_paise
from_paise-cents (negsuc n) currency e = cc
from_paise-cents (pos n) currency e = ground arith

module _ (fl : Floats) where
  open fl use {F}

  module _ (now : ℕ) (request : PolicyPreviewRequest fl) where
    -- An answer that passed the checks is about the amount of the request.
    under_about :
        (id : ℕ) (merchant : MerchantModel) (policy : MerchantPolicySnapshot) {r : PreviewResult}
        → preview_under fl now request id merchant policy ≡ ok r
        → (amount : MonetaryAmount) × (request.amount_at_risk_cents ≡ pos amount.cents)
          × (previewed fl now request id merchant.id amount policy ≡ r)
    unfolding preview_under
    under_about id merchant policy h =
        let (amount, e, h₁) =
          bind-ok (from_paise request.amount_at_risk_cents merchant.currency) _ h in
        let (_, _, h₂) = bind-ok (from_paise (pos 0) merchant.currency) _ h₁ in
        let (_, _, h₃) =
          bind-ok
            (raise_unless (is_risk_score fl request.customer_risk_score) risk_score_out_of_range) _
            h₂ in
        (amount, from_paise-cents request.amount_at_risk_cents merchant.currency e, ok_injective h₃)

    previewed-IsFresh :
        (id merchant_id : ℕ) (amount : MonetaryAmount) (policy : MerchantPolicySnapshot)
        → IsFresh
            (previewed_case fl now request id merchant_id amount policy)
            (previewed_context fl now request id)
            now
    unfolding post_init
    previewed-IsFresh id merchant_id amount policy = (λ e. ground arith, omega arith, refl, refl)

    -- A preview that is answered is about the policy that is active.
    preview_about :
        (settings : Settings) (slug : Text) (db : Db F) {active : MerchantPolicySnapshot}
        {history : List ArchivedPolicy} {r : PreviewResult}
        → get_policy_config settings slug db ≡ ok (active, history)
        → preview_policy_impact fl now request settings slug db ≡ ok r
        → (id : ℕ) × (merchant : MerchantModel) × (preview_under fl now request id merchant
              (previewed_policy request.policy_override active)
            ≡ ok r)
    unfolding get_policy_config preview_policy_impact
    preview_about settings slug db {active} {history} {r} saved h =
        let (merchant, e, s₁) = bind-ok (resolve_merchant_by_slug db.merchants slug) _ saved in
        let (found, e₁, s₂) =
          bind-ok (get_or_create_policy_config settings db.next_id merchant) _ s₁ in
        let (_, _, h₀) =
          bind-ok (raise_unless (is_valid_override request.policy_override) unprocessable_request) _
            h in
        let (merchant', e', h₁) = bind-ok (resolve_merchant_by_slug db.merchants slug) _ h₀ in
        let (found', e₁', h₂) =
          bind-ok (get_or_create_policy_config settings db.next_id merchant') _ h₁ in
        let same = ok_injective (sym e ∙ e') in
        let same' =
          ok_injective (sym e₁ ∙ ap (get_or_create_policy_config settings db.next_id) same ∙ e₁') in
        let current : active ≡ snapshot_of found'.0.config_json =
          sym (ap (λ p. p.0) (ok_injective s₂)) ∙ ap (λ f. snapshot_of f.0.config_json) same' in
        (
          db.next_id + 1,
          merchant',
          subst
              (λ snapshot.
                preview_under fl now request (db.next_id + 1) merchant'
                  (previewed_policy request.policy_override snapshot)
                ≡ ok r)
              (sym current) h₂,
        )

    module _ (case : RecoveryCaseSnapshot) (context : CaseEnrichmentContext)
        (rankings : List RecoveryActionType) (later : ℕ) where
      -- A preview that is answered stands for every open case with the amount, the failure category
      -- and the count of attempts of the request that has no attempt time and no link and is before
      -- its deadline: at any time and with any rankings, the engine gives that case the verdict and
      -- the rule of the preview under the same policy, which is the one of the request or else the
      -- active one, and the authorized action as well unless the merchant disallows the candidate.
      pub preview_stands :
          (settings : Settings) (slug : Text) (db : Db F) {active : MerchantPolicySnapshot}
          {history : List ArchivedPolicy} {r : PreviewResult}
          → get_policy_config settings slug db ≡ ok (active, history)
          → preview_policy_impact fl now request settings slug db ≡ ok r
          → IsFresh case context later
          → case.failure_category ≡ some request.failure_category
          → case.current_attempt_count ≡ request.current_attempt_count
          → pos case.amount_at_risk.cents ≡ request.amount_at_risk_cents
          → let s =
              evaluate request.candidate_action case context
                (previewed_policy request.policy_override active)
                rankings
                later in
            (r.policy_verdict ≡ s.verdict)
            × (r.policy_rule_triggered ≡ s.rule_code)
            × ((r.authorized_action ≡ s.authorized_action)
                ⊎ (r.policy_rule_triggered ≡ RuleCode.action_disallowed_by_merchant))
      preview_stands settings slug db {active} saved h fresh category count paise =
          let policy = previewed_policy request.policy_override active in
          let (id, merchant, h₁) = preview_about settings slug db saved h in
          let (amount, e, told) = under_about id merchant policy h₁ in
          subst
            (λ r.
              let s = evaluate request.candidate_action case context policy rankings later in
              (r.policy_verdict ≡ s.verdict)
              × (r.policy_rule_triggered ≡ s.rule_code)
              × ((r.authorized_action ≡ s.authorized_action)
                  ⊎ (r.policy_rule_triggered ≡ RuleCode.action_disallowed_by_merchant)))
            told
            (fresh-Agrees request.candidate_action policy
              (previewed_case fl now request id merchant.id amount policy) case
              (previewed_context fl now request id) context [] rankings now later
              (previewed-IsFresh id merchant.id amount policy) fresh
              (sym category, sym count, ground arith))
