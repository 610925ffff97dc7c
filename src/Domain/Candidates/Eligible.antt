-- ===== src/Domain/Candidates/Eligible.antt =====
-- What every candidate satisfies.
use razor_flow.Prelude.{
  ◌↔◌, sym, subst, codes, text_beq_iff, text_eq, ◌<◌, ◌≤◌, ◌≡◌, ◌≢◌, refl, ap, ◌⊎◌, inl, inr, true,
  false, some, List, [], ◌∷◌, arith, Member, contains, select, mem-select,
}
use razor_flow.Domain.Enums.{RecoveryActionType, FailureCategory, action_eq, category_eq}
use razor_flow.Domain.Entities.{RecoveryCaseSnapshot, CaseEnrichmentContext, MerchantPolicySnapshot}
use razor_flow.Domain.Policy.{has_active_link}
use razor_flow.Domain.Strategies.{
  strategy_evaluate, all_strategies, payment_link_evaluate, customer_reminder_evaluate,
  wait_and_reassess_evaluate, human_escalation_evaluate,
}
use razor_flow.Domain.Candidates.{is_candidate, or_do_nothing, generate_candidates}

module _ (case : RecoveryCaseSnapshot) (context : CaseEnrichmentContext)
    (policy : MerchantPolicySnapshot) where
  -- When an action is eligible, by the strategy that governs it.
  abbrev pub Justified : RecoveryActionType → Type 0
  Justified RecoveryActionType.payment_link =
      (case.current_attempt_count < case.max_allowed_attempts)
      × (case.failure_category ≢ some FailureCategory.fraud_risk_block)
      × (0 < case.amount_at_risk.cents)
  Justified RecoveryActionType.customer_reminder =
      (has_active_link case context ≡ true)
      × (case.current_attempt_count < case.max_allowed_attempts)
  Justified RecoveryActionType.wait_and_reassess =
      (case.failure_category ≢ some FailureCategory.fraud_risk_block)
      × (case.failure_category ≢ some FailureCategory.permanent_instrument_decline)
      × ((case.is_transient ≡ true)
          ⊎ (case.failure_category ≡ some FailureCategory.bank_system_outage)
          ⊎ (case.failure_category ≡ some FailureCategory.technical_gateway_timeout)
          ⊎ (case.current_attempt_count < case.max_allowed_attempts))
  Justified RecoveryActionType.human_escalation =
      (policy.high_value_escalation_threshold_cents ≤ case.amount_at_risk.cents)
      ⊎ ((1 ≤ case.current_attempt_count) × (3 ≤ context.historical_failure_count))
      ⊎ ((context.customer_risk_tier ≡ codes "LOW_RISK_VIP")
          × (1000000 ≤ case.amount_at_risk.cents))
      ⊎ (2000000 ≤ case.amount_at_risk.cents)
  Justified RecoveryActionType.do_nothing = Unit

  eligible_justified :
      (a : RecoveryActionType)
      → (strategy_evaluate a case context policy).is_eligible ≡ true
      → Justified a
  unfolding strategy_evaluate payment_link_evaluate customer_reminder_evaluate
      wait_and_reassess_evaluate human_escalation_evaluate
  eligible_justified RecoveryActionType.payment_link h = ground arith
  eligible_justified RecoveryActionType.customer_reminder h = ground arith
  eligible_justified RecoveryActionType.wait_and_reassess h = ground arith
  eligible_justified RecoveryActionType.human_escalation h =
      ground (arith, (text_beq_iff context.customer_risk_tier (codes "LOW_RISK_VIP")).0)
  eligible_justified RecoveryActionType.do_nothing h = tt

  candidate_parts :
      (a : RecoveryActionType)
      → is_candidate case context policy a ≡ true
      → (contains a policy.disallowed_actions ≡ false)
        × ((strategy_evaluate a case context policy).is_eligible ≡ true)
  candidate_parts a h = ground arith

  or_do_nothing_mem :
      (a : RecoveryActionType) (actions : List RecoveryActionType)
      → Member a (or_do_nothing actions)
      → Member a actions ⊎ ((actions ≡ []) × (a ≡ RecoveryActionType.do_nothing))
  or_do_nothing_mem a [] (inl e) = inr (refl, e)
  or_do_nothing_mem a [] (inr h) = absurd h
  or_do_nothing_mem a (x ∷ actions) h = inl h

  -- A candidate is allowed and eligible, or it stands for an empty list.
  pub candidates_split :
      (a : RecoveryActionType)
      → Member a (generate_candidates case context policy)
      → ((contains a policy.disallowed_actions ≡ false) × Justified a)
        ⊎ ((a ≡ RecoveryActionType.do_nothing)
            × (generate_candidates case context policy ≡ RecoveryActionType.do_nothing ∷ []))
  unfolding generate_candidates
  candidates_split a m =
      elim (or_do_nothing_mem a (select (is_candidate case context policy) all_strategies) m) [
        | inl kept ↦
            let (_, test) =
              (mem-select (is_candidate case context policy) a all_strategies).0 kept in
            let (allowed, eligible) = candidate_parts a test in
            inl (allowed, eligible_justified a eligible)
        | inr fallback ↦ inr (fallback.1, ap or_do_nothing fallback.0)
      ]

  mem-all_strategies : (a : RecoveryActionType) → Member a all_strategies
  mem-all_strategies RecoveryActionType.payment_link = inl refl
  mem-all_strategies RecoveryActionType.customer_reminder = inr (inl refl)
  mem-all_strategies RecoveryActionType.wait_and_reassess = inr (inr (inl refl))
  mem-all_strategies RecoveryActionType.human_escalation = inr (inr (inr (inl refl)))
  mem-all_strategies RecoveryActionType.do_nothing = inr (inr (inr (inr (inl refl))))

  or_do_nothing_keeps :
      (a : RecoveryActionType) (actions : List RecoveryActionType)
      → Member a actions
      → Member a (or_do_nothing actions)
  or_do_nothing_keeps a [] h = absurd h
  or_do_nothing_keeps a (x ∷ actions) h = h

  -- No eligible action that the merchant allows is lost.
  pub candidates_complete :
      (a : RecoveryActionType)
      → contains a policy.disallowed_actions ≡ false
      → (strategy_evaluate a case context policy).is_eligible ≡ true
      → Member a (generate_candidates case context policy)
  unfolding generate_candidates
  candidates_complete a allowed eligible = or_do_nothing_keeps a _ (
      (mem-select (is_candidate case context policy) a all_strategies).1
        (mem-all_strategies a, rw (allowed, eligible)))

  pub justified_eligible :
      (a : RecoveryActionType)
      → Justified a
      → (strategy_evaluate a case context policy).is_eligible ≡ true
  unfolding strategy_evaluate payment_link_evaluate customer_reminder_evaluate
      wait_and_reassess_evaluate human_escalation_evaluate
  justified_eligible RecoveryActionType.payment_link h = ground arith
  justified_eligible RecoveryActionType.customer_reminder h = ground arith
  justified_eligible RecoveryActionType.wait_and_reassess h = ground arith
  justified_eligible RecoveryActionType.human_escalation h =
      ground (arith, (text_beq_iff context.customer_risk_tier (codes "LOW_RISK_VIP")).1)
  justified_eligible RecoveryActionType.do_nothing h = refl

  -- An action that the merchant allows and whose strategy is eligible.
  abbrev pub IsCleared : RecoveryActionType → Type 0
  IsCleared a = (contains a policy.disallowed_actions ≡ false) × Justified a

  cleared_kept :
      (a : RecoveryActionType)
      → IsCleared a
      → Member a (select (is_candidate case context policy) all_strategies)
  cleared_kept a (allowed, just) =
      (mem-select (is_candidate case context policy) a all_strategies).1
        (mem-all_strategies a, rw (allowed, justified_eligible a just))

  kept_cleared :
      (a : RecoveryActionType)
      → Member a (select (is_candidate case context policy) all_strategies)
      → IsCleared a
  kept_cleared a kept =
      let (_, test) = (mem-select (is_candidate case context policy) a all_strategies).0 kept in
      let (allowed, eligible) = candidate_parts a test in (allowed, eligible_justified a eligible)

  nothing_instead :
      (actions : List RecoveryActionType)
      → ((b : RecoveryActionType) → ¬ (Member b actions))
      → Member RecoveryActionType.do_nothing (or_do_nothing actions)
  nothing_instead [] none_kept = inl refl
  nothing_instead (x ∷ actions) none_kept = absurd (none_kept x (inl refl))

  -- The candidates are exactly the actions that the merchant allows and that their strategies find
  -- eligible. A payment link: attempts left, no fraud, an amount. A reminder: an active link and
  -- attempts left. Waiting: neither fraud nor a permanent decline, and a transient failure, an
  -- outage, a gateway timeout or attempts left. An escalation: an amount from the merchant's
  -- threshold, a repeated failure of a customer with three, a VIP's from 10,000 rupees, or any from
  -- 20,000. DO_NOTHING: always. Where no action is both allowed and eligible, DO_NOTHING stands alone.
  pub candidates_justified :
      (a : RecoveryActionType)
      → Member a (generate_candidates case context policy) ↔ (
          IsCleared a
          ⊎ ((a ≡ RecoveryActionType.do_nothing) × ((b : RecoveryActionType) → ¬ (IsCleared b))))
  unfolding generate_candidates
  candidates_justified a =
      let kept = select (is_candidate case context policy) all_strategies in
      (
        λ m. elim (or_do_nothing_mem a kept m) [
          | inl inside ↦ inl (kept_cleared a inside)
          | inr (empty, nothing) ↦
              inr (nothing, λ b cleared. subst (λ xs. Member b xs) empty (cleared_kept b cleared))
        ],
        λ h. elim h [
          | inl cleared ↦ or_do_nothing_keeps a kept (cleared_kept a cleared)
          | inr (nothing, blocked) ↦
              subst (λ x. Member x (or_do_nothing kept)) (sym nothing)
                (nothing_instead kept (λ b inside. blocked b (kept_cleared b inside)))
        ],
      )
