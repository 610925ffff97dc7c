-- ===== src/Domain/Scoring/Ranker.antt =====
-- erv_ranker.py: candidates sorted by net value, probability, cost and a fixed action order.
use razor_flow.Prelude.{ℕ, Bool, List, [], ◌∷◌, ltb, nat_beq, if◌then◌else◌}
use razor_flow.Prelude.Int.{ltb_ℤ, beq_ℤ}
use razor_flow.Domain.Enums.{RecoveryActionType}
use razor_flow.Domain.Floats.{Floats}
use razor_flow.Domain.Scoring.Erv.{ErvResult}

-- `_ACTION_TIE_BREAKER_ORDER`
abbrev pub tie_breaker_order : RecoveryActionType → ℕ
tie_breaker_order RecoveryActionType.payment_link = 1
tie_breaker_order RecoveryActionType.customer_reminder = 2
tie_breaker_order RecoveryActionType.wait_and_reassess = 3
tie_breaker_order RecoveryActionType.human_escalation = 4
tie_breaker_order RecoveryActionType.do_nothing = 5

module _ (fl : Floats) where
  open fl use {F, lt, eq}

  -- `sort_key(a) < sort_key(b)`: Python compares tuples at the first place where they differ.
  unfoldable pub key_lt : ErvResult F → ErvResult F → Bool
  key_lt a b =
      if beq_ℤ a.expected_net_recovery_value_cents b.expected_net_recovery_value_cents
      then (if eq a.recovery_probability b.recovery_probability
          then (if nat_beq a.intervention_cost_cents b.intervention_cost_cents
              then ltb (tie_breaker_order a.action) (tie_breaker_order b.action)
              else ltb a.intervention_cost_cents b.intervention_cost_cents)
          else lt b.recovery_probability a.recovery_probability)
      else ltb_ℤ b.expected_net_recovery_value_cents a.expected_net_recovery_value_cents

  -- Before the first element whose key is not smaller: equal keys keep their order.
  unfoldable pub insert_ranked : ErvResult F → List (ErvResult F) → List (ErvResult F)
  insert_ranked x [] = x ∷ []
  insert_ranked x (y ∷ ys) = if key_lt y x then y ∷ insert_ranked x ys else x ∷ y ∷ ys

  -- `ERVRanker.rank_candidates`; `sorted` is stable.
  unfoldable pub rank_candidates : List (ErvResult F) → List (ErvResult F)
  rank_candidates [] = []
  rank_candidates (x ∷ xs) = insert_ranked x (rank_candidates xs)
