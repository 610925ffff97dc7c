-- ===== src/Decision/Outcome.antt =====
-- When a decision succeeds, and what it does to the case's status.
use razor_flow.Prelude.{
  ℕ, ◌≡◌, refl, ◌⊎◌, Bool, true, false, Option, none, some, List, [], ◌∷◌, map, arith, Text, length,
  ok, raised, negative_amount, if◌then◌else◌,
}
use razor_flow.Prelude.Int.{ℤ, pos, negsuc}
use razor_flow.Domain.Enums.{RecoveryCaseStatus, RecoveryActionType}
use razor_flow.Domain.Money.{MonetaryAmount, from_paise}
use razor_flow.Domain.Entities.{RecoveryCaseSnapshot, CaseEnrichmentContext, MerchantPolicySnapshot}
use razor_flow.Domain.Floats.{Floats, FloatLaws, IsUnit}
use razor_flow.Domain.Scoring.{Model, ErvResult, calculate_erv, from_float}
use razor_flow.Domain.Scoring.Bounds.{score-IsScore}
use razor_flow.Domain.Scoring.Ranker.{insert_ranked, key_lt}
use razor_flow.Persistence.{RecoveryCaseModel}
use razor_flow.Decision.Snapshot.{
  build_snapshot, snapshot_with, optional_amount, optional_probability,
}
use razor_flow.Decision.Pipeline.{decide, score_candidates}

-- The three statuses that a policy verdict leads to.
abbrev pub IsDecided : RecoveryCaseStatus → Type 0
IsDecided s =
    (s ≡ RecoveryCaseStatus.approved)
    ⊎ (s ≡ RecoveryCaseStatus.rejected)
    ⊎ (s ≡ RecoveryCaseStatus.escalated)

-- The statuses in which a case is ready for a decision.
abbrev pub IsUndecided : RecoveryCaseStatus → Type 0
IsUndecided s =
    (s ≡ RecoveryCaseStatus.diagnosing)
    ⊎ (s ≡ RecoveryCaseStatus.strategy_generated)
    ⊎ (s ≡ RecoveryCaseStatus.policy_check_pending)

abbrev pub IsOptionalAmount : Option ℤ → Type 0
IsOptionalAmount none = Unit
IsOptionalAmount (some n) = (k : ℕ) × (n ≡ pos k)

module _ (fl : Floats) where
  open fl use {F}

  abbrev pub IsOptionalUnit : Option F → Type 0
  IsOptionalUnit none = Unit
  IsOptionalUnit (some p) = IsUnit fl p

  -- The money columns are not negative, the currency has three letters and the stored
  -- probability lies in [0, 1].
  abbrev pub HasValidColumns : RecoveryCaseModel F → Type 0
  HasValidColumns case =
      (length case.currency ≡ 3)
      × ((k : ℕ) × (case.amount_at_risk_cents ≡ pos k))
      × ((k : ℕ) × (case.amount_recovered_cents ≡ pos k))
      × IsOptionalAmount case.expected_recovery_value_cents
      × IsOptionalUnit case.recovery_probability

  from_paise_valid :
      (n : ℤ) (k : ℕ) (currency : Text)
      → n ≡ pos k
      → length currency ≡ 3
      → from_paise n currency ≡ ok (record { cents = k; currency = currency })
  unfolding from_paise
  from_paise_valid n k currency e h = rw e (ground arith)

  optional_amount_valid :
      (n : Option ℤ) (currency : Text)
      → IsOptionalAmount n
      → length currency ≡ 3
      → (m : Option MonetaryAmount) × (optional_amount n currency ≡ ok m)
  optional_amount_valid none currency h len = (none, refl)
  optional_amount_valid (some n) currency (k, e) len =
      (some (record { cents = k; currency = currency }), rw (from_paise_valid n k currency e len))

  optional_probability_valid :
      (p : Option F) → IsOptionalUnit p → (q : Option F) × (optional_probability fl p ≡ ok q)
  unfolding from_float
  optional_probability_valid none h = (none, refl)
  optional_probability_valid (some p) (low, high) = (some p, rw (low, high))

  pub build_snapshot_valid :
      (case : RecoveryCaseModel F)
      → HasValidColumns case
      → (k : ℕ) × (case.amount_at_risk_cents ≡ pos k)
        × (build_snapshot fl case
            ≡ ok (snapshot_with fl case (record { cents = k; currency = case.currency })))
  unfolding build_snapshot
  build_snapshot_valid case (len, (k, risk), (j, recovered), erv, prob) =
      let (_, first) = optional_probability_valid case.recovery_probability prob in
      let (_, second) =
        optional_amount_valid case.expected_recovery_value_cents case.currency erv len in
      (
        k,
        risk,
        rw (
          first,
          second,
          from_paise_valid _ k case.currency risk len,
          from_paise_valid _ j case.currency recovered len,
        ),
      )

  -- A stored negative expected value makes a decision on the case raise, where the stored
  -- probability is valid.
  pub negative_erv_raises :
      (model : Model fl)
      (choose : List RecoveryActionType → RecoveryActionType → RecoveryActionType)
      (case : RecoveryCaseModel F) (context : CaseEnrichmentContext)
      (policy : MerchantPolicySnapshot) (now n : ℕ)
      → case.expected_recovery_value_cents ≡ some (negsuc n)
      → IsOptionalUnit case.recovery_probability
      → decide fl model choose case context policy now ≡ raised negative_amount
  unfolding decide build_snapshot from_paise
  negative_erv_raises model choose case context policy now n negative unit =
      let (_, first) = optional_probability_valid case.recovery_probability unit in
      rw (first, negative)

  module _ (laws : FloatLaws fl) (model : Model fl) where
    -- Every candidate is scored, and the ranking has an entry.
    pub score_candidates_total :
        (case : RecoveryCaseSnapshot) (context : CaseEnrichmentContext)
        (policy : MerchantPolicySnapshot) (candidates : List RecoveryActionType)
        → (ervs : List (ErvResult F)) × (score_candidates fl model case context policy candidates
            ≡ ok ervs)
          × (map (λ r. r.action) ervs ≡ candidates)
    unfolding score_candidates calculate_erv
    score_candidates_total case context policy [] = ([], refl, refl)
    score_candidates_total case context policy (cand ∷ candidates) =
        let (p, scored, _) = score-IsScore fl laws model case context cand in
        let (ervs, rest, names) = score_candidates_total case context policy candidates in
        (calculate_erv fl cand case context p policy ∷ ervs, rw (scored, rest), rw names)

  pub insert_ranked_nonempty :
      (x : ErvResult F) (xs : List (ErvResult F))
      → (top : ErvResult F) × (rest : List (ErvResult F)) × (insert_ranked fl x xs ≡ top ∷ rest)
  unfolding insert_ranked
  insert_ranked_nonempty x [] = (x, [], refl)
  insert_ranked_nonempty x (y ∷ ys) = split (key_lt fl y x)
    where
      split :
          (b : Bool)
          → (top : ErvResult F) × (rest : List (ErvResult F)) × ((if b
                then y ∷ insert_ranked fl x ys
                else x ∷ y ∷ ys)
              ≡ top ∷ rest)
      split true = (y, insert_ranked fl x ys, refl)
      split false = (x, y ∷ ys, refl)
