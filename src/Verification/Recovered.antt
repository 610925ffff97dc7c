-- ===== src/Verification/Recovered.antt =====
-- When a case is declared RECOVERED.
use razor_flow.Prelude.{
  ℕ, ◌≡◌, ◌≢◌, ◌↔◌, refl, ◌⊎◌, inl, inr, true, false, Option, none, some, List, [], ◌∷◌, arith,
  Text, Bool-cases, ◌==◌, text_eq, text_beq_iff, text_beq_sound, subst, sym, ap, ◌∙◌,
}
use razor_flow.Domain.Enums.{PaymentStatus, RecoveryCaseStatus, case_status_eq, payment_status_eq}
use razor_flow.Domain.StateMachine.{can_transition}
use razor_flow.Domain.StateMachine.Reach.{Run, here, step}
use razor_flow.Prelude.Int.{ℤ}
use razor_flow.Audit.{Crypto}
use razor_flow.Persistence.{
  Db, RecoveryCaseModel, PaymentModel, RecoveryOutcomeModel, save_case, update_row,
}
use razor_flow.Verification.Recover.{
  VerificationResult, store_outcome, recovered_status, recover, verify_and_recover_case,
}

-- The statuses from which RECOVERED can be reached in a verification.
abbrev pub IsInFlight : RecoveryCaseStatus → Type 0
IsInFlight s =
    (s ≡ RecoveryCaseStatus.executing)
    ⊎ (s ≡ RecoveryCaseStatus.waiting_external)
    ⊎ (s ≡ RecoveryCaseStatus.verifying)

pub recovers :
    (s : RecoveryCaseStatus)
    → s ≢ RecoveryCaseStatus.recovered
    → (recovered_status s ≡ RecoveryCaseStatus.recovered) ↔ IsInFlight s
unfolding recovered_status can_transition
recovers s h = (λ e. ground arith, λ e. ground arith)

stays : (s : RecoveryCaseStatus) → ¬ (IsInFlight s) → recovered_status s ≡ s
unfolding recovered_status can_transition
stays s h = ground arith

abbrev verified_path : List RecoveryCaseStatus
verified_path = RecoveryCaseStatus.verifying ∷ RecoveryCaseStatus.recovered ∷ []

-- Step 4 follows allowed transitions.
pub recovered_status-Run :
    (s : RecoveryCaseStatus) → (via : List RecoveryCaseStatus) × Run s via (recovered_status s)
unfolding recovered_status can_transition
recovered_status-Run RecoveryCaseStatus.executing = (verified_path, step refl (step refl here))
recovered_status-Run RecoveryCaseStatus.waiting_external =
    (verified_path, step refl (step refl here))
recovered_status-Run RecoveryCaseStatus.verifying =
    (RecoveryCaseStatus.recovered ∷ [], step refl here)
recovered_status-Run RecoveryCaseStatus.detected = ([], here)
recovered_status-Run RecoveryCaseStatus.enriching = ([], here)
recovered_status-Run RecoveryCaseStatus.diagnosing = ([], here)
recovered_status-Run RecoveryCaseStatus.strategy_generated = ([], here)
recovered_status-Run RecoveryCaseStatus.policy_check_pending = ([], here)
recovered_status-Run RecoveryCaseStatus.approved = ([], here)
recovered_status-Run RecoveryCaseStatus.rejected = ([], here)
recovered_status-Run RecoveryCaseStatus.escalated = ([], here)
recovered_status-Run RecoveryCaseStatus.recovered = ([], here)
recovered_status-Run RecoveryCaseStatus.unrecoverable = ([], here)
recovered_status-Run RecoveryCaseStatus.expired = ([], here)
recovered_status-Run RecoveryCaseStatus.stopped = ([], here)

written :
    {F : Type 0} (case : RecoveryCaseModel F) (amount : ℤ) (cases : List (RecoveryCaseModel F))
    → recovered_status case.status ≡ case.status
    → update_row
        (λ row. row.id)
        case.id
        (record case { status = recovered_status case.status; amount_recovered_cents = amount })
        cases
      ≡ update_row (λ row. row.id) case.id (record case { amount_recovered_cents = amount }) cases
written case amount cases kept = rw kept refl

module _ {F : Type 0} (crypto : Crypto) (now : ℕ) (source : Text) (reference : Option Text)
    (case : RecoveryCaseModel F) (payment : PaymentModel) (db : Db F) where
  -- A captured payment in the case's currency.
  abbrev pub IsProof : Type 0
  IsProof = (payment.status ≡ PaymentStatus.captured) × (payment.currency ≡ case.currency)

  recover-status :
      (recover crypto now source reference case payment db).0.case_status
      ≡ recovered_status case.status
  unfolding recover
  recover-status = refl

  stored_cases :
      (row : RecoveryOutcomeModel) (outcome : Option RecoveryOutcomeModel) (stored : Db F)
      → (store_outcome crypto now source reference row outcome stored).cases ≡ stored.cases
  stored_cases row none stored = refl
  stored_cases row (some outcome) stored = refl

  -- The branches of a verification.
  abbrev Branches : VerificationResult × Db F → Type 0
  Branches after =
      ((case.status ≡ RecoveryCaseStatus.recovered)
        × (after.0.is_verified ≡ true)
        × (after.0.case_status ≡ case.status)
        × (after.1 ≡ db))
      ⊎ ((case.status ≢ RecoveryCaseStatus.recovered)
          × (¬ IsProof)
          × (after.0.is_verified ≡ false)
          × (after.0.case_status ≡ case.status)
          × (after.1 ≡ db))
      ⊎ ((case.status ≢ RecoveryCaseStatus.recovered)
          × IsProof
          × (after ≡ recover crypto now source reference case payment db))

  pub branches : Branches (verify_and_recover_case crypto now source reference case payment db)
  unfolding verify_and_recover_case
  branches = elim (Bool-cases (case.status == RecoveryCaseStatus.recovered)) [
    | inl done ↦ rw done (inl (ground arith, refl, refl, refl))
    | inr still ↦ elim (Bool-cases (payment.status == PaymentStatus.captured)) [
      | inl captured ↦ elim (Bool-cases (payment.currency == case.currency)) [
        | inl same ↦
            rw (still, captured, same)
              (inr (inr (ground arith, (ground arith, text_beq_sound _ _ same), refl)))
        | inr apart ↦
            rw (still, captured, apart)
              (inr (
                inl (
                  ground arith,
                  λ h. cc ((text_beq_iff payment.currency case.currency).1 h.1, apart),
                  refl,
                  refl,
                  refl,
                )))
      ]
      | inr pending ↦
          rw (still, pending) (inr (inl (ground arith, λ h. ground arith, refl, refl, refl)))
    ]
  ]

  status-Run :
      {after : VerificationResult × Db F}
      → Branches after
      → (via : List RecoveryCaseStatus) × Run case.status via after.0.case_status
  status-Run (inl (_, _, same, _)) = ([], subst (λ t. Run case.status [] t) (sym same) here)
  status-Run (inr (inl (_, _, _, same, _))) =
      ([], subst (λ t. Run case.status [] t) (sym same) here)
  status-Run (inr (inr (_, _, ran))) =
      subst (λ x. (via : List RecoveryCaseStatus) × Run case.status via x.0.case_status) (sym ran)
        (rw recover-status (recovered_status-Run case.status))

  -- A verification moves the case along allowed transitions only.
  pub verify_follows :
      (via : List RecoveryCaseStatus) × Run case.status via
        (verify_and_recover_case crypto now source reference case payment db).0.case_status
  verify_follows = status-Run branches

  declared :
      {after : VerificationResult × Db F}
      → Branches after
      → (after.0.case_status ≡ RecoveryCaseStatus.recovered)
        ↔ ((case.status ≡ RecoveryCaseStatus.recovered) ⊎ IsProof × IsInFlight case.status)
  declared (inl (done, _, same, _)) = (λ e. inl done, λ e. rw (same, done) refl)
  declared (inr (inl (still, unproved, _, same, _))) = (
    λ e. absurd (still (sym same ∙ e)),
    λ e. elim e [ inl done ↦ absurd (still done) | inr h ↦ absurd (unproved h.0) ],
  )
  declared (inr (inr (still, proof, ran))) = (
    λ e. inr (
      proof,
      (recovers case.status still).0
          (sym recover-status ∙ (ap (λ x. x.0.case_status) (sym ran) ∙ e)),
    ),
    λ e.
        ap (λ x. x.0.case_status) ran
        ∙ (recover-status ∙ elim e [
          | inl done ↦ absurd (still done)
          | inr h ↦ (recovers case.status still).1 h.1
        ]),
  )

  -- After a verification the case is RECOVERED exactly when it was before, or when the payment is
  -- captured, in the case's currency, and the case was EXECUTING, WAITING_EXTERNAL or VERIFYING:
  -- no recovery is declared without a captured payment.
  pub recovered_iff :
      ((verify_and_recover_case crypto now source reference case payment db).0.case_status
        ≡ RecoveryCaseStatus.recovered)
      ↔ ((case.status ≡ RecoveryCaseStatus.recovered) ⊎ IsProof × IsInFlight case.status)
  recovered_iff = declared branches

  -- A captured payment in the currency of a case that is neither RECOVERED nor in flight, such as
  -- an APPROVED or ESCALATED one, is reported as verified, and its amount is written to the case's
  -- row as recovered, while the case keeps its status.
  pub verified_unrecovered :
      IsProof
      → case.status ≢ RecoveryCaseStatus.recovered
      → ¬ (IsInFlight case.status)
      → ((verify_and_recover_case crypto now source reference case payment db).0.is_verified ≡ true)
        × ((verify_and_recover_case crypto now source reference case payment db).0.case_status
            ≡ case.status)
        × ((verify_and_recover_case crypto now source reference case payment
              db).0.recovered_amount_cents
            ≡ payment.amount_cents)
        × ((verify_and_recover_case crypto now source reference case payment db).1.cases
            ≡ update_row
                (λ row. row.id)
                case.id
                (record case { amount_recovered_cents = payment.amount_cents })
                db.cases)
  unfolding recover save_case
  verified_unrecovered proof still elsewhere = elim branches [
    | inl h ↦ absurd (still h.0)
    | inr (inl h) ↦ absurd (h.1 proof)
    | inr (inr (_, _, ran)) ↦ rw ran (
      refl,
      stays case.status elsewhere,
      refl,
      stored_cases _ _ _ ∙ written case payment.amount_cents db.cases (stays case.status elsewhere),
    )
  ]
