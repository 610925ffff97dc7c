-- ===== src/Verification/Once.antt =====
-- A case is recovered once.
use razor_flow.Prelude.{
  ℕ, ◌≡◌, refl, ap, ◌∙◌, inl, inr, false, Option, none, some, List, [], ◌∷◌, Text, arith, select,
  nat_beq, nat_beq_iff, Bool-cases, Option-cases,
}
use razor_flow.Domain.Enums.{RecoveryCaseStatus, case_status_eq}
use razor_flow.Audit.{Crypto}
use razor_flow.Persistence.{
  Db, RecoveryCaseModel, RecoveryOutcomeModel, PaymentModel, update_row, save_case,
}
use razor_flow.Execution.Steps.{find-holds}
use razor_flow.Verification.Recover.{
  recover, verify_and_recover_case, recovered_case, get_outcome, already_recovered, outcome_row,
  matching_attempt,
}
use razor_flow.Verification.Recovered.{IsInFlight, IsProof, branches, recovers}

get_outcome-update_row :
    (k : ℕ) (new : RecoveryOutcomeModel) (rows : List RecoveryOutcomeModel)
    {old : RecoveryOutcomeModel}
    → new.case_id ≡ k
    → get_outcome k rows ≡ some old
    → get_outcome k (update_row (λ r. r.id) old.id new rows) ≡ some new
get_outcome-update_row k new [] own e = cc
get_outcome-update_row k new (row ∷ rows) {old = old} own e =
    elim (Bool-cases (nat_beq row.id old.id)) [
      | inl replaced ↦ rw replaced (rw ((nat_beq_iff new.case_id k).1 own) refl)
      | inr other ↦ elim (Bool-cases (nat_beq row.case_id k)) [
        | inl found ↦ absurd (distinct (rw found at e) other)
        | inr skipped ↦
            rw (other, skipped) (get_outcome-update_row k new rows own (rw skipped at e))
      ]
    ]
  where
    distinct : some row ≡ some old → nat_beq row.id old.id ≡ false → ⊥
    distinct same h = ground arith

recovered_not_flying :
    (s : RecoveryCaseStatus) → s ≡ RecoveryCaseStatus.recovered → ¬ (IsInFlight s)
recovered_not_flying s e h = ground arith

verify_recovered :
    {F : Type 0} (crypto : Crypto) (now : ℕ) (source : Text) (reference : Option Text)
    (case : RecoveryCaseModel F) (payment : PaymentModel) (db : Db F) {row : RecoveryOutcomeModel}
    → case.status ≡ RecoveryCaseStatus.recovered
    → get_outcome case.id db.outcomes ≡ some row
    → verify_and_recover_case crypto now source reference case payment db
      ≡ (already_recovered case source (some row), db)
unfolding verify_and_recover_case
verify_recovered crypto now source reference case payment db done found = rw (done, found)

module _ {F : Type 0} (crypto : Crypto) (now : ℕ) (source : Text) (reference : Option Text)
    (case : RecoveryCaseModel F) (payment : PaymentModel) (db : Db F) where
  -- The row that a recovery writes.
  abbrev written : Option RecoveryOutcomeModel → RecoveryOutcomeModel
  written outcome =
      outcome_row crypto now source reference case payment
        (matching_attempt reference (select (λ row. nat_beq row.case_id case.id) db.attempts))
        db.next_id outcome

  -- After a recovery the case has its outcome, which tells what the recovery told.
  stored_outcome :
      (source' : Text)
      → (row : RecoveryOutcomeModel) × (get_outcome case.id
            (recover crypto now source reference case payment db).1.outcomes
          ≡ some row)
        × (already_recovered
              (recovered_case crypto now source reference case payment)
              source'
              (some row)
            ≡ record (recover crypto now source reference case payment db).0 {
              verification_source = source';
            })
  unfolding recover save_case
  stored_outcome source' = elim (Option-cases (get_outcome case.id db.outcomes)) [
    | inl fresh ↦ rw fresh (written none, rw ((nat_beq_iff case.id case.id).1 refl) refl, refl)
    | inr (outcome, found) ↦
        let own : outcome.case_id ≡ case.id =
          (nat_beq_iff outcome.case_id case.id).0 (find-holds _ db.outcomes found) in
        rw found (
          written (some outcome),
          get_outcome-update_row case.id (written (some outcome)) db.outcomes own found,
          refl,
        )
  ]

  -- A case that a captured payment has just recovered is not recovered again: verifying it a
  -- second time, at any time, from any source and with any payment, writes nothing and reports the
  -- same outcome and the same amounts.
  pub verify_again :
      (now' : ℕ) (source' : Text) (reference' : Option Text) (payment' : PaymentModel)
      → IsProof crypto now source reference case payment db
      → IsInFlight case.status
      → verify_and_recover_case crypto now' source' reference'
          (recovered_case crypto now source reference case payment)
          payment'
          (verify_and_recover_case crypto now source reference case payment db).1
        ≡ (
          record (verify_and_recover_case crypto now source reference case payment db).0 {
            verification_source = source';
          },
          (verify_and_recover_case crypto now source reference case payment db).1,
        )
  verify_again now' source' reference' payment' proof flying =
      elim (branches crypto now source reference case payment db) [
        | inl h ↦ absurd (recovered_not_flying case.status h.0 flying)
        | inr (inl h) ↦ absurd (h.1 proof)
        | inr (inr (still, _, ran)) ↦
            let (row, found, same) = stored_outcome source' in
            rw ran (
              verify_recovered crypto now' source' reference'
                (recovered_case crypto now source reference case payment) payment'
                (recover crypto now source reference case payment db).1
                ((recovers case.status still).1 flying) found
              ∙ ap (λ r. (r, (recover crypto now source reference case payment db).1)) same)
      ]
