-- ===== src/Tests/VerificationRuns.antt =====
-- Verifications of a captured payment.
use razor_flow.Prelude.{
  [], ◌∷◌, ℕ, ◌≡◌, ◌↔◌, ◌⊎◌, refl, inl, inr, none, some, arith, Text, codes, ok, true,
}
use razor_flow.Prelude.Int.{pos}
use razor_flow.Domain.Enums.{RecoveryCaseStatus}
use razor_flow.Domain.StateMachine.{can_transition}
use razor_flow.Domain.Money.{inr_currency}
use razor_flow.Persistence.{update_row, Db, RecoveryCaseModel}
use razor_flow.Verification.{
  VerificationResult, CapturedEvent, verify_and_recover_case, verify_from_webhook_event,
  recovered_case, recover, recovered_status, matching_attempt,
}
use razor_flow.Verification.Recovered.{IsInFlight, IsProof, recovered_iff, verified_unrecovered}
use razor_flow.Verification.Once.{verify_again}
use razor_flow.Verification.Webhook.{Settles, webhook-Settles}
use razor_flow.Tests.Fixtures.{
  stored_case, approved_case, payment, db_with, plain_crypto, later, soon,
}

abbrev waiting_case : RecoveryCaseModel ℕ
waiting_case = record stored_case { status = RecoveryCaseStatus.waiting_external }

abbrev source : Text
source = codes "GATEWAY_POLL"

abbrev verified : RecoveryCaseModel ℕ → VerificationResult × Db ℕ
verified case = verify_and_recover_case plain_crypto soon source none case payment (db_with case)

recovered_iff_example : ((verified waiting_case).0.case_status ≡ RecoveryCaseStatus.recovered) ↔ (
    (waiting_case.status ≡ RecoveryCaseStatus.recovered)
    ⊎ IsProof plain_crypto soon source none waiting_case payment (db_with waiting_case)
      × IsInFlight waiting_case.status)
recovered_iff_example =
    recovered_iff plain_crypto soon source none waiting_case payment (db_with waiting_case)

verified_unrecovered_example :
    ((verified approved_case).0.is_verified ≡ true)
    × ((verified approved_case).0.case_status ≡ approved_case.status)
    × ((verified approved_case).0.recovered_amount_cents ≡ payment.amount_cents)
    × ((verified approved_case).1.cases
        ≡ update_row
            (λ row. row.id)
            approved_case.id
            (record approved_case { amount_recovered_cents = payment.amount_cents })
            (approved_case ∷ []))
verified_unrecovered_example =
    verified_unrecovered plain_crypto soon source none approved_case payment (db_with approved_case)
      (refl, refl) (λ e. cc) (λ h. ground arith)

verify_again_example :
    verify_and_recover_case plain_crypto later
      (codes "WEBHOOK_EVENT")
      none
      (recovered_case plain_crypto soon source none waiting_case payment)
      payment
      (verified waiting_case).1
    ≡ (
      record (verified waiting_case).0 { verification_source = codes "WEBHOOK_EVENT" },
      (verified waiting_case).1,
    )
verify_again_example =
    verify_again plain_crypto soon source none waiting_case payment (db_with waiting_case) later
      (codes "WEBHOOK_EVENT") none payment (refl, refl) (inr (inl refl))

abbrev link_paid : CapturedEvent
link_paid = record {
  event_type = codes "payment_link.paid";
  status = codes "captured";
  external_order_id = some (codes "order_A");
  external_payment_id = codes "pay_B";
  amount_cents = pos 250000;
  currency = inr_currency;
  payment_link_id = ok (some (codes "plink_A"));
}

webhook_run :
    (r : VerificationResult) × (db : Db ℕ) × (verify_from_webhook_event plain_crypto soon
        (codes "pay_wh_0")
        link_paid
        7
        (db_with waiting_case)
      ≡ ok (some r, db))
unfolding verify_from_webhook_event verify_and_recover_case recover recovered_status
    matching_attempt can_transition
webhook_run = (_, _, refl)

webhook-Settles_example :
    Settles plain_crypto soon
      (codes "pay_wh_0")
      link_paid
      7
      (db_with waiting_case)
      (webhook_run.0, webhook_run.1)
webhook-Settles_example =
    webhook-Settles plain_crypto soon (codes "pay_wh_0") link_paid 7 (db_with waiting_case)
      webhook_run.2
