-- ===== src/Worker/PaidOrder.antt =====
-- A late failure of an order that is PAID.
use razor_flow.Prelude.{
  ℕ, ◌≡◌, refl, Bool, true, false, ◌||◌, Option, none, some, ◌∷◌, arith, Text, codes, find, ok, ap,
}
use razor_flow.Prelude.Json.{text, null}
use razor_flow.Domain.Enums.{OrderStatus, PaymentStatus, RecoveryCaseStatus}
use razor_flow.Domain.Floats.{Floats}
use razor_flow.Audit.{Crypto}
use razor_flow.Persistence.{Db, OrderModel, PaymentModel}
use razor_flow.Intake.{
  CaseOutcome, get_active_case_for_order, new_case, create_or_update_recovery_case,
}
use razor_flow.Intake.OneCase.{first_failure}
use razor_flow.Verification.{is_order, is_payment}
use razor_flow.Webhooks.{Platform, ParsedRazorpayPaymentPayload}
use razor_flow.Sync.{
  order_reference, sync_customer, sync_order, sync_payment, enrich_customer_context,
}
use razor_flow.Sync.Captured.{said_failed}
use razor_flow.Worker.Pipeline.{is_failure, handle_payment, synchronize}

or_true : (a b : Bool) → b ≡ true → (a || b) ≡ true
or_true a b h = ground arith

module _ (py : Platform) (fl : Floats) (crypto : Crypto) (now : ℕ) (fresh : Text) (merchant : ℕ)
    (payload : ParsedRazorpayPaymentPayload) where
  open fl use {F, literal}

  module _ (db : Db F) where
    no_customer :
        payload.customer_email ≡ null
        → payload.customer_contact ≡ null
        → sync_customer py payload merchant (literal 0) db ≡ ok (none, db)
    unfolding sync_customer
    no_customer no_email no_phone = rw (no_email, no_phone) refl

    paid_left :
        (external : Text) (order : OrderModel)
        → order_reference py payload ≡ ok external
        → find (is_order merchant (some external)) db.orders ≡ some order
        → order.status ≡ OrderStatus.paid
        → sync_order py payload merchant none db ≡ ok (order, db)
    unfolding sync_order
    paid_left external order named look paid = rw (named, look, paid) refl

    captured_left :
        (order_id : ℕ) (pay : Text) (payment : PaymentModel)
        → payload.external_payment_id ≡ text pay
        → payload.status ≡ text (codes "failed")
        → find (is_payment merchant pay) db.payments ≡ some payment
        → payment.status ≡ PaymentStatus.captured
        → sync_payment py payload merchant none order_id db ≡ ok ((payment, false), db)
    unfolding sync_payment
    captured_left order_id pay payment id said look captured =
        rw (id, said, look, said_failed py payload, captured) refl

  failure_handled :
      (order : OrderModel) (payment : PaymentModel) (db : Db F) {outcome : CaseOutcome F × Db F}
      → is_failure payload ≡ true
      → create_or_update_recovery_case crypto now merchant order payment none
          payload.failure_category payload.is_transient_failure db
        ≡ ok outcome
      → handle_payment py fl crypto now fresh merchant payload none order payment db
        ≡ ok (some outcome.0.case.id, outcome.1)
  unfolding enrich_customer_context
  failure_handled order payment db failed opened = rw (failed, handle_payment, opened) refl

  -- A late failure of an order that is PAID, whose payment is CAPTURED and stays so, and for which
  -- no case is active, opens a recovery case in DIAGNOSING for the paid order; the order and the
  -- payment are left as they are. The event names no customer.
  pub paid_order-reopened :
      (db : Db F) (external pay : Text) (order : OrderModel) (payment : PaymentModel)
      → payload.customer_email ≡ null
      → payload.customer_contact ≡ null
      → order_reference py payload ≡ ok external
      → payload.external_payment_id ≡ text pay
      → payload.status ≡ text (codes "failed")
      → find (is_order merchant (some external)) db.orders ≡ some order
      → order.status ≡ OrderStatus.paid
      → find (is_payment merchant pay) db.payments ≡ some payment
      → payment.status ≡ PaymentStatus.captured
      → get_active_case_for_order merchant order.id db ≡ ok none
      → (case : Option ℕ) × (after : Db F) × (synchronize py fl crypto now fresh merchant payload db
          ≡ ok ((order, payment, case), after))
        × (case ≡ some db.next_id)
        × (after.cases
            ≡ new_case crypto now merchant order payment none payload.failure_category
                payload.is_transient_failure db.next_id RecoveryCaseStatus.diagnosing
              ∷ db.cases)
  unfolding synchronize enrich_customer_context
  paid_order-reopened db external pay order payment no_email no_phone named id said look paid look'
        captured empty =
      let (outcome, opened, rows, told) =
        first_failure crypto merchant order now payment none payload.failure_category
          payload.is_transient_failure db empty in
      let failed : is_failure payload ≡ true = rw said (or_true _ _ refl) in
      (
        some outcome.0.case.id,
        outcome.1,
        rw
            (
              no_customer db no_email no_phone,
              paid_left db external order named look paid,
              captured_left db order.id pay payment id said look' captured,
              failure_handled order payment db failed opened,
            )
            refl,
        ap (λ x. some x.case.id) told,
        rows,
      )
