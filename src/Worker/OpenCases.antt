-- ===== src/Worker/OpenCases.antt =====
-- The pipeline opens no second case for an order.
use razor_flow.Prelude.{
  ℕ, ◌≡◌, subst, Option, none, some, Bool-cases, inl, inr, find, nat_beq, Result, ok, raised,
  bind-ok, ok_injective,
}
use razor_flow.Domain.Floats.{Floats}
use razor_flow.Audit.{Crypto}
use razor_flow.Prelude.{Text}
use razor_flow.Persistence.{Db, OrderModel, PaymentModel, RawWebhookEventModel}
use razor_flow.Intake.{create_or_update_recovery_case}
use razor_flow.Intake.OneOpen.{CasesOk, CasesOk-same, create_or_update-CasesOk}
use razor_flow.Verification.{verify_from_webhook_event}
use razor_flow.Verification.OneOpen.{webhook-CasesOk}
use razor_flow.Webhooks.{Platform, ParsedRazorpayPaymentPayload, parse_payload}
use razor_flow.Sync.{sync_customer, sync_order, sync_payment, enrich_customer_context}
use razor_flow.Sync.Frame.{customer-Quiet, payment-Quiet}
use razor_flow.Sync.Paid.{order-cases}
use razor_flow.Persistence.Frame.{Quiet}
use razor_flow.Worker.Pipeline.{
  PipelineResult, is_failure, is_capture, id_of, captured_event, handle_failure, handle_capture,
  handle_payment, synchronize, process_parsed, process_event, execute_ingestion_pipeline,
}
use razor_flow.Worker.Frame.{enrich-Quiet}

Quiet-CasesOk : {F : Type 0} (db after : Db F) → Quiet db after → CasesOk db → CasesOk after
Quiet-CasesOk db after ((_, _, more), same) good = CasesOk-same db after same more good

module _ (py : Platform) (fl : Floats) (crypto : Crypto) (now : ℕ) (fresh : Text) where
  open fl use {F, literal}

  module _ (merchant : ℕ) (payload : ParsedRazorpayPaymentPayload) where
    handle_failure-CasesOk :
        (customer : Option ℕ) (order : OrderModel) (payment : PaymentModel) (db : Db F)
        {r : Option ℕ × Db F}
        → handle_failure py fl crypto now fresh merchant payload customer order payment db ≡ ok r
        → CasesOk db
        → CasesOk r.1
    handle_failure-CasesOk customer order payment db e good =
        let enriched = (enrich_customer_context fl merchant customer db).1 in
        let (outcome, e₁, h) =
          bind-ok
            (create_or_update_recovery_case crypto now merchant order payment customer
              payload.failure_category payload.is_transient_failure enriched)
            _ e in
        subst (λ x. CasesOk x.1) (ok_injective h)
          (create_or_update-CasesOk crypto now merchant order payment customer
            payload.failure_category payload.is_transient_failure enriched e₁
            (Quiet-CasesOk db enriched (enrich-Quiet fl merchant customer db) good))

    handle_capture-CasesOk :
        (db : Db F) {r : Option ℕ × Db F}
        → handle_capture py fl crypto now fresh merchant payload db ≡ ok r
        → CasesOk db
        → CasesOk r.1
    handle_capture-CasesOk db e good =
        let (verified, e₁, h) =
          bind-ok (verify_from_webhook_event crypto now fresh (captured_event payload) merchant db)
            _ e in
        subst (λ x. CasesOk x.1) (ok_injective h)
          (webhook-CasesOk crypto now fresh (captured_event payload) merchant db e₁ good)

    handle_payment-CasesOk :
        (customer : Option ℕ) (order : OrderModel) (payment : PaymentModel) (db : Db F)
        {r : Option ℕ × Db F}
        → handle_payment py fl crypto now fresh merchant payload customer order payment db ≡ ok r
        → CasesOk db
        → CasesOk r.1
    handle_payment-CasesOk customer order payment db e good =
        elim (Bool-cases (is_failure payload)) [
          | inl failed ↦
              handle_failure-CasesOk customer order payment db (rw (failed, handle_payment) at e)
                good
          | inr other ↦ elim (Bool-cases (is_capture payload)) [
            | inl captured ↦
                handle_capture-CasesOk db (rw (other, captured, handle_payment) at e) good
            | inr none_of_them ↦
                subst (λ x. CasesOk x.1)
                  (ok_injective (rw (other, none_of_them, handle_payment) at e)) good
          ]
        ]

    synchronize-CasesOk :
        (db : Db F) {r : (OrderModel × PaymentModel × Option ℕ) × Db F}
        → synchronize py fl crypto now fresh merchant payload db ≡ ok r
        → CasesOk db
        → CasesOk r.1
    unfolding synchronize
    synchronize-CasesOk db e good =
        let (customer, e₁, h₁) = bind-ok (sync_customer py payload merchant (literal 0) db) _ e in
        let (order, e₂, h₂) =
          bind-ok (sync_order py payload merchant (id_of customer.0) customer.1) _ h₁ in
        let (payment, e₃, h₃) =
          bind-ok (sync_payment py payload merchant (id_of customer.0) order.0.id order.1) _ h₂ in
        let (handled, e₄, h₄) =
          bind-ok
            (handle_payment py fl crypto now fresh merchant payload (id_of customer.0) order.0
              payment.0.0 payment.1)
            _ h₃ in
        let (same, more) = order-cases py payload merchant (id_of customer.0) customer.1 e₂ in
        let first =
          Quiet-CasesOk db customer.1 (customer-Quiet py payload merchant db (literal 0) e₁) good in
        let then = CasesOk-same customer.1 order.1 same more first in
        let last =
          Quiet-CasesOk order.1 payment.1
            (payment-Quiet py payload merchant order.1 (id_of customer.0) order.0.id e₃) then in
        subst (λ x. CasesOk x.1) (ok_injective h₄)
          (handle_payment-CasesOk (id_of customer.0) order.0 payment.0.0 payment.1 e₄ last)

  process_parsed-CasesOk :
      (row : RawWebhookEventModel) (parsed : Result ParsedRazorpayPaymentPayload) (db : Db F)
      {r : PipelineResult × Db F}
      → process_parsed py fl crypto now fresh row parsed db ≡ ok r
      → CasesOk db
      → CasesOk r.1
  process_parsed-CasesOk row (raised e) db h good = subst (λ x. CasesOk x.1) (ok_injective h) good
  process_parsed-CasesOk row (ok payload) db h good =
      let (done, e, h₁) =
        bind-ok (synchronize py fl crypto now fresh row.merchant_id payload db) _ h in
      subst (λ x. CasesOk x.1) (ok_injective h₁)
        (synchronize-CasesOk row.merchant_id payload db e good)

  process_event-CasesOk :
      (found : Option RawWebhookEventModel) (db : Db F) {r : PipelineResult × Db F}
      → process_event py fl crypto now fresh found db ≡ ok r
      → CasesOk db
      → CasesOk r.1
  process_event-CasesOk none db h good = subst (λ x. CasesOk x.1) (ok_injective h) good
  process_event-CasesOk (some row) db h good = elim (Bool-cases row.processed) [
    | inl before ↦ subst (λ x. CasesOk x.1) (ok_injective (rw (before, process_event) at h)) good
    | inr fresh_one ↦
        process_parsed-CasesOk row (parse_payload py row.payload row.headers) db
          (rw (fresh_one, process_event) at h) good
  ]

  -- A run of the pipeline keeps the invariant.
  pub pipeline-CasesOk :
      (id : ℕ) (db : Db F) {r : PipelineResult × Db F}
      → execute_ingestion_pipeline py fl crypto now fresh id db ≡ ok r
      → CasesOk db
      → CasesOk r.1
  unfolding execute_ingestion_pipeline
  pipeline-CasesOk id db h good =
      process_event-CasesOk (find (λ row. nat_beq row.id id) db.raw_events) db h good
