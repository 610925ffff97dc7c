-- ===== src/Worker/Processed.antt =====
-- The pipeline processes an event once, and never touches a PAID order.
use razor_flow.Prelude.{
  ℕ, ◌≡◌, refl, sym, ap, subst, true, Option, some, Text, Bool-cases, inl, inr, Result, ok, raised,
  bind-ok, ok_injective, ◌⊎◌,
}
use razor_flow.Domain.Floats.{Floats}
use razor_flow.Audit.{Crypto}
use razor_flow.Persistence.{Db, OrderModel, PaymentModel, RawWebhookEventModel, update_row}
use razor_flow.Persistence.Frame.{Frame, Frame-refl, Frame-trans}
use razor_flow.Intake.{create_or_update_recovery_case}
use razor_flow.Verification.{verify_from_webhook_event}
use razor_flow.Webhooks.{Platform, ParsedRazorpayPaymentPayload, parse_payload}
use razor_flow.Sync.{sync_customer, sync_order, sync_payment, enrich_customer_context}
use razor_flow.Sync.Frame.{customer-Quiet, payment-Quiet}
use razor_flow.Sync.Paid.{OrdersFall, PaidKept, Keeps, Keeps-trans, Frame-Keeps, order-Keeps}
use razor_flow.Worker.Pipeline.{
  PipelineResult, is_failure, is_capture, id_of, captured_event, handle_failure, handle_capture,
  handle_payment, synchronize, process_parsed, process_event,
}
use razor_flow.Worker.Frame.{webhook-Frame, case-Frame, enrich-Quiet}

module _ (py : Platform) (fl : Floats) (crypto : Crypto) (now : ℕ) (fresh : Text) where
  open fl use {F, literal}

  module _ (merchant : ℕ) (payload : ParsedRazorpayPaymentPayload) where
    handle_failure-Frame :
        (customer : Option ℕ) (order : OrderModel) (payment : PaymentModel) (db : Db F)
        {r : Option ℕ × Db F}
        → handle_failure py fl crypto now fresh merchant payload customer order payment db ≡ ok r
        → Frame db r.1
    handle_failure-Frame customer order payment db e =
        let enriched = (enrich_customer_context fl merchant customer db).1 in
        let (outcome, e₁, h) =
          bind-ok
            (create_or_update_recovery_case crypto now merchant order payment customer
              payload.failure_category payload.is_transient_failure enriched)
            _ e in
        subst (λ x. Frame db x.1) (ok_injective h)
          (Frame-trans db enriched outcome.1 (enrich-Quiet fl merchant customer db).0 (
            case-Frame crypto now merchant order payment customer payload.failure_category
              payload.is_transient_failure enriched e₁))

    handle_capture-Frame :
        (db : Db F) {r : Option ℕ × Db F}
        → handle_capture py fl crypto now fresh merchant payload db ≡ ok r
        → Frame db r.1
    handle_capture-Frame db e =
        let (verified, e₁, h) =
          bind-ok (verify_from_webhook_event crypto now fresh (captured_event payload) merchant db)
            _ e in
        subst (λ x. Frame db x.1) (ok_injective h)
          (webhook-Frame crypto now fresh (captured_event payload) merchant db e₁)

    handle_payment-Frame :
        (customer : Option ℕ) (order : OrderModel) (payment : PaymentModel) (db : Db F)
        {r : Option ℕ × Db F}
        → handle_payment py fl crypto now fresh merchant payload customer order payment db ≡ ok r
        → Frame db r.1
    handle_payment-Frame customer order payment db e = elim (Bool-cases (is_failure payload)) [
      | inl failed ↦
          handle_failure-Frame customer order payment db (rw (failed, handle_payment) at e)
      | inr other ↦ elim (Bool-cases (is_capture payload)) [
        | inl captured ↦ handle_capture-Frame db (rw (other, captured, handle_payment) at e)
        | inr none_of_them ↦
            subst (λ x. Frame db x.1) (ok_injective (rw (other, none_of_them, handle_payment) at e))
              (Frame-refl db)
      ]
    ]

    -- Steps 3 to 5.
    pub synchronize-Keeps :
        (db : Db F) {r : (OrderModel × PaymentModel × Option ℕ) × Db F}
        → synchronize py fl crypto now fresh merchant payload db ≡ ok r
        → Keeps db r.1
    unfolding synchronize
    synchronize-Keeps db e =
        let (customer, e₁, h₁) = bind-ok (sync_customer py payload merchant (literal 0) db) _ e in
        let (order, e₂, h₂) =
          bind-ok (sync_order py payload merchant (id_of customer.0) customer.1) _ h₁ in
        let (payment, e₃, h₃) =
          bind-ok (sync_payment py payload merchant (id_of customer.0) order.0.id order.1) _ h₂ in
        let (handled, e₄, h₄) =
          bind-ok
            (handle_payment py fl crypto now fresh merchant payload (id_of customer.0) order.0
              payment.0.0 payment.1)
            _ h₃ in
        let first = (customer-Quiet py payload merchant db (literal 0) e₁).0 in
        let then = order-Keeps py payload merchant (id_of customer.0) customer.1 e₂ in
        let last =
          Frame-trans order.1 payment.1 handled.1
            (payment-Quiet py payload merchant order.1 (id_of customer.0) order.0.id e₃).0
            (handle_payment-Frame (id_of customer.0) order.0 payment.0.0 payment.1 e₄) in
        subst (λ x. Keeps db x.1) (ok_injective h₄)
          (Keeps-trans db customer.1 handled.1 (Frame-Keeps db customer.1 first)
            (Keeps-trans customer.1 order.1 handled.1 then (Frame-Keeps order.1 handled.1 last)))

  -- An event is marked, and the PAID orders are kept.
  abbrev pub IsMarked : RawWebhookEventModel → Db F → Db F → Type 0
  IsMarked row db after =
      ((new : RawWebhookEventModel) × (new.id ≡ row.id)
        × (new.processed ≡ true)
        × (new.event_id ≡ row.event_id)
        × (after.raw_events ≡ update_row (λ r. r.id) row.id new db.raw_events))
      × (OrdersFall db → PaidKept db after)

  process_parsed-IsMarked :
      (row : RawWebhookEventModel) (parsed : Result ParsedRazorpayPaymentPayload) (db : Db F)
      {r : PipelineResult × Db F}
      → process_parsed py fl crypto now fresh row parsed db ≡ ok r
      → IsMarked row db r.1
  process_parsed-IsMarked row (raised e) db h =
      subst (λ x. IsMarked row db x.1) (ok_injective h)
        ((_, refl, refl, refl, refl), λ d. (d, λ paid m p. m))
  process_parsed-IsMarked row (ok payload) db h =
      let (done, e, h₁) =
        bind-ok (synchronize py fl crypto now fresh row.merchant_id payload db) _ h in
      let (events, keeps) = synchronize-Keeps row.merchant_id payload db e in
      subst (λ x. IsMarked row db x.1) (ok_injective h₁)
        ((_, refl, refl, refl, ap (update_row (λ r. r.id) row.id _) events), keeps)

  -- A run on an event that is there: it was processed before, or is marked.
  pub process_event-cases :
      (row : RawWebhookEventModel) (db : Db F) {r : PipelineResult × Db F}
      → process_event py fl crypto now fresh (some row) db ≡ ok r
      → ((row.processed ≡ true) × (r.1 ≡ db)) ⊎ IsMarked row db r.1
  process_event-cases row db h = elim (Bool-cases row.processed) [
    | inl before ↦
        inl (before, sym (ap (λ x. x.1) (ok_injective (rw (before, process_event) at h))))
    | inr fresh_one ↦ inr (
        process_parsed-IsMarked row (parse_payload py row.payload row.headers) db
          (rw (fresh_one, process_event) at h))
  ]
