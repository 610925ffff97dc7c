-- ===== src/Worker/Pipeline.antt =====
-- `_execute_ingestion_pipeline`: the processing of a stored webhook.
use razor_flow.Prelude.{
  ℕ, Bool, true, false, ◌||◌, Option, none, some, [], if◌then◌else◌, nat_beq, find, Text, codes,
  Result, ok, raised, Error, ◌>>=◌,
}
use razor_flow.Prelude.Int.{ℤ, pos}
use razor_flow.Prelude.Json.{Json, number, text, object, no_members, get, is_text, null}
use razor_flow.Domain.Floats.{Floats}
use razor_flow.Audit.{Crypto}
use razor_flow.Persistence.{
  Db, CustomerModel, OrderModel, PaymentModel, RawWebhookEventModel, update_row,
}
use razor_flow.Intake.{create_or_update_recovery_case}
use razor_flow.Verification.{CapturedEvent, VerificationResult, verify_from_webhook_event}
use razor_flow.Webhooks.{Platform, ParsedRazorpayPaymentPayload, parse_payload}
use razor_flow.Sync.{sync_customer, sync_order, sync_payment, enrich_customer_context}

-- What the pipeline answers.
pub data PipelineResult : Type 0 where
  event_not_found : PipelineResult
  already_processed : Text → PipelineResult
  parse_failed : Error → PipelineResult
  -- the order, the payment and the case
  success : ℕ → ℕ → Option ℕ → PipelineResult

abbrev text_or_empty : Json → Text
text_or_empty (text t) = t
text_or_empty _ = []

abbrev optional_text : Json → Option Text
optional_text (text t) = some t
optional_text _ = none

abbrev integer_or_zero : Json → ℤ
integer_or_zero (number z) = z
integer_or_zero _ = pos 0

-- `raw_payload.get("payload", {}).get("payment_link", {}).get("entity", {}).get("id")`. An id that is
-- not a text is the reference of no attempt.
abbrev pub payment_link_id_of : Json → Result (Option Text)
payment_link_id_of raw_payload = do
  payload ← get raw_payload (codes "payload") (object no_members)
  link ← get payload (codes "payment_link") (object no_members)
  entity ← get link (codes "entity") (object no_members)
  id ← get entity (codes "id") null
  ok (optional_text id)

-- The parsed payload as the verification service reads it. Its texts are compared with texts only,
-- and a payment with the id exists by then, so that the amount and the currency are not read.
abbrev pub captured_event : ParsedRazorpayPaymentPayload → CapturedEvent
captured_event payload = record {
  event_type = text_or_empty payload.event_type;
  status = text_or_empty payload.status;
  external_order_id = optional_text payload.external_order_id;
  external_payment_id = text_or_empty payload.external_payment_id;
  amount_cents = integer_or_zero payload.amount_cents;
  currency = text_or_empty payload.currency;
  payment_link_id = payment_link_id_of payload.raw_payload;
}

abbrev pub is_failure : ParsedRazorpayPaymentPayload → Bool
is_failure payload =
    is_text payload.event_type (codes "payment.failed") || is_text payload.status (codes "failed")

abbrev pub is_capture : ParsedRazorpayPaymentPayload → Bool
is_capture payload =
    is_text payload.event_type (codes "payment.captured")
    || is_text payload.event_type (codes "payment_link.paid")
    || is_text payload.event_type (codes "order.paid")
    || is_text payload.status (codes "captured")

abbrev verified_case : Option VerificationResult → Option ℕ
verified_case none = none
verified_case (some result) = if result.is_verified then some result.case_id else none

abbrev pub id_of : {F : Type 0} → Option (CustomerModel F) → Option ℕ
id_of none = none
id_of (some customer) = some customer.id

module _ (py : Platform) (fl : Floats) (crypto : Crypto) (now : ℕ) (fresh : Text) where
  open fl use {F, literal}

  -- Steps 4 and 5: the case that the event opens, appends to or recovers.
  abbrev pub handle_failure :
      ℕ
      → ParsedRazorpayPaymentPayload
      → Option ℕ
      → OrderModel
      → PaymentModel
      → Db F
      → Result (Option ℕ × Db F)
  handle_failure merchant_id payload customer_id order payment db = do
    outcome ←
        create_or_update_recovery_case crypto now merchant_id order payment customer_id
          payload.failure_category payload.is_transient_failure
          (enrich_customer_context fl merchant_id customer_id db).1
    ok (some outcome.0.case.id, outcome.1)

  abbrev pub handle_capture : ℕ → ParsedRazorpayPaymentPayload → Db F → Result (Option ℕ × Db F)
  handle_capture merchant_id payload db = do
    verified ← verify_from_webhook_event crypto now fresh (captured_event payload) merchant_id db
    ok (verified_case verified.0, verified.1)

  abbrev pub handle_payment :
      ℕ
      → ParsedRazorpayPaymentPayload
      → Option ℕ
      → OrderModel
      → PaymentModel
      → Db F
      → Result (Option ℕ × Db F)
  handle_payment merchant_id payload customer_id order payment db = elim (is_failure payload) [
    | true ↦ handle_failure merchant_id payload customer_id order payment db
    | false ↦ elim (is_capture payload) [
      | true ↦ handle_capture merchant_id payload db
      | false ↦ ok (none, db)
    ]
  ]

  abbrev pub mark_processed : RawWebhookEventModel → Option Error → Db F → Db F
  mark_processed raw_event e db = record db {
    raw_events =
        update_row (λ row. row.id) raw_event.id
          (record raw_event { processed = true; processing_error = e }) db.raw_events;
  }

  -- Steps 3 to 5.
  unfoldable pub synchronize :
      ℕ
      → ParsedRazorpayPaymentPayload
      → Db F
      → Result ((OrderModel × PaymentModel × Option ℕ) × Db F)
  synchronize merchant_id payload db = do
    customer ← sync_customer py payload merchant_id (literal 0) db
    order ← sync_order py payload merchant_id (id_of customer.0) customer.1
    payment ← sync_payment py payload merchant_id (id_of customer.0) order.0.id order.1
    handled ← handle_payment merchant_id payload (id_of customer.0) order.0 payment.0.0 payment.1
    ok ((order.0, payment.0.0, handled.0), handled.1)

  abbrev pub process_parsed :
      RawWebhookEventModel
      → Result ParsedRazorpayPaymentPayload
      → Db F
      → Result (PipelineResult × Db F)
  process_parsed raw_event (raised e) db =
      ok (PipelineResult.parse_failed e, mark_processed raw_event (some e) db)
  process_parsed raw_event (ok payload) db = do
    done ← synchronize raw_event.merchant_id payload db
    ok (
      PipelineResult.success done.0.0.id done.0.1.id done.0.2,
      mark_processed raw_event none done.1,
    )

  abbrev pub process_event : Option RawWebhookEventModel → Db F → Result (PipelineResult × Db F)
  process_event none db = ok (PipelineResult.event_not_found, db)
  process_event (some raw_event) db = elim raw_event.processed [
    | true ↦ ok (PipelineResult.already_processed raw_event.event_id, db)
    | false ↦ process_parsed raw_event (parse_payload py raw_event.payload raw_event.headers) db
  ]

  -- `session.get` of the event, and its processing.
  unfoldable pub execute_ingestion_pipeline : ℕ → Db F → Result (PipelineResult × Db F)
  execute_ingestion_pipeline raw_event_id db =
      process_event (find (λ row. nat_beq row.id raw_event_id) db.raw_events) db
