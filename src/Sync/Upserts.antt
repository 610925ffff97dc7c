-- ===== src/Sync/Upserts.antt =====
-- `OrderPaymentSyncService`. A query without an order gives the first row of its table.
use razor_flow.Prelude.{
  ℕ, ◌+◌, Bool, true, false, ◌&&◌, ◌||◌, Option, none, some, ◌∷◌, ◌++◌, if◌then◌else◌, ◌==◌, Text,
  codes, text_eq, nat_beq, find, is_some, Result, ok, ◌>>=◌,
}
use razor_flow.Prelude.Json.{Json, is_true, is_text, the_text, true_text, text_column, int_column}
use razor_flow.Prelude.Python.{lower, strip, or_else}
use razor_flow.Domain.Enums.{OrderStatus, PaymentStatus, order_status_eq, payment_status_eq}
use razor_flow.Persistence.{Db, CustomerModel, OrderModel, PaymentModel, update_row}
use razor_flow.Verification.{is_order, is_payment}
use razor_flow.Webhooks.{Platform, ParsedRazorpayPaymentPayload}

-- A text that is there and is not empty.
abbrev pub given : Option Text → Bool
given t = is_some (or_else t none)

-- `column == value`, where NULL equals nothing.
abbrev pub holds : Option Text → Option Text → Bool
holds (some a) (some b) = a == b
holds _ _ = false

abbrev pub is_failed : ParsedRazorpayPaymentPayload → Bool
is_failed payload = is_text payload.status (codes "failed")

abbrev pub is_nameless : Option Text → Bool
is_nameless none = true
is_nameless (some name) = name == codes "Customer"

-- `if customer_id and not order.customer_id: order.customer_id = customer_id`
abbrev pub or_customer : Option ℕ → Option ℕ → Option ℕ
or_customer customer_id none = customer_id
or_customer customer_id (some id) = some id

module _ (py : Platform) (payload : ParsedRazorpayPaymentPayload) where
  abbrev pub normal_text : (Text → Text) → Json → Result (Option Text)
  normal_text normal value = do
    t ← true_text value
    ok (elim t [ none ↦ none | some s ↦ some (normal s) ])

  -- `external_order_id or f"order_synth_{external_payment_id}"`
  abbrev pub order_reference : Result Text
  order_reference = elim (is_true payload.external_order_id) [
    | true ↦ text_column payload.external_order_id
    | false ↦ ok (codes "order_synth_" ++ py.format payload.external_payment_id)
  ]

  abbrev pub is_paid_event : Bool
  is_paid_event =
      (is_text payload.status (codes "captured") || is_text payload.status (codes "authorized"))
      && (is_text payload.event_type (codes "payment.captured")
          || is_text payload.event_type (codes "payment.authorized")
          || is_text payload.event_type (codes "order.paid"))

  abbrev pub new_order_status : OrderStatus
  new_order_status = if is_paid_event then OrderStatus.paid else OrderStatus.attempted

  -- `status_mapping.get(payload.status.lower(), PaymentStatus.FAILED)`
  abbrev pub mapped_status : Text → PaymentStatus
  mapped_status status =
      let key = lower py.cases status in
      if key == codes "failed"
      then PaymentStatus.failed
      else if key == codes "captured"
      then PaymentStatus.captured
      else if key == codes "authorized"
      then PaymentStatus.authorized
      else if key == codes "refunded"
      then PaymentStatus.refunded
      else PaymentStatus.failed

  -- `payload.customer_name or "Customer"`
  abbrev pub customer_name_of : Result Text
  customer_name_of = elim (is_true payload.customer_name) [
    | true ↦ text_column payload.customer_name
    | false ↦ ok (codes "Customer")
  ]

  module _ {F : Type 0} (merchant_id : ℕ) where
    abbrev pub is_customer : Option Text → Option Text → CustomerModel F → Bool
    is_customer email phone row =
        nat_beq row.merchant_id merchant_id
        && (if given email && given phone
            then holds row.email email || holds row.phone phone
            else if given email
            then holds row.email email
            else holds row.phone phone)

    abbrev pub updated_name : CustomerModel F → Result (Option Text)
    updated_name customer = elim (is_true payload.customer_name && is_nameless customer.name) [
      | true ↦ do name ← text_column payload.customer_name; ok (some name)
      | false ↦ ok customer.name
    ]

    -- The branches of the query's result.
    abbrev pub upsert_customer :
        F
        → Option Text
        → Option Text
        → Option (CustomerModel F)
        → Db F
        → Result (Option (CustomerModel F) × Db F)
    upsert_customer zero email phone none db = do
      name ← customer_name_of
      let customer : CustomerModel F = record {
        id = db.next_id;
        merchant_id = merchant_id;
        email = email;
        phone = phone;
        name = some name;
        risk_score = zero;
        recovery_success_count = 0;
        total_failure_count = if is_failed payload then 1 else 0;
      } in
          ok (
            some customer,
            record db { customers = customer ∷ db.customers; next_id = db.next_id + 1 },
          )
    upsert_customer zero email phone (some found) db = do
      name ← updated_name found
      let customer : CustomerModel F = record found {
        total_failure_count =
            if is_failed payload then found.total_failure_count + 1 else found.total_failure_count;
        name = name;
      } in
          ok (
            some customer,
            record db { customers = update_row (λ row. row.id) found.id customer db.customers },
          )

    abbrev pub sync_customer_by :
        F → Option Text → Option Text → Db F → Result (Option (CustomerModel F) × Db F)
    sync_customer_by zero email phone db = elim (given email || given phone) [
      | false ↦ ok (none, db)
      | true ↦ upsert_customer zero email phone (find (is_customer email phone) db.customers) db
    ]

    -- `zero` is the float 0.0.
    unfoldable pub sync_customer : F → Db F → Result (Option (CustomerModel F) × Db F)
    sync_customer zero db = do
      email ← normal_text (λ t. lower py.cases (strip t)) payload.customer_email
      phone ← normal_text strip payload.customer_contact
      sync_customer_by zero email phone db

    module _ (customer_id : Option ℕ) where
      abbrev pub create_order : Text → Db F → Result (OrderModel × Db F)
      create_order external db = do
        amount ← int_column payload.amount_cents
        currency ← text_column payload.currency
        let order : OrderModel = record {
          id = db.next_id;
          merchant_id = merchant_id;
          customer_id = customer_id;
          external_order_id = external;
          amount_cents = amount;
          currency = currency;
          status = new_order_status;
        } in
            ok (order, record db { orders = order ∷ db.orders; next_id = db.next_id + 1 })

      -- A PAID order is left as it is.
      abbrev pub update_order : OrderModel → Db F → OrderModel × Db F
      update_order found db =
          let order : OrderModel = record found {
            status = new_order_status;
            customer_id = or_customer customer_id found.customer_id;
          } in
          if found.status == OrderStatus.paid
          then (found, db)
          else (order, record db { orders = update_row (λ row. row.id) found.id order db.orders })

      abbrev pub upsert_order : Text → Option OrderModel → Db F → Result (OrderModel × Db F)
      upsert_order external none db = create_order external db
      upsert_order external (some found) db = ok (update_order found db)

      unfoldable pub sync_order : Db F → Result (OrderModel × Db F)
      sync_order db = do
        external ← order_reference
        upsert_order external (find (is_order merchant_id (some external)) db.orders) db

      module _ (order_id : ℕ) where
        abbrev pub create_payment : Text → PaymentStatus → Db F → Result (PaymentModel × Db F)
        create_payment external status db = do
          amount ← int_column payload.amount_cents
          currency ← text_column payload.currency
          let payment : PaymentModel = record {
            id = db.next_id;
            merchant_id = merchant_id;
            order_id = order_id;
            customer_id = customer_id;
            external_payment_id = external;
            amount_cents = amount;
            currency = currency;
            status = status;
          } in
              ok (payment, record db { payments = payment ∷ db.payments; next_id = db.next_id + 1 })

        -- A CAPTURED payment is left as it is by a failure.
        abbrev pub update_payment : PaymentStatus → PaymentModel → Db F → PaymentModel × Db F
        update_payment status found db =
            let payment : PaymentModel = record found { status = status } in
            if (found.status == PaymentStatus.captured) && (status == PaymentStatus.failed)
            then (found, db)
            else (
              payment,
              record db { payments = update_row (λ row. row.id) found.id payment db.payments },
            )

        abbrev pub upsert_payment :
            Text
            → PaymentStatus
            → Option PaymentModel
            → Db F
            → Result ((PaymentModel × Bool) × Db F)
        upsert_payment external status none db = do
          created ← create_payment external status db
          ok ((created.0, true), created.1)
        upsert_payment external status (some found) db =
            let updated = update_payment status found db in ok ((updated.0, false), updated.1)

        -- The payment, whether it is new, and the database after.
        unfoldable pub sync_payment : Db F → Result ((PaymentModel × Bool) × Db F)
        sync_payment db = do
          external ← text_column payload.external_payment_id
          status ← the_text payload.status
          upsert_payment external (mapped_status status)
              (find (is_payment merchant_id external) db.payments) db
