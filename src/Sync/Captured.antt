-- ===== src/Sync/Captured.antt =====
-- What a webhook does to the status of a payment that is stored.
use razor_flow.Prelude.{
  ℕ, ◌≡◌, refl, sym, ap, ◌∙◌, Bool, true, false, ◌&&◌, Option, some, arith, Text, codes, Bool-cases,
  inl, inr, find, ok, ◌==◌,
}
use razor_flow.Prelude.Json.{text}
use razor_flow.Prelude.Python.{lower}
use razor_flow.Domain.Enums.{PaymentStatus, payment_status_eq}
use razor_flow.Persistence.{Db, PaymentModel}
use razor_flow.Persistence.Lookup.{find-update_row}
use razor_flow.Verification.{is_payment}
use razor_flow.Webhooks.Dedup.{find-Member}
use razor_flow.Webhooks.{Platform, ParsedRazorpayPaymentPayload}
use razor_flow.Sync.Upserts.{mapped_status, update_payment, sync_payment}

-- The status after an event: a CAPTURED payment keeps its status only under a failure.
abbrev pub status_after : PaymentStatus → PaymentStatus → PaymentStatus
status_after PaymentStatus.captured PaymentStatus.failed = PaymentStatus.captured
status_after _ mapped = mapped

late_status :
    (a b : PaymentStatus)
    → ((a == PaymentStatus.captured) && (b == PaymentStatus.failed)) ≡ true
    → status_after a b ≡ a
late_status a b h = ground arith

timely_status :
    (a b : PaymentStatus)
    → ((a == PaymentStatus.captured) && (b == PaymentStatus.failed)) ≡ false
    → status_after a b ≡ b
timely_status a b h = ground arith

module _ (py : Platform) (payload : ParsedRazorpayPaymentPayload) {F : Type 0} (merchant : ℕ)
    (customer : Option ℕ) (order : ℕ) where
  update-status :
      (status : PaymentStatus) (found : PaymentModel) (db : Db F)
      → (update_payment py payload merchant customer order status found db).0
        ≡ record found { status = status_after found.status status }
  update-status status found db =
      elim (Bool-cases
        ((found.status == PaymentStatus.captured) && (status == PaymentStatus.failed))) [
          | inl late ↦ rw late (ap (λ t. record found { status = t }) (sym (late_status _ _ late)))
          | inr timely ↦
              rw timely (ap (λ t. record found { status = t }) (sym (timely_status _ _ timely)))
        ]

  update-find :
      (external : Text) (status : PaymentStatus) (found : PaymentModel) (db : Db F)
      → find (is_payment merchant external) db.payments ≡ some found
      → find
          (is_payment merchant external)
          (update_payment py payload merchant customer order status found db).1.payments
        ≡ some (record found { status = status_after found.status status })
  update-find external status found db look =
      elim (Bool-cases
        ((found.status == PaymentStatus.captured) && (status == PaymentStatus.failed))) [
          | inl late ↦
              rw (late, look)
                (ap (λ t. some (record found { status = t })) (sym (late_status _ _ late)))
          | inr timely ↦ rw timely (
              find-update_row (is_payment merchant external) (λ row. row.id) found.id
                (record found { status = status })
                (find-Member (is_payment merchant external) db.payments look).1 db.payments refl
                look
              ∙ ap (λ t. some (record found { status = t })) (sym (timely_status _ _ timely)))
        ]

  -- An event about a stored payment returns, makes no new payment, and leaves the stored one with
  -- the status of the event, but for a CAPTURED one that a failure leaves CAPTURED.
  pub sync_payment-status :
      (external status : Text) (found : PaymentModel) (db : Db F)
      → payload.external_payment_id ≡ text external
      → payload.status ≡ text status
      → find (is_payment merchant external) db.payments ≡ some found
      → let row = record found {
        status = status_after found.status (mapped_status py payload status);
      } in
        (after : Db F) × (sync_payment py payload merchant customer order db
          ≡ ok ((row, false), after))
        × (find (is_payment merchant external) after.payments ≡ some row)
  unfolding sync_payment
  sync_payment-status external status found db id said look = (
    (update_payment py payload merchant customer order (mapped_status py payload status) found
        db).1,
    rw (id, said, look)
        (ap
          (λ t. ok (
            (t, false),
            (update_payment py payload merchant customer order (mapped_status py payload status)
                found db).1,
          ))
          (update-status (mapped_status py payload status) found db)),
    update-find external (mapped_status py payload status) found db look,
  )

said_authorized :
    (py : Platform) (payload : ParsedRazorpayPaymentPayload)
    → mapped_status py payload (codes "authorized") ≡ PaymentStatus.authorized
unfolding lower
said_authorized py payload = refl

pub said_failed :
    (py : Platform) (payload : ParsedRazorpayPaymentPayload)
    → mapped_status py payload (codes "failed") ≡ PaymentStatus.failed
unfolding lower
said_failed py payload = refl

module _ (py : Platform) (first second : ParsedRazorpayPaymentPayload) {F : Type 0} (merchant : ℕ)
    (customer customer' : Option ℕ) (order order' : ℕ) where
  -- A CAPTURED payment is FAILED after a late `authorized` event and a late `failed` event, in this
  -- order: the first is not guarded against and makes it AUTHORIZED, which the second downgrades.
  pub captured_downgraded :
      (external : Text) (found : PaymentModel) (db : Db F)
      → first.external_payment_id ≡ text external
      → second.external_payment_id ≡ text external
      → first.status ≡ text (codes "authorized")
      → second.status ≡ text (codes "failed")
      → find (is_payment merchant external) db.payments ≡ some found
      → found.status ≡ PaymentStatus.captured
      → (middle : (PaymentModel × Bool) × Db F) × (after : (PaymentModel × Bool) × Db F)
        × (sync_payment py first merchant customer order db ≡ ok middle)
        × (sync_payment py second merchant customer' order' middle.1 ≡ ok after)
        × (after.0.0 ≡ record found { status = PaymentStatus.failed })
  captured_downgraded external found db id id' said said' look captured =
      let (mid, ran, look₁) =
        sync_payment-status py first merchant customer order external (codes "authorized") found db
          id said look in
      let (after, ran', look₂) =
        sync_payment-status py second merchant customer' order' external (codes "failed") _ mid id'
          said' look₁ in
      (_, _, ran, ran', rw (said_authorized py first, said_failed py second, captured) refl)
