-- ===== src/Sync/Frame.antt =====
-- The synchronization of a customer and of a payment leaves the orders, the cases and the events alone.
use razor_flow.Prelude.{
  ℕ, ◌≡◌, refl, subst, Bool, ◌&&◌, ◌||◌, Option, none, some, arith, Text, Bool-cases, inl, inr,
  ◌==◌, ok, bind-ok, ok_injective,
}
use razor_flow.Prelude.Json.{text_column, int_column, the_text}
use razor_flow.Prelude.Python.{lower, strip}
use razor_flow.Domain.Enums.{PaymentStatus, payment_status_eq}
use razor_flow.Persistence.{Db, CustomerModel, PaymentModel}
use razor_flow.Persistence.Frame.{Quiet, Quiet-refl}
use razor_flow.Webhooks.{Platform, ParsedRazorpayPaymentPayload}
use razor_flow.Sync.Upserts.{
  given, normal_text, customer_name_of, updated_name, upsert_customer, sync_customer_by,
  sync_customer, create_payment, update_payment, upsert_payment, sync_payment, mapped_status,
}

module _ (py : Platform) (payload : ParsedRazorpayPaymentPayload) {F : Type 0} (merchant : ℕ)
    (db : Db F) where
  upsert_customer-Quiet :
      (zero : F) (email phone : Option Text) (found : Option (CustomerModel F))
      {r : Option (CustomerModel F) × Db F}
      → upsert_customer py payload merchant zero email phone found db ≡ ok r
      → Quiet db r.1
  upsert_customer-Quiet zero email phone none e =
      let (name, e₁, h) = bind-ok (customer_name_of py payload) _ e in
      subst (λ x. Quiet db x.1) (ok_injective h) ((refl, refl, omega arith), refl)
  upsert_customer-Quiet zero email phone (some found) e =
      let (name, e₁, h) = bind-ok (updated_name py payload merchant found) _ e in
      subst (λ x. Quiet db x.1) (ok_injective h) ((refl, refl, omega arith), refl)

  sync_customer_by-Quiet :
      (zero : F) (email phone : Option Text) {r : Option (CustomerModel F) × Db F}
      → sync_customer_by py payload merchant zero email phone db ≡ ok r
      → Quiet db r.1
  sync_customer_by-Quiet zero email phone e = elim (Bool-cases (given email || given phone)) [
    | inl known ↦ upsert_customer-Quiet zero email phone _ (rw (known, sync_customer_by) at e)
    | inr unknown ↦
        subst (λ x. Quiet db x.1) (ok_injective (rw (unknown, sync_customer_by) at e))
          (Quiet-refl db)
  ]

  pub customer-Quiet :
      (zero : F) {r : Option (CustomerModel F) × Db F}
      → sync_customer py payload merchant zero db ≡ ok r
      → Quiet db r.1
  unfolding sync_customer
  customer-Quiet zero e =
      let (email, e₁, h) =
        bind-ok (normal_text py payload (λ t. lower py.cases (strip t)) payload.customer_email) _
          e in
      let (phone, e₂, h') = bind-ok (normal_text py payload strip payload.customer_contact) _ h in
      sync_customer_by-Quiet zero email phone h'

  module _ (customer : Option ℕ) (order : ℕ) where
    create_payment-Quiet :
        (external : Text) (status : PaymentStatus) {r : PaymentModel × Db F}
        → create_payment py payload merchant customer order external status db ≡ ok r
        → Quiet db r.1
    create_payment-Quiet external status e =
        let (amount, e₁, h₁) = bind-ok (int_column payload.amount_cents) _ e in
        let (currency, e₂, h₂) = bind-ok (text_column payload.currency) _ h₁ in
        subst (λ x. Quiet db x.1) (ok_injective h₂) ((refl, refl, omega arith), refl)

    update_payment-Quiet :
        (status : PaymentStatus) (found : PaymentModel)
        → Quiet db (update_payment py payload merchant customer order status found db).1
    update_payment-Quiet status found =
        elim (Bool-cases
          ((found.status == PaymentStatus.captured) && (status == PaymentStatus.failed))) [
            | inl late ↦ rw late (Quiet-refl db)
            | inr timely ↦ rw timely ((refl, refl, omega arith), refl)
          ]

    upsert_payment-Quiet :
        (external : Text) (status : PaymentStatus) (found : Option PaymentModel)
        {r : (PaymentModel × Bool) × Db F}
        → upsert_payment py payload merchant customer order external status found db ≡ ok r
        → Quiet db r.1
    upsert_payment-Quiet external status none e =
        let (created, e₁, h) =
          bind-ok (create_payment py payload merchant customer order external status db) _ e in
        subst (λ x. Quiet db x.1) (ok_injective h) (create_payment-Quiet external status e₁)
    upsert_payment-Quiet external status (some found) e =
        subst (λ x. Quiet db x.1) (ok_injective e) (update_payment-Quiet status found)

    pub payment-Quiet :
        {r : (PaymentModel × Bool) × Db F}
        → sync_payment py payload merchant customer order db ≡ ok r
        → Quiet db r.1
    unfolding sync_payment
    payment-Quiet e =
        let (external, e₁, h₁) = bind-ok (text_column payload.external_payment_id) _ e in
        let (status, e₂, h₂) = bind-ok (the_text payload.status) _ h₁ in
        upsert_payment-Quiet external (mapped_status py payload status) _ h₂
