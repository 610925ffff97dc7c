-- ===== src/Verification/Webhook.antt =====
-- What a webhook of a captured payment leads to.
use razor_flow.Prelude.{
  ℕ, ◌≡◌, ◌≢◌, ◌↔◌, ◌⊎◌, refl, sym, ap, List, [], ◌∷◌, nat_beq_iff, text_beq_iff, text_eq, inl, inr,
  Bool, true, false, ◌&&◌, Option, none, some, arith, find, select, contains, Text, codes,
  Bool-cases, ok, bind-ok, ok_injective, Member, mem-select, subst, ◌==◌,
}
use razor_flow.Domain.Enums.{PaymentStatus, RecoveryCaseStatus, case_status_eq, payment_status_eq}
use razor_flow.Audit.{Crypto}
use razor_flow.Persistence.{
  Db, RecoveryCaseModel, PaymentModel, OrderModel, RecoveryOutcomeModel, save_case,
  scalar_one_or_none,
}
use razor_flow.Persistence.Lookup.{scalar-Member, find-update_row}
use razor_flow.Webhooks.Dedup.{find-Member}
use razor_flow.Verification.Recover.{
  VerificationResult, store_outcome, recover, verify_and_recover_case,
}
use razor_flow.Verification.Sources.{
  CapturedEvent, is_captured_event, is_active_case, active_statuses, or_fresh, settle, verify_case,
  verify_order, is_order, is_payment, verify_from_webhook_event,
}
use razor_flow.Verification.Recovered.{IsInFlight, recovered_iff}

some_injective : {A : Type 0} {a b : A} → some a ≡ some b → a ≡ b
some_injective e = cc

pair_ext : {A B : Type 0} {a a' : A} {b b' : B} → a ≡ a' → b ≡ b' → ◌≡◌ {A = A × B} (a, b) (a', b')
pair_ext e f = cc

and_left : (a b : Bool) → (a && b) ≡ true → a ≡ true
and_left true b h = refl
and_left false b h = cc

and_right : (a b : Bool) → (a && b) ≡ true → b ≡ true
and_right true b h = h
and_right false b h = cc

not_still_recovered :
    (s : RecoveryCaseStatus) → contains s active_statuses ≡ true → s ≢ RecoveryCaseStatus.recovered
not_still_recovered s h e = ground arith

order_named :
    (merchant : ℕ) (external : Option Text) (order : OrderModel)
    → is_order merchant external order ≡ true
    → (order.merchant_id ≡ merchant) × (external ≡ some order.external_order_id)
order_named merchant none order h = cc
order_named merchant (some t) order h = (
  (nat_beq_iff order.merchant_id merchant).0 (and_left _ _ h),
  ap some (sym ((text_beq_iff order.external_order_id t).0 (and_right _ _ h))),
)

or_fresh_cases :
    (external fresh : Text)
    → (or_fresh external fresh ≡ external) ⊎ (external ≡ []) × (or_fresh external fresh ≡ fresh)
or_fresh_cases [] fresh = inr (refl, refl)
or_fresh_cases (c ∷ t) fresh = inl refl

module _ {F : Type 0} (crypto : Crypto) (now : ℕ) (source : Text) (reference : Option Text)
    (case : RecoveryCaseModel F) (payment : PaymentModel) where
  stored_payments :
      (row : RecoveryOutcomeModel) (outcome : Option RecoveryOutcomeModel) (stored : Db F)
      → (store_outcome crypto now source reference row outcome stored).payments ≡ stored.payments
  stored_payments row none stored = refl
  stored_payments row (some outcome) stored = refl

  -- A verification is about its case, and leaves the payments as they are.
  verify_about :
      (db : Db F)
      → let after = verify_and_recover_case crypto now source reference case payment db in
        (after.0.case_id ≡ case.id) × (after.1.payments ≡ db.payments)
  unfolding verify_and_recover_case recover save_case
  verify_about db = elim (Bool-cases (case.status == RecoveryCaseStatus.recovered)) [
    | inl done ↦ rw done (refl, refl)
    | inr still ↦ elim (Bool-cases (payment.status == PaymentStatus.captured)) [
      | inl captured ↦ elim (Bool-cases (payment.currency == case.currency)) [
        | inl same ↦ rw (still, captured, same) (refl, stored_payments _ _ _)
        | inr apart ↦ rw (still, captured, apart) (refl, refl)
      ]
      | inr pending ↦ rw (still, pending) (refl, refl)
    ]
  ]

module _ {F : Type 0} (crypto : Crypto) (now : ℕ) (fresh : Text) (event : CapturedEvent)
    (merchant : ℕ) (db : Db F) where
  -- The payment of the event: captured, of the merchant, and stored under the event's id, or under
  -- a fresh one where the event has none.
  abbrev pub IsPaymentOf : PaymentModel → List PaymentModel → Type 0
  IsPaymentOf payment payments =
      (payment.status ≡ PaymentStatus.captured)
      × Member payment payments
      × (payment.merchant_id ≡ merchant)
      × ((payment.external_payment_id ≡ event.external_payment_id)
          ⊎ (event.external_payment_id ≡ []) × (payment.external_payment_id ≡ fresh))

  payment_named :
      (payment : PaymentModel)
      → is_payment merchant event.external_payment_id payment ≡ true
      → (payment.merchant_id ≡ merchant) × (payment.external_payment_id ≡ event.external_payment_id)
  payment_named payment h = (
    (nat_beq_iff payment.merchant_id merchant).0 (and_left _ _ h),
    (text_beq_iff payment.external_payment_id event.external_payment_id).0 (and_right _ _ h),
  )

  -- However the settling payment was found, it is the one of the event.
  settle-IsPaymentOf :
      (order : OrderModel) (found : Option PaymentModel)
      → find (is_payment merchant event.external_payment_id) db.payments ≡ found
      → let settled = settle crypto now fresh event merchant order found db in
        IsPaymentOf settled.0 settled.1.payments
  settle-IsPaymentOf order none look =
      (refl, inl refl, refl, or_fresh_cases event.external_payment_id fresh)
  settle-IsPaymentOf order (some payment) look =
      let own = is_payment merchant event.external_payment_id in
      let (inside, test) = find-Member own db.payments look in
      let (ours, same) = payment_named payment test in
      elim (Bool-cases (payment.status == PaymentStatus.captured)) [
        | inl captured ↦ rw captured (ground arith, inside, ours, inl same)
        | inr pending ↦
            let there =
              find-update_row own (λ row. row.id) payment.id
                (record payment { status = PaymentStatus.captured }) test db.payments refl look in
            rw pending (refl, (find-Member own _ there).0, ours, inl same)
      ]

  active_parts :
      (order : ℕ) (case : RecoveryCaseModel F)
      → is_active_case crypto now fresh order case ≡ true
      → (case.order_id ≡ order) × (contains case.status active_statuses ≡ true)
  active_parts order case h =
      ((nat_beq_iff case.order_id order).0 (and_left _ _ h), and_right _ _ h)

  -- The order of the event, its active case, which the result is about, and the payment of the
  -- event, which is stored and settles the case.
  abbrev pub Settles : VerificationResult × Db F → Type 0
  Settles after =
      (order : OrderModel) × (case : RecoveryCaseModel F) × (payment : PaymentModel) × Member order
        db.orders
      × (order.merchant_id ≡ merchant)
      × (event.external_order_id ≡ some order.external_order_id)
      × Member case db.cases
      × (case.order_id ≡ order.id)
      × (contains case.status active_statuses ≡ true)
      × (after.0.case_id ≡ case.id)
      × IsPaymentOf payment after.1.payments
      × ((after.0.case_status ≡ RecoveryCaseStatus.recovered)
          ↔ ((payment.currency ≡ case.currency) × IsInFlight case.status))

  case-Settles :
      (order : OrderModel) (case : RecoveryCaseModel F) (found : Option PaymentModel)
      (link : Option Text)
      → find (is_order merchant event.external_order_id) db.orders ≡ some order
      → Member case (select (is_active_case crypto now fresh order.id) db.cases)
      → find (is_payment merchant event.external_payment_id) db.payments ≡ found
      → let settled = settle crypto now fresh event merchant order found db in
        Settles
          (verify_and_recover_case crypto now (codes "WEBHOOK_EVENT") link case settled.0 settled.1)
  case-Settles order case found link placed m look =
      let (stored, named) =
        find-Member (is_order merchant event.external_order_id) db.orders placed in
      let (ours, external) = order_named merchant event.external_order_id order named in
      let (inside, active) =
        (mem-select (is_active_case crypto now fresh order.id) case db.cases).0 m in
      let (own, alive) = active_parts order.id case active in
      let settled = settle crypto now fresh event merchant order found db in
      let (captured, kept, theirs, same_id) = settle-IsPaymentOf order found look in
      let (about, payments) =
        verify_about crypto now (codes "WEBHOOK_EVENT") link case settled.0 settled.1 in
      let (forth, back) =
        recovered_iff crypto now (codes "WEBHOOK_EVENT") link case settled.0 settled.1 in
      (
        order,
        case,
        settled.0,
        stored,
        ours,
        external,
        inside,
        own,
        alive,
        about,
        (captured, subst (λ xs. Member settled.0 xs) (sym payments) kept, theirs, same_id),
        (
          λ e. elim (forth e) [
            | inl done ↦ absurd (not_still_recovered case.status alive done)
            | inr (proof, flying) ↦ (proof.1, flying)
          ],
          λ (same, flying). back (inr ((captured, same), flying)),
        ),
      )

  case_found :
      (order : OrderModel) (found : Option (RecoveryCaseModel F)) {r : VerificationResult}
      {db' : Db F}
      → find (is_order merchant event.external_order_id) db.orders ≡ some order
      → scalar_one_or_none (select (is_active_case crypto now fresh order.id) db.cases) ≡ ok found
      → verify_case crypto now fresh event merchant order found db ≡ ok (some r, db')
      → Settles (r, db')
  case_found order none placed one e = cc
  case_found order (some case) placed one e =
      let (link, _, e₁) = bind-ok event.payment_link_id _ e in
      let same = ok_injective e₁ in
      subst Settles (pair_ext (some_injective (ap (λ x. x.0) same)) (ap (λ x. x.1) same)) (
        case-Settles order case (find (is_payment merchant event.external_payment_id) db.payments)
          link placed (scalar-Member _ one) refl)

  order-Settles :
      (found : Option OrderModel) {r : VerificationResult} {db' : Db F}
      → find (is_order merchant event.external_order_id) db.orders ≡ found
      → verify_order crypto now fresh event merchant found db ≡ ok (some r, db')
      → Settles (r, db')
  order-Settles none placed e = cc
  order-Settles (some order) placed e =
      let (found, one, e₁) =
        bind-ok (scalar_one_or_none (select (is_active_case crypto now fresh order.id) db.cases)) _
          e in
      case_found order found placed one e₁

  -- A webhook that leads to a verification settles the active case of its order: an order of the
  -- merchant with the event's external id, a stored case of that order that is APPROVED,
  -- EXECUTING, WAITING_EXTERNAL, VERIFYING or ESCALATED, which the result names, and the event's
  -- payment, which is stored as CAPTURED for the merchant under the event's id, or a fresh one where
  -- the event has none. The case is RECOVERED afterwards exactly when the payment has its currency
  -- and the case was EXECUTING, WAITING_EXTERNAL or VERIFYING.
  pub webhook-Settles :
      {r : VerificationResult} {db' : Db F}
      → verify_from_webhook_event crypto now fresh event merchant db ≡ ok (some r, db')
      → Settles (r, db')
  unfolding verify_from_webhook_event
  webhook-Settles e = elim (Bool-cases (is_captured_event event)) [
    | inr other ↦ absurd (cc (rw other at e))
    | inl captured ↦
        order-Settles (find (is_order merchant event.external_order_id) db.orders) refl
          (rw captured at e)
  ]
