-- ===== src/Verification/Sources.antt =====
-- `verify_from_webhook_event` and `poll_and_reconcile_case`: where a settling payment comes from.
use razor_flow.Prelude.{
  ℕ, ◌+◌, Bool, false, not, ◌&&◌, ◌||◌, Option, none, some, List, [], ◌∷◌, if◌then◌else◌, ◌==◌,
  find, select, contains, nat_beq, nat_eq, Text, codes, text_eq, Result, ok, raised, ◌>>=◌,
  case_not_found, merchant_not_found, gateway_unavailable,
}
use razor_flow.Prelude.Int.{ℤ}
use razor_flow.Domain.Enums.{
  OrderStatus, PaymentStatus, RecoveryCaseStatus, RecoveryActionType, case_status_eq, action_eq,
  payment_status_eq,
}
use razor_flow.Audit.{Crypto}
use razor_flow.Persistence.{
  has_merchant, Db, RecoveryCaseModel, RecoveryAttemptModel, PaymentModel, OrderModel, get_case,
  update_row, scalar_one_or_none,
}
use razor_flow.Execution.{truthy, GatewayPaymentLinkResult}
use razor_flow.Verification.Recover.{VerificationResult, verify_and_recover_case, not_verified}

-- The fields of `ParsedRazorpayPaymentPayload` that the service reads; the link id is
-- `raw_payload["payload"]["payment_link"]["entity"]["id"]`, or the error of reading it.
pub record CapturedEvent : Type 0 where
  pub event_type : Text
  pub status : Text
  pub external_order_id : Option Text
  pub external_payment_id : Text
  pub amount_cents : ℤ
  pub currency : Text
  pub payment_link_id : Result (Option Text)

abbrev pub is_captured_event : CapturedEvent → Bool
is_captured_event event =
    (event.event_type == codes "payment.captured")
    || (event.event_type == codes "payment_link.paid")
    || (event.event_type == codes "order.paid")
    || (event.status == codes "captured")

-- A comparison with NULL selects no row.
abbrev pub is_order : ℕ → Option Text → OrderModel → Bool
is_order merchant none row = false
is_order merchant (some external) row =
    nat_beq row.merchant_id merchant && (row.external_order_id == external)

abbrev pub active_statuses : List RecoveryCaseStatus
active_statuses =
    RecoveryCaseStatus.approved ∷ RecoveryCaseStatus.executing ∷ RecoveryCaseStatus.waiting_external
    ∷ RecoveryCaseStatus.verifying ∷ RecoveryCaseStatus.escalated ∷ []

abbrev pub is_payment : ℕ → Text → PaymentModel → Bool
is_payment merchant external row =
    nat_beq row.merchant_id merchant && (row.external_payment_id == external)

-- `external_payment_id or f"pay_wh_{...}"`
abbrev pub or_fresh : Text → Text → Text
or_fresh [] fresh = fresh
or_fresh (c ∷ text) fresh = c ∷ text

-- The reference of the newest link attempt that has one.
abbrev pub link_of : List RecoveryAttemptModel → Option Text
link_of [] = none
link_of (att ∷ attempts) =
    let rest = link_of attempts in
    elim (truthy att.gateway_reference_id) [
      | none ↦ rest
      | some link ↦ if att.action_type == RecoveryActionType.payment_link then some link else rest
    ]

module _ {F : Type 0} (crypto : Crypto) (now : ℕ) (fresh : Text) where
  abbrev pub is_active_case : ℕ → RecoveryCaseModel F → Bool
  is_active_case order_id row = nat_beq row.order_id order_id && contains row.status active_statuses

  -- The payment that settles, and the database that holds it.
  abbrev pub settle :
      CapturedEvent → ℕ → OrderModel → Option PaymentModel → Db F → PaymentModel × Db F
  settle event merchant order none db =
      let payment : PaymentModel = record {
        id = db.next_id;
        merchant_id = merchant;
        order_id = order.id;
        customer_id = none;
        external_payment_id = or_fresh event.external_payment_id fresh;
        amount_cents = event.amount_cents;
        currency = event.currency;
        status = PaymentStatus.captured;
      } in
      (payment, record db { payments = payment ∷ db.payments; next_id = db.next_id + 1 })
  settle event merchant order (some found) db =
      let payment : PaymentModel = record found { status = PaymentStatus.captured } in
      if not (found.status == PaymentStatus.captured)
      then (
        payment,
        record db { payments = update_row (λ row. row.id) found.id payment db.payments },
      )
      else (found, db)

  -- The settling payment, and the verification with the link of the event.
  abbrev pub verify_settled :
      CapturedEvent
      → ℕ
      → OrderModel
      → RecoveryCaseModel F
      → Option Text
      → Db F
      → Option VerificationResult × Db F
  verify_settled event merchant order case link db =
      let settled =
        settle event merchant order
          (find (is_payment merchant event.external_payment_id) db.payments) db in
      let after =
        verify_and_recover_case crypto now (codes "WEBHOOK_EVENT") link case settled.0 settled.1 in
      (some after.0, after.1)

  abbrev pub verify_case :
      CapturedEvent
      → ℕ
      → OrderModel
      → Option (RecoveryCaseModel F)
      → Db F
      → Result (Option VerificationResult × Db F)
  verify_case event merchant order none db = ok (none, db)
  verify_case event merchant order (some case) db = do
    link ← event.payment_link_id
    ok (verify_settled event merchant order case link db)

  abbrev pub verify_order :
      CapturedEvent → ℕ → Option OrderModel → Db F → Result (Option VerificationResult × Db F)
  verify_order event merchant none db = ok (none, db)
  verify_order event merchant (some order) db = do
    case ← scalar_one_or_none (select (is_active_case order.id) db.cases)
    verify_case event merchant order case db

  unfoldable pub verify_from_webhook_event :
      CapturedEvent → ℕ → Db F → Result (Option VerificationResult × Db F)
  verify_from_webhook_event event merchant db =
      if not (is_captured_event event)
      then ok (none, db)
      else verify_order event merchant (find (is_order merchant event.external_order_id) db.orders)
          db

  -- The branch of a link that the gateway reports as paid.
  abbrev pub settle_poll :
      RecoveryCaseModel F → Text → Option OrderModel → Db F → VerificationResult × Db F
  settle_poll case link none db = (not_verified case (codes "GATEWAY_POLL"), db)
  settle_poll case link (some order) db =
      let payment : PaymentModel = record {
        id = db.next_id;
        merchant_id = case.merchant_id;
        order_id = order.id;
        customer_id = none;
        external_payment_id = fresh;
        amount_cents = case.amount_at_risk_cents;
        currency = case.currency;
        status = PaymentStatus.captured;
      } in
      verify_and_recover_case crypto now (codes "GATEWAY_POLL") (some link) case payment
        (record db {
          orders =
              update_row (λ row. row.id) order.id (record order { status = OrderStatus.paid })
                db.orders;
          payments = payment ∷ db.payments;
          next_id = db.next_id + 1;
        })

  -- The gateway's answer about a link; it is not asked when there is no link.
  abbrev pub poll_link :
      RecoveryCaseModel F
      → Option Text
      → Option GatewayPaymentLinkResult
      → Db F
      → Result (VerificationResult × Db F)
  poll_link case none reply db = ok (not_verified case (codes "GATEWAY_POLL"), db)
  poll_link case (some link) none db = raised gateway_unavailable
  poll_link case (some link) (some link_status) db =
      if link_status.is_success && (link_status.status == codes "paid")
      then ok (settle_poll case link (find (λ row. nat_beq row.id case.order_id) db.orders) db)
      else ok (not_verified case (codes "GATEWAY_POLL"), db)

  abbrev poll_found :
      Option (RecoveryCaseModel F)
      → Option GatewayPaymentLinkResult
      → Db F
      → Result (VerificationResult × Db F)
  poll_found none reply db = raised case_not_found
  poll_found (some case) reply db =
      if not (has_merchant case.merchant_id db)
      then raised merchant_not_found
      else poll_link case (link_of (select (λ row. nat_beq row.case_id case.id) db.attempts)) reply
          db

  unfoldable pub poll_and_reconcile_case :
      ℕ → Option GatewayPaymentLinkResult → Db F → Result (VerificationResult × Db F)
  poll_and_reconcile_case case_id reply db = poll_found (get_case case_id db) reply db
