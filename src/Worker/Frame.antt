-- ===== src/Worker/Frame.antt =====
-- What the steps of the pipeline leave alone: the stored events, and but for one step the orders.
use razor_flow.Prelude.{
  ℕ, ◌≡◌, refl, sym, subst, Bool, Option, none, some, arith, Text, codes, Bool-cases, Option-cases,
  inl, inr, find, select, ◌==◌, ok, bind-ok, ok_injective,
}
use razor_flow.Domain.Enums.{PaymentStatus, FailureCategory, payment_status_eq}
use razor_flow.Domain.Floats.{Floats}
use razor_flow.Domain.StateMachine.{validate_transition, can_transition}
use razor_flow.Audit.{Crypto}
use razor_flow.Persistence.{
  Db, RecoveryCaseModel, OrderModel, PaymentModel, CustomerModel, save_case, scalar_one_or_none,
}
use razor_flow.Persistence.Frame.{Frame, Frame-refl, Frame-trans, Quiet, Quiet-refl}
use razor_flow.Intake.{
  CaseOutcome, get_active_case_for_order, create_or_append, create_or_update_recovery_case,
}
use razor_flow.Verification.{
  CapturedEvent, VerificationResult, get_outcome, recover, verify_and_recover_case, settle,
  verify_case, verify_order, verify_from_webhook_event, is_active_case, is_captured_event, is_order,
  is_payment,
}
use razor_flow.Verification.Recovered.{branches}
use razor_flow.Sync.{enrich_customer_context, enrich_found}

module _ {F : Type 0} where
  module _ (crypto : Crypto) (now : ℕ) (source : Text) (reference : Option Text) where
    recover-Frame :
        (case : RecoveryCaseModel F) (payment : PaymentModel) (db : Db F)
        → Frame db (recover crypto now source reference case payment db).1
    unfolding recover save_case
    recover-Frame case payment db = elim (Option-cases (get_outcome case.id db.outcomes)) [
      | inl new ↦ rw new (refl, refl, omega arith)
      | inr (outcome, e) ↦ rw e (refl, refl, omega arith)
    ]

    verify-Frame :
        (case : RecoveryCaseModel F) (payment : PaymentModel) (db : Db F)
        → Frame db (verify_and_recover_case crypto now source reference case payment db).1
    verify-Frame case payment db = elim (branches crypto now source reference case payment db) [
      | inl (_, _, _, e) ↦ subst (Frame db) (sym e) (Frame-refl db)
      | inr (inl (_, _, _, _, e)) ↦ subst (Frame db) (sym e) (Frame-refl db)
      | inr (inr (_, _, e)) ↦ subst (λ x. Frame db x.1) (sym e) (recover-Frame case payment db)
    ]

  module _ (crypto : Crypto) (now : ℕ) (fresh : Text) (event : CapturedEvent) (merchant : ℕ)
      (db : Db F) where
    settle-Frame :
        (order : OrderModel) (found : Option PaymentModel)
        → Frame db (settle crypto now fresh event merchant order found db).1
    settle-Frame order none = (refl, refl, omega arith)
    settle-Frame order (some payment) =
        elim (Bool-cases (payment.status == PaymentStatus.captured)) [
          | inl captured ↦ rw captured (Frame-refl db)
          | inr pending ↦ rw pending (refl, refl, omega arith)
        ]

    verify_case-Frame :
        (order : OrderModel) (found : Option (RecoveryCaseModel F))
        {r : Option VerificationResult × Db F}
        → verify_case crypto now fresh event merchant order found db ≡ ok r
        → Frame db r.1
    verify_case-Frame order none e = subst (λ x. Frame db x.1) (ok_injective e) (Frame-refl db)
    verify_case-Frame order (some case) e =
        let (link, _, e₁) = bind-ok event.payment_link_id _ e in
        let found = find (is_payment merchant event.external_payment_id) db.payments in
        let settled = settle crypto now fresh event merchant order found db in
        let verified =
          verify_and_recover_case crypto now (codes "WEBHOOK_EVENT") link case settled.0
            settled.1 in
        let last = verify-Frame crypto now (codes "WEBHOOK_EVENT") link case settled.0 settled.1 in
        subst (λ x. Frame db x.1) (ok_injective e₁)
          (Frame-trans db settled.1 verified.1 (settle-Frame order found) last)

    verify_order-Frame :
        (found : Option OrderModel) {r : Option VerificationResult × Db F}
        → verify_order crypto now fresh event merchant found db ≡ ok r
        → Frame db r.1
    verify_order-Frame none e = subst (λ x. Frame db x.1) (ok_injective e) (Frame-refl db)
    verify_order-Frame (some order) e =
        let (found, one, e₁) =
          bind-ok (scalar_one_or_none (select (is_active_case crypto now fresh order.id) db.cases))
            _ e in
        verify_case-Frame order found e₁

    pub webhook-Frame :
        {r : Option VerificationResult × Db F}
        → verify_from_webhook_event crypto now fresh event merchant db ≡ ok r
        → Frame db r.1
    unfolding verify_from_webhook_event
    webhook-Frame e = elim (Bool-cases (is_captured_event event)) [
      | inr other ↦ subst (λ x. Frame db x.1) (ok_injective (rw other at e)) (Frame-refl db)
      | inl captured ↦
          verify_order-Frame (find (is_order merchant event.external_order_id) db.orders)
            (rw captured at e)
    ]

  module _ (crypto : Crypto) (now merchant : ℕ) (order : OrderModel) (payment : PaymentModel)
      (customer : Option ℕ) (category : FailureCategory) (transient : Bool) (db : Db F) where
    create_or_append-Frame :
        (found : Option (RecoveryCaseModel F)) {r : CaseOutcome F × Db F}
        → create_or_append crypto now merchant order payment customer category transient found db
          ≡ ok r
        → Frame db r.1
    unfolding save_case validate_transition can_transition
    create_or_append-Frame none e =
        subst (λ x. Frame db x.1) (ok_injective e) (refl, refl, omega arith)
    create_or_append-Frame (some existing) e =
        subst (λ x. Frame db x.1) (ok_injective e) (refl, refl, omega arith)

    pub case-Frame :
        {r : CaseOutcome F × Db F}
        → create_or_update_recovery_case crypto now merchant order payment customer category
            transient db
          ≡ ok r
        → Frame db r.1
    unfolding create_or_update_recovery_case
    case-Frame e =
        let (found, one, e₁) = bind-ok (get_active_case_for_order merchant order.id db) _ e in
        create_or_append-Frame found e₁

module _ (fl : Floats) (merchant : ℕ) where
  open fl use {F}

  enrich_found-Quiet :
      (customer : ℕ) (found : Option (CustomerModel F)) (db : Db F)
      → Quiet db (enrich_found fl merchant customer found db).1
  enrich_found-Quiet customer none db = Quiet-refl db
  enrich_found-Quiet customer (some row) db = ((refl, refl, omega arith), refl)

  pub enrich-Quiet :
      (customer : Option ℕ) (db : Db F)
      → Quiet db (enrich_customer_context fl merchant customer db).1
  unfolding enrich_customer_context
  enrich-Quiet none db = Quiet-refl db
  enrich-Quiet (some id) db = enrich_found-Quiet id _ db
