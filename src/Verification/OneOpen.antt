-- ===== src/Verification/OneOpen.antt =====
-- A verification opens no case.
use razor_flow.Prelude.{
  ℕ, ◌≤◌, ◌≡◌, refl, sym, subst, Bool, true, false, not, ◌&&◌, Option, none, some, arith, Text,
  codes, Bool-cases, Option-cases, inl, inr, find, select, Member, mem-select, ok, bind-ok,
  ok_injective, contains, ◌==◌, nat_beq,
}
use razor_flow.Domain.Enums.{PaymentStatus, RecoveryCaseStatus, case_status_eq, payment_status_eq}
use razor_flow.Domain.StateMachine.{can_transition}
use razor_flow.Audit.{Crypto}
use razor_flow.Persistence.{
  Db, RecoveryCaseModel, OrderModel, PaymentModel, save_case, scalar_one_or_none,
}
use razor_flow.Persistence.Ids.{Descending-le}
use razor_flow.Persistence.Lookup.{scalar-Member}
use razor_flow.Intake.{closed_statuses, is_open_case}
use razor_flow.Intake.OneOpen.{CasesOk, CasesOk-same, save-CasesOk, case_id}
use razor_flow.Verification.Recover.{
  VerificationResult, recovered_status, get_outcome, recovered_case, recover,
  verify_and_recover_case,
}
use razor_flow.Verification.Sources.{
  CapturedEvent, is_captured_event, is_active_case, settle, verify_case, verify_order, is_order,
  is_payment, verify_from_webhook_event,
}
use razor_flow.Verification.Recovered.{branches}

recovered_open :
    (s : RecoveryCaseStatus)
    → not (contains (recovered_status s) closed_statuses) ≡ true
    → not (contains s closed_statuses) ≡ true
unfolding recovered_status can_transition
recovered_open s h = ground arith

and_last :
    (a b : Bool) {c c' : Bool}
    → (c ≡ true → c' ≡ true)
    → (a && b && c) ≡ true
    → (a && b && c') ≡ true
and_last true true f h = f h
and_last true false f h = cc
and_last false b f h = cc

module _ {F : Type 0} (crypto : Crypto) (now : ℕ) (source : Text) (reference : Option Text)
    (case : RecoveryCaseModel F) (payment : PaymentModel) (db : Db F)
    (m : Member case db.cases) where
  case_open :
      (merchant order : ℕ)
      → is_open_case merchant order (recovered_case crypto now source reference case payment) ≡ true
      → is_open_case merchant order case ≡ true
  case_open merchant order h =
      and_last (nat_beq case.merchant_id merchant) (nat_beq case.order_id order)
        (recovered_open case.status) h

  recover-CasesOk : CasesOk db → CasesOk (recover crypto now source reference case payment db).1
  unfolding recover save_case
  recover-CasesOk good =
      let saved =
        save-CasesOk db case (recovered_case crypto now source reference case payment) m refl
          case_open good in
      elim (Option-cases (get_outcome case.id db.outcomes)) [
        | inl new ↦ rw new (Descending-le case_id db.next_id _ _ (omega arith) saved.0, saved.1)
        | inr (outcome, e) ↦ rw e saved
      ]

  pub verify-CasesOk :
      CasesOk db → CasesOk (verify_and_recover_case crypto now source reference case payment db).1
  verify-CasesOk good = elim (branches crypto now source reference case payment db) [
    | inl (_, _, _, e) ↦ subst CasesOk (sym e) good
    | inr (inl (_, _, _, _, e)) ↦ subst CasesOk (sym e) good
    | inr (inr (_, _, e)) ↦ subst (λ x. CasesOk x.1) (sym e) (recover-CasesOk good)
  ]

module _ {F : Type 0} (crypto : Crypto) (now : ℕ) (fresh : Text) (event : CapturedEvent)
    (merchant : ℕ) (db : Db F) where
  settle-cases :
      (order : OrderModel) (found : Option PaymentModel)
      → ((settle crypto now fresh event merchant order found db).1.cases ≡ db.cases)
        × (db.next_id ≤ (settle crypto now fresh event merchant order found db).1.next_id)
  settle-cases order none = (refl, omega arith)
  settle-cases order (some payment) = elim (Bool-cases (payment.status == PaymentStatus.captured)) [
    | inl captured ↦ rw captured (refl, omega arith)
    | inr pending ↦ rw pending (refl, omega arith)
  ]

  verify_case-CasesOk :
      (order : OrderModel) (found : Option (RecoveryCaseModel F))
      {r : Option VerificationResult × Db F}
      → scalar_one_or_none (select (is_active_case crypto now fresh order.id) db.cases) ≡ ok found
      → verify_case crypto now fresh event merchant order found db ≡ ok r
      → CasesOk db
      → CasesOk r.1
  verify_case-CasesOk order none look e good = subst (λ x. CasesOk x.1) (ok_injective e) good
  verify_case-CasesOk order (some case) look e good =
      let (link, _, e₁) = bind-ok event.payment_link_id _ e in
      let found = find (is_payment merchant event.external_payment_id) db.payments in
      let settled = settle crypto now fresh event merchant order found db in
      let (same, more) = settle-cases order found in
      let m =
        (mem-select (is_active_case crypto now fresh order.id) case db.cases).0
          (scalar-Member _ look) in
      subst (λ x. CasesOk x.1) (ok_injective e₁)
        (verify-CasesOk crypto now (codes "WEBHOOK_EVENT") link case settled.0 settled.1
          (rw same m.0) (CasesOk-same db settled.1 same more good))

  verify_order-CasesOk :
      (found : Option OrderModel) {r : Option VerificationResult × Db F}
      → verify_order crypto now fresh event merchant found db ≡ ok r
      → CasesOk db
      → CasesOk r.1
  verify_order-CasesOk none e good = subst (λ x. CasesOk x.1) (ok_injective e) good
  verify_order-CasesOk (some order) e good =
      let (found, look, h) =
        bind-ok (scalar_one_or_none (select (is_active_case crypto now fresh order.id) db.cases)) _
          e in
      verify_case-CasesOk order found look h good

  -- A webhook of a captured payment keeps the invariant.
  pub webhook-CasesOk :
      {r : Option VerificationResult × Db F}
      → verify_from_webhook_event crypto now fresh event merchant db ≡ ok r
      → CasesOk db
      → CasesOk r.1
  unfolding verify_from_webhook_event
  webhook-CasesOk e good = elim (Bool-cases (is_captured_event event)) [
    | inr other ↦ subst (λ x. CasesOk x.1) (ok_injective (rw other at e)) good
    | inl captured ↦
        verify_order-CasesOk (find (is_order merchant event.external_order_id) db.orders)
          (rw captured at e) good
  ]
