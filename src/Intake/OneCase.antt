-- ===== src/Intake/OneCase.antt =====
-- A failed payment opens one case for its order.
use razor_flow.Prelude.{
  ℕ, ◌+◌, ◌≡◌, refl, sym, ap, Bool, true, false, Option, none, some, List, [], ◌∷◌, arith, select,
  length, nat_beq_iff, ok,
}
use razor_flow.Domain.Enums.{RecoveryCaseStatus, FailureCategory, case_status_eq}
use razor_flow.Domain.StateMachine.{can_transition, validate_transition}
use razor_flow.Audit.{Crypto}
use razor_flow.Persistence.{
  Db, RecoveryCaseModel, OrderModel, PaymentModel, save_case, scalar_one_or_none, update_row,
}
use razor_flow.Persistence.Lookup.{scalar_none}
use razor_flow.Decision.{parse_category}
use razor_flow.Intake.Cases.{
  category_value, is_open_case, get_active_case_for_order, CaseOutcome, new_case, append_failure,
  create_or_update_recovery_case,
}

-- Reading back a stored category gives the category.
pub parse-category_value : (c : FailureCategory) → parse_category (category_value c) ≡ some c
unfolding parse_category
parse-category_value FailureCategory.user_authentication_dropoff = refl
parse-category_value FailureCategory.insufficient_funds = refl
parse-category_value FailureCategory.technical_gateway_timeout = refl
parse-category_value FailureCategory.bank_system_outage = refl
parse-category_value FailureCategory.permanent_instrument_decline = refl
parse-category_value FailureCategory.fraud_risk_block = refl
parse-category_value FailureCategory.unknown = refl

length-update_row :
    {A : Type 0} (id_of : A → ℕ) (k : ℕ) (new : A) (rows : List A)
    → length (update_row id_of k new rows) ≡ length rows
length-update_row id_of k new [] = refl
length-update_row id_of k new (row ∷ rows) = omega (arith, length-update_row id_of k new rows)

module _ {F : Type 0} (crypto : Crypto) (merchant : ℕ) (order : OrderModel) where
  new_open :
      (now : ℕ) (payment : PaymentModel) (customer : Option ℕ) (category : FailureCategory)
      (transient : Bool) (db : Db F)
      → get_active_case_for_order merchant order.id db ≡ ok none
      → scalar_one_or_none (
          select (is_open_case merchant order.id) (
            new_case crypto now merchant order payment customer category transient db.next_id
              RecoveryCaseStatus.diagnosing
            ∷ db.cases))
        ≡ ok (
            some (
              new_case crypto now merchant order payment customer category transient db.next_id
                RecoveryCaseStatus.diagnosing))
  unfolding get_active_case_for_order
  new_open now payment customer category transient db empty =
      rw
        (
          (nat_beq_iff merchant merchant).1 refl,
          (nat_beq_iff order.id order.id).1 refl,
          scalar_none (select (is_open_case merchant order.id) db.cases) empty,
        )
        refl

  append_found :
      (now : ℕ) (payment : PaymentModel) (customer : Option ℕ) (category : FailureCategory)
      (transient : Bool) (db : Db F) {existing : RecoveryCaseModel F}
      → get_active_case_for_order merchant order.id db ≡ ok (some existing)
      → create_or_update_recovery_case crypto now merchant order payment customer category transient
          db
        ≡ ok (
            append_failure crypto now merchant order payment customer category transient existing
              db)
  unfolding create_or_update_recovery_case
  append_found now payment customer category transient db found = rw found refl

  found_again :
      (db after : Db F) (case : RecoveryCaseModel F)
      → after.cases ≡ case ∷ db.cases
      → scalar_one_or_none (select (is_open_case merchant order.id) (case ∷ db.cases))
        ≡ ok (some case)
      → get_active_case_for_order merchant order.id after ≡ ok (some case)
  unfolding get_active_case_for_order
  found_again db after case rows one = rw rows one

  module _ (now : ℕ) (payment : PaymentModel) (customer : Option ℕ) (category : FailureCategory)
      (transient : Bool) (db : Db F)
      (empty : get_active_case_for_order merchant order.id db ≡ ok none) where
    -- The first failure of an order without an active case opens one, in DIAGNOSING.
    pub first_failure :
        (after : CaseOutcome F × Db F) × (create_or_update_recovery_case crypto now merchant order
            payment customer category transient db
          ≡ ok after)
        × (after.1.cases
            ≡ new_case crypto now merchant order payment customer category transient db.next_id
                RecoveryCaseStatus.diagnosing
              ∷ db.cases)
        × (after.0 ≡ record {
          case =
              new_case crypto now merchant order payment customer category transient db.next_id
                RecoveryCaseStatus.diagnosing;
          is_new = true;
        })
    unfolding create_or_update_recovery_case validate_transition can_transition
    first_failure = rw empty (_, refl, refl, refl)

    -- The first failure of an order without an active case opens a case for it, in DIAGNOSING and
    -- with no attempt made; a later failure of the order, while that is its state, is appended to
    -- the same case and opens none.
    pub new_case_once :
        (now' : ℕ) (payment' : PaymentModel) (customer' : Option ℕ) (category' : FailureCategory)
        (transient' : Bool)
        → (first : CaseOutcome F × Db F) × (second : CaseOutcome F × Db F)
          × (create_or_update_recovery_case crypto now merchant order payment customer category
                transient db
              ≡ ok first)
          × (create_or_update_recovery_case crypto now' merchant order payment' customer' category'
                transient' first.1
              ≡ ok second)
          × (first.0.is_new ≡ true)
          × (first.0.case.status ≡ RecoveryCaseStatus.diagnosing)
          × (first.0.case.current_attempt_count ≡ 0)
          × (length first.1.cases ≡ length db.cases + 1)
          × (second.0.is_new ≡ false)
          × (second.0.case.id ≡ first.0.case.id)
          × (second.0.case.status ≡ first.0.case.status)
          × (length second.1.cases ≡ length first.1.cases)
    unfolding save_case
    new_case_once now' payment' customer' category' transient' =
        let (first, opened, rows, told) = first_failure in
        (
          first,
          append_failure crypto now' merchant order payment' customer' category' transient'
              (new_case crypto now merchant order payment customer category transient db.next_id
                RecoveryCaseStatus.diagnosing)
              first.1,
          opened,
          append_found now' payment' customer' category' transient' first.1 (
              found_again db first.1 _ rows
                (new_open now payment customer category transient db empty)),
          ap (λ x. x.is_new) told,
          ap (λ x. x.case.status) told,
          ap (λ x. x.case.current_attempt_count) told,
          rw rows (omega arith),
          refl,
          ap (λ x. x.case.id) (sym told),
          ap (λ x. x.case.status) (sym told),
          length-update_row (λ row. row.id) _ _ first.1.cases,
        )
