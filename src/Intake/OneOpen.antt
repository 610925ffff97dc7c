-- ===== src/Intake/OneOpen.antt =====
-- Each order has at most one open case: the invariant, and the creation of cases.
use razor_flow.Prelude.{
  ℕ, ◌≤◌, ◌≡◌, refl, sym, ◌∙◌, subst, Bool, true, Option, none, some, List, [], ◌∷◌, arith, select,
  length, Member, nat_beq, nat_beq_iff, Bool-cases, inl, inr, ok, bind-ok, ok_injective, mem-select,
}
use razor_flow.Domain.Enums.{RecoveryCaseStatus, FailureCategory, case_status_eq}
use razor_flow.Domain.StateMachine.{can_transition, validate_transition}
use razor_flow.Audit.{Crypto}
use razor_flow.Persistence.{Db, RecoveryCaseModel, OrderModel, PaymentModel, save_case, update_row}
use razor_flow.Persistence.Ids.{Descending, Descending-le, same_id, update-Descending}
use razor_flow.Persistence.Lookup.{scalar_none, scalar-Member}
use razor_flow.Intake.Cases.{
  is_open_case, get_active_case_for_order, CaseOutcome, new_case, create_or_append,
  create_or_update_recovery_case,
}

module _ {F : Type 0} where
  abbrev pub case_id : RecoveryCaseModel F → ℕ
  case_id row = row.id

  -- The ids of the cases fall, and no order has two open cases.
  abbrev pub OneOpen : List (RecoveryCaseModel F) → Type 0
  OneOpen cases = (merchant order : ℕ) → length (select (is_open_case merchant order) cases) ≤ 1

  abbrev pub CasesOk : Db F → Type 0
  CasesOk db = Descending case_id db.next_id db.cases × OneOpen db.cases

  pub CasesOk-same :
      (db after : Db F)
      → after.cases ≡ db.cases
      → db.next_id ≤ after.next_id
      → CasesOk db
      → CasesOk after
  CasesOk-same db after e n (d, one) = (rw e (Descending-le case_id _ _ _ n d), rw e one)

  -- A write that opens no row adds no open case.
  select-update_row :
      (p : RecoveryCaseModel F → Bool) (k : ℕ) (new : RecoveryCaseModel F)
      (rows : List (RecoveryCaseModel F))
      → ((row : RecoveryCaseModel F) → Member row rows → row.id ≡ k → p new ≡ true → p row ≡ true)
      → length (select p (update_row case_id k new rows)) ≤ length (select p rows)
  select-update_row p k new [] h = omega arith
  select-update_row p k new (row ∷ rows) h =
      let below = select-update_row p k new rows (λ r m. h r (inr m)) in
      elim (Bool-cases (nat_beq row.id k)) [
        | inl same ↦ elim (Bool-cases (p new)) [
          | inl on ↦
              rw (same, on, h row (inl refl) ((nat_beq_iff row.id k).0 same) on)
                (omega (arith, below))
          | inr off ↦ elim (Bool-cases (p row)) [
            | inl was ↦ rw (same, off, was) (omega (arith, below))
            | inr was ↦ rw (same, off, was) below
          ]
        ]
        | inr other ↦ elim (Bool-cases (p row)) [
          | inl was ↦ rw (other, was) (omega (arith, below))
          | inr was ↦ rw (other, was) below
        ]
      ]

  -- A case is written that keeps its merchant and its order, and is open only if it was.
  pub save-CasesOk :
      (db : Db F) (case new : RecoveryCaseModel F)
      → Member case db.cases
      → new.id ≡ case.id
      → ((merchant order : ℕ)
          → is_open_case merchant order new ≡ true
          → is_open_case merchant order case ≡ true)
      → CasesOk db
      → CasesOk (save_case new db)
  unfolding save_case
  save-CasesOk db case new m e closes (d, one) = (
    update-Descending case_id db.next_id new.id new db.cases refl d,
    λ merchant order.
        let fewer =
          select-update_row (is_open_case merchant order) new.id new db.cases (λ row m' e' on.
            subst (λ r. is_open_case merchant order r ≡ true)
              (same_id case_id db.next_id db.cases case row d m m' (sym e ∙ sym e'))
              (closes merchant order on)) in
        omega (arith, fewer, one merchant order),
  )

  open_parts :
      (merchant order : ℕ) (row : RecoveryCaseModel F)
      → is_open_case merchant order row ≡ true
      → (row.merchant_id ≡ merchant) × (row.order_id ≡ order)
  open_parts merchant order row h = ground arith

  -- A case is opened where its order had none.
  opened-OneOpen :
      (new : RecoveryCaseModel F) (cases : List (RecoveryCaseModel F))
      → select (is_open_case new.merchant_id new.order_id) cases ≡ []
      → OneOpen cases
      → OneOpen (new ∷ cases)
  opened-OneOpen new cases empty one merchant order =
      elim (Bool-cases (is_open_case merchant order new)) [
        | inl on ↦
            let (m, o) = open_parts merchant order new on in
            let none_else : select (is_open_case merchant order) cases ≡ [] =
              sym (rw (m, o) refl) ∙ empty in
            rw (on, none_else) (omega arith)
        | inr off ↦ rw off (one merchant order)
      ]

module _ {F : Type 0} (crypto : Crypto) (now merchant : ℕ) (order : OrderModel)
    (payment : PaymentModel) (customer : Option ℕ) (category : FailureCategory) (transient : Bool)
    (db : Db F) where
  create_or_append-CasesOk :
      (found : Option (RecoveryCaseModel F)) {r : CaseOutcome F × Db F}
      → get_active_case_for_order merchant order.id db ≡ ok found
      → create_or_append crypto now merchant order payment customer category transient found db
        ≡ ok r
      → CasesOk db
      → CasesOk r.1
  unfolding get_active_case_for_order validate_transition can_transition
  create_or_append-CasesOk none look e (d, one) =
      subst (λ x. CasesOk x.1) (ok_injective e)
        (
          (omega arith, d),
          opened-OneOpen
              (new_case crypto now merchant order payment customer category transient db.next_id
                RecoveryCaseStatus.diagnosing)
              db.cases (scalar_none _ look) one,
        )
  create_or_append-CasesOk (some existing) look e good =
      let m =
        (mem-select (is_open_case merchant order.id) existing db.cases).0 (scalar-Member _ look) in
      subst (λ x. CasesOk x.1) (ok_injective e)
        (save-CasesOk db existing _ m.0 refl (λ _ _ h. h) good)

  -- The creation keeps the invariant.
  pub create_or_update-CasesOk :
      {r : CaseOutcome F × Db F}
      → create_or_update_recovery_case crypto now merchant order payment customer category transient
          db
        ≡ ok r
      → CasesOk db
      → CasesOk r.1
  unfolding create_or_update_recovery_case
  create_or_update-CasesOk e =
      let (found, look, h) = bind-ok (get_active_case_for_order merchant order.id db) _ e in
      create_or_append-CasesOk found look h
