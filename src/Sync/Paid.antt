-- ===== src/Sync/Paid.antt =====
-- The synchronization of an order leaves every PAID order as it is.
use razor_flow.Prelude.{
  ℕ, ◌≤◌, ◌≡◌, refl, ◌∙◌, subst, Option, none, some, arith, Text, Bool-cases, inl, inr, find,
  Member, ◌==◌, ok, bind-ok, ok_injective,
}
use razor_flow.Prelude.Json.{text_column, int_column}
use razor_flow.Domain.Enums.{OrderStatus, order_status_eq, payment_status_eq}
use razor_flow.Persistence.{Db, OrderModel}
use razor_flow.Persistence.Frame.{Frame}
use razor_flow.Persistence.Ids.{
  Descending, Descending-le, same_id, update-Member, update-Descending,
}
use razor_flow.Verification.{is_order}
use razor_flow.Webhooks.{Platform, ParsedRazorpayPaymentPayload}
use razor_flow.Webhooks.Dedup.{find-Member}
use razor_flow.Sync.Upserts.{order_reference, create_order, update_order, upsert_order, sync_order}

abbrev pub order_id : OrderModel → ℕ
order_id row = row.id

-- The ids of the orders fall below the next one.
abbrev pub OrdersFall : {F : Type 0} → Db F → Type 0
OrdersFall db = Descending order_id db.next_id db.orders

module _ {F : Type 0} where
  -- The PAID orders are still there, as they were, and the ids still fall.
  abbrev pub PaidKept : Db F → Db F → Type 0
  PaidKept db after =
      OrdersFall after
      × ((paid : OrderModel)
          → Member paid db.orders
          → paid.status ≡ OrderStatus.paid
          → Member paid after.orders)

  -- A call leaves the events alone, and the PAID orders where the ids fall.
  abbrev pub Keeps : Db F → Db F → Type 0
  Keeps db after = (after.raw_events ≡ db.raw_events) × (OrdersFall db → PaidKept db after)

  pub Keeps-trans : (a b c : Db F) → Keeps a b → Keeps b c → Keeps a c
  Keeps-trans a b c (e, k) (e', k') = (
    e' ∙ e,
    λ d. let (d₁, m₁) = k d in let (d₂, m₂) = k' d₁ in (d₂, λ paid m p. m₂ paid (m₁ paid m p) p),
  )

  pub Frame-Keeps : (db after : Db F) → Frame db after → Keeps db after
  Frame-Keeps db after (e, o, n) =
      (e, λ d. (rw o (Descending-le order_id _ _ _ n d), λ paid m p. rw o m))

module _ (py : Platform) (payload : ParsedRazorpayPaymentPayload) {F : Type 0} (merchant : ℕ)
    (customer : Option ℕ) (db : Db F) where
  create-Keeps :
      (external : Text) {r : OrderModel × Db F}
      → create_order py payload merchant customer external db ≡ ok r
      → Keeps db r.1
  create-Keeps external e =
      let (amount, e₁, h₁) = bind-ok (int_column payload.amount_cents) _ e in
      let (currency, e₂, h₂) = bind-ok (text_column payload.currency) _ h₁ in
      subst (λ x. Keeps db x.1) (ok_injective h₂)
        (refl, λ falling. ((omega arith, falling), λ paid inside done. inr inside))

  update-Keeps :
      (found : OrderModel)
      → Member found db.orders
      → Keeps db (update_order py payload merchant customer found db).1
  update-Keeps found m = elim (Bool-cases (found.status == OrderStatus.paid)) [
    | inl already ↦ rw already (refl, λ falling. (falling, λ paid inside done. inside))
    | inr unpaid ↦ rw unpaid (
      refl,
      λ falling. (
        update-Descending order_id db.next_id found.id _ db.orders refl falling,
        λ paid inside done.
            update-Member order_id found.id _ paid db.orders
              (λ e.
                let same = same_id order_id db.next_id db.orders paid found falling inside m e in
                absurd (ground arith))
              inside,
      ),
    )
  ]

  upsert-Keeps :
      (external : Text) (found : Option OrderModel) {r : OrderModel × Db F}
      → find (is_order merchant (some external)) db.orders ≡ found
      → upsert_order py payload merchant customer external found db ≡ ok r
      → Keeps db r.1
  upsert-Keeps external none look e = create-Keeps external e
  upsert-Keeps external (some found) look e =
      subst (λ x. Keeps db x.1) (ok_injective e)
        (update-Keeps found (find-Member (is_order merchant (some external)) db.orders look).0)

  pub order-Keeps :
      {r : OrderModel × Db F} → sync_order py payload merchant customer db ≡ ok r → Keeps db r.1
  unfolding sync_order
  order-Keeps e =
      let (external, e₁, h) = bind-ok (order_reference py payload) _ e in
      upsert-Keeps external _ refl h

  create-cases :
      (external : Text) {r : OrderModel × Db F}
      → create_order py payload merchant customer external db ≡ ok r
      → (r.1.cases ≡ db.cases) × (db.next_id ≤ r.1.next_id)
  create-cases external e =
      let (amount, e₁, h₁) = bind-ok (int_column payload.amount_cents) _ e in
      let (currency, e₂, h₂) = bind-ok (text_column payload.currency) _ h₁ in
      subst (λ x. (x.1.cases ≡ db.cases) × (db.next_id ≤ x.1.next_id)) (ok_injective h₂)
        (refl, omega arith)

  update-cases :
      (found : OrderModel)
      → ((update_order py payload merchant customer found db).1.cases ≡ db.cases)
        × (db.next_id ≤ (update_order py payload merchant customer found db).1.next_id)
  update-cases found = elim (Bool-cases (found.status == OrderStatus.paid)) [
    | inl already ↦ rw already (refl, omega arith)
    | inr unpaid ↦ rw unpaid (refl, omega arith)
  ]

  upserted-cases :
      (external : Text) (found : Option OrderModel) {r : OrderModel × Db F}
      → upsert_order py payload merchant customer external found db ≡ ok r
      → (r.1.cases ≡ db.cases) × (db.next_id ≤ r.1.next_id)
  upserted-cases external none e = create-cases external e
  upserted-cases external (some found) e =
      subst (λ x. (x.1.cases ≡ db.cases) × (db.next_id ≤ x.1.next_id)) (ok_injective e)
        (update-cases found)

  -- The cases are as they were.
  pub order-cases :
      {r : OrderModel × Db F}
      → sync_order py payload merchant customer db ≡ ok r
      → (r.1.cases ≡ db.cases) × (db.next_id ≤ r.1.next_id)
  unfolding sync_order
  order-cases e =
      let (external, e₁, h) = bind-ok (order_reference py payload) _ e in
      upserted-cases external (find (is_order merchant (some external)) db.orders) h
