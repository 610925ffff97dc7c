-- ===== src/Webhooks/Twice.antt =====
-- A webhook that arrives again is a duplicate.
use razor_flow.Prelude.{
  ℕ, ◌≤◌, ◌≡◌, refl, subst, Bool, true, Option, none, some, List, ◌++◌, arith, Text, codes,
  Option-cases, inl, inr, find, Result, ok, bind-ok, ok_injective, text_beq_refl, nat_beq_iff,
  text_eq, malformed_payload,
}
use razor_flow.Prelude.Json.{Json, get, text, text_column}
use razor_flow.Persistence.{Db, MerchantModel, RawWebhookEventModel}
use razor_flow.Webhooks.Payload.{Platform, Headers, event_id_header}
use razor_flow.Webhooks.Ingest.{
  or_raise, is_event, ingested_event_id, insert_event, store_event, authenticate,
  ingest_razorpay_webhook, event_row,
}

is_event_self : (row : RawWebhookEventModel) → is_event row.merchant_id row.event_id row ≡ true
is_event_self row =
    rw ((nat_beq_iff row.merchant_id row.merchant_id).1 refl, text_beq_refl row.event_id) refl

module _ {F : Type 0} where
  -- What an event that was received left: its row, under its merchant and id.
  abbrev pub IsKept : ℕ → Text → Db F → (Bool × Option RawWebhookEventModel) × Db F → Type 0
  IsKept merchant_id event_id db r =
      (row : RawWebhookEventModel) × (r.0.1 ≡ some row)
      × (find (is_event merchant_id event_id) r.1.raw_events ≡ some row)
      × (r.1.merchants ≡ db.merchants)

  insert-IsKept :
      (rows : List RawWebhookEventModel) (row : RawWebhookEventModel)
      (found : Option RawWebhookEventModel) (db : Db F)
      → find (is_event row.merchant_id row.event_id) rows ≡ found
      → IsKept row.merchant_id row.event_id db (insert_event rows row found db)
  insert-IsKept rows row none db new = (row, refl, rw (is_event_self row) refl, refl)
  insert-IsKept rows row (some other) db e = (other, refl, e, refl)

module _ (py : Platform) {F : Type 0} (concurrent : List RawWebhookEventModel) (merchant_id : ℕ)
    (event_id : Text) (event_type payload : Json) (signature : Text) (headers : Headers)
    (db : Db F) where
  abbrev stored : Option RawWebhookEventModel → Result ((Bool × Option RawWebhookEventModel) × Db F)
  stored = store_event py concurrent merchant_id event_id event_type payload signature headers db

  store-IsKept :
      {r : (Bool × Option RawWebhookEventModel) × Db F}
      → stored (find (is_event merchant_id event_id) db.raw_events) ≡ ok r
      → IsKept merchant_id event_id db r
  store-IsKept h = elim (Option-cases (find (is_event merchant_id event_id) db.raw_events)) [
    | inl new ↦
        let (kind, e, h₁) = bind-ok (text_column event_type) _ (rw new at h) in
        subst (IsKept merchant_id event_id db) (ok_injective h₁) (
          insert-IsKept (concurrent ++ db.raw_events)
            (event_row py concurrent merchant_id event_id event_type payload signature headers db
              kind)
            _ db refl)
    | inr (row, e) ↦
        subst (IsKept merchant_id event_id db) (ok_injective (rw e at h)) (row, refl, e, refl)
  ]

  insert-orders :
      (rows : List RawWebhookEventModel) (row : RawWebhookEventModel)
      (found : Option RawWebhookEventModel)
      → ((insert_event rows row found db).1.orders ≡ db.orders)
        × ((insert_event rows row found db).1.cases ≡ db.cases)
        × (db.next_id ≤ (insert_event rows row found db).1.next_id)
  insert-orders rows row none = (refl, refl, omega arith)
  insert-orders rows row (some other) = (refl, refl, omega arith)

  store-orders :
      (found : Option RawWebhookEventModel) {r : (Bool × Option RawWebhookEventModel) × Db F}
      → stored found ≡ ok r
      → (r.1.orders ≡ db.orders) × (r.1.cases ≡ db.cases) × (db.next_id ≤ r.1.next_id)
  store-orders none h =
      let (kind, e, h₁) = bind-ok (text_column event_type) _ h in
      subst (λ r. (r.1.orders ≡ db.orders) × (r.1.cases ≡ db.cases) × (db.next_id ≤ r.1.next_id))
        (ok_injective h₁) (insert-orders (concurrent ++ db.raw_events) _ _)
  store-orders (some row) h =
      subst (λ r. (r.1.orders ≡ db.orders) × (r.1.cases ≡ db.cases) × (db.next_id ≤ r.1.next_id))
        (ok_injective h) (refl, refl, omega arith)

module _ (py : Platform) {F : Type 0} (concurrent : List RawWebhookEventModel)
    (slug raw_body signature : Text) (headers : Headers) (db : Db F) where
  -- The values that a call which returned went through.
  pub ingest-ok :
      {r : (Bool × Option RawWebhookEventModel) × Db F}
      → ingest_razorpay_webhook py concurrent slug raw_body signature headers db ≡ ok r
      → (merchant : MerchantModel) × (payload : Json) × (kind : Json) × (event_id : Text)
        × (authenticate py slug raw_body signature db.merchants ≡ ok merchant)
        × (or_raise (py.json_loads raw_body) malformed_payload ≡ ok payload)
        × (get payload (codes "event") (text (codes "unknown")) ≡ ok kind)
        × (ingested_event_id py (event_id_header headers) payload kind ≡ ok event_id)
        × (store_event py concurrent merchant.id event_id kind payload signature headers db
              (find (is_event merchant.id event_id) db.raw_events)
            ≡ ok r)
  unfolding ingest_razorpay_webhook
  ingest-ok h =
      let (merchant, e, h₁) = bind-ok (authenticate py slug raw_body signature db.merchants) _ h in
      let (payload, e₁, h₂) = bind-ok (or_raise (py.json_loads raw_body) malformed_payload) _ h₁ in
      let (kind, e₂, h₃) = bind-ok (get payload (codes "event") (text (codes "unknown"))) _ h₂ in
      let (event_id, e₃, h₄) =
        bind-ok (ingested_event_id py (event_id_header headers) payload kind) _ h₃ in
      (merchant, payload, kind, event_id, e, e₁, e₂, e₃, h₄)

  -- A webhook that is received leaves the orders and the cases alone.
  pub ingest-orders :
      {r : (Bool × Option RawWebhookEventModel) × Db F}
      → ingest_razorpay_webhook py concurrent slug raw_body signature headers db ≡ ok r
      → (r.1.orders ≡ db.orders) × (r.1.cases ≡ db.cases) × (db.next_id ≤ r.1.next_id)
  ingest-orders h =
      let (merchant, payload, kind, event_id, e, e₁, e₂, e₃, h₄) = ingest-ok h in
      store-orders py concurrent merchant.id event_id kind payload signature headers db _ h₄

  -- A request that was received once, as a new event or as a duplicate, is a duplicate when it
  -- arrives again: the answer is the row of the event that is stored under its id, and the database
  -- stays as it is.
  pub ingest_twice :
      (concurrent' : List RawWebhookEventModel) {r : (Bool × Option RawWebhookEventModel) × Db F}
      → ingest_razorpay_webhook py concurrent slug raw_body signature headers db ≡ ok r
      → (row : RawWebhookEventModel) × (r.0.1 ≡ some row)
        × (ingest_razorpay_webhook py concurrent' slug raw_body signature headers r.1
            ≡ ok ((true, some row), r.1))
  unfolding ingest_razorpay_webhook
  ingest_twice concurrent' {r} h =
      let (merchant, payload, kind, event_id, e, e₁, e₂, e₃, h₄) = ingest-ok h in
      let (row, given, kept, same) =
        store-IsKept py concurrent merchant.id event_id kind payload signature headers db h₄ in
      (row, given, rw (same, e, e₁, e₂, e₃, kept) refl)
