-- ===== src/Worker/Late.antt =====
-- Failures that the pipeline mishandles: a late one of a paid order, and one with no notes.
use razor_flow.Prelude.{
  ℕ, ◌≡◌, refl, sym, ap, ◌∙◌, false, some, [], Text, codes, inl, inr, find, Result, ok, raised,
  Error, bind-ok, ok_injective, nat_beq, ◌⊎◌,
}
use razor_flow.Prelude.Json.{Json, number, text, null, array, object, no_members, Items, get}
use razor_flow.Prelude.Int.{pos}
use razor_flow.Domain.Enums.{order_status_eq}
use razor_flow.Domain.Floats.{Floats}
use razor_flow.Audit.{Crypto}
use razor_flow.Persistence.{Db, RawWebhookEventModel}
use razor_flow.Webhooks.{
  Platform, Headers, ParsedRazorpayPaymentPayload, parse_payload, payment_entity_of,
  check_timestamp,
}
use razor_flow.Worker.Replay.{process_twice}
use razor_flow.Worker.Pipeline.{PipelineResult, mark_processed, execute_ingestion_pipeline}

Result-cases : {A : Type 0} (r : Result A) → ((a : A) × (r ≡ ok a)) ⊎ ((e : Error) × (r ≡ raised e))
Result-cases (ok a) = inl (a, refl)
Result-cases (raised e) = inr (e, refl)

-- A payload that was parsed has an entity whose notes are a dictionary.
parse-notes :
    (py : Platform) (j : Json) (headers : Headers) {p : ParsedRazorpayPaymentPayload}
    → parse_payload py j headers ≡ ok p
    → (entity : Json) × (notes : Json) × (name : Json) × (payment_entity_of py j ≡ ok entity)
      × (get entity (codes "notes") (object no_members) ≡ ok notes)
      × (get notes (codes "customer_name") null ≡ ok name)
unfolding parse_payload
parse-notes py j headers h =
    let (kind, e₁, h₁) = bind-ok (get j (codes "event") (text (codes "unknown"))) _ h in
    let (time, e₂, h₂) = bind-ok (get j (codes "created_at") null) _ h₁ in
    let (_, e₃, h₃) = bind-ok (check_timestamp time) _ h₂ in
    let (entity, found, h₄) = bind-ok (payment_entity_of py j) _ h₃ in
    let (id, e₅, h₅) = bind-ok (get entity (codes "id") (text [])) _ h₄ in
    let (order, e₆, h₆) = bind-ok (get entity (codes "order_id") null) _ h₅ in
    let (amount, e₇, h₇) = bind-ok (get entity (codes "amount") (number (pos 0))) _ h₆ in
    let (currency, e₈, h₈) = bind-ok (get entity (codes "currency") (text (codes "INR"))) _ h₇ in
    let (status, e₉, h₉) = bind-ok (get entity (codes "status") (text (codes "failed"))) _ h₈ in
    let (email, g₁, k₁) = bind-ok (get entity (codes "email") null) _ h₉ in
    let (phone, g₂, k₂) = bind-ok (get entity (codes "contact") null) _ k₁ in
    let (notes, g₃, k₃) = bind-ok (get entity (codes "notes") (object no_members)) _ k₂ in
    let (name, g₄, k₄) = bind-ok (get notes (codes "customer_name") null) _ k₃ in
    (entity, notes, name, found, g₃, g₄)

list_name :
    (items : Items) {name : Json} → ¬ (get (array items) (codes "customer_name") null ≡ ok name)
list_name items h = cc

module _ (py : Platform) (fl : Floats) (crypto : Crypto) (now : ℕ) (fresh : Text) where
  open fl use {F}

  -- A stored event whose payment has a list for its notes, as a payment without notes may, is not
  -- parsed, is marked as processed all the same, and leaves orders, payments, customers and cases as
  -- they were: the failure that it reports opens no case, and the event is skipped ever after.
  pub notes_list-lost :
      (id : ℕ) (db : Db F) (row : RawWebhookEventModel) (entity : Json) (items : Items)
      → find (λ r. nat_beq r.id id) db.raw_events ≡ some row
      → row.processed ≡ false
      → payment_entity_of py row.payload ≡ ok entity
      → get entity (codes "notes") (object no_members) ≡ ok (array items)
      → (e : Error) × (after : Db F) × (execute_ingestion_pipeline py fl crypto now fresh id db
          ≡ ok (PipelineResult.parse_failed e, after))
        × (execute_ingestion_pipeline py fl crypto now fresh id after
            ≡ ok (PipelineResult.already_processed row.event_id, after))
        × (after.orders ≡ db.orders)
        × (after.payments ≡ db.payments)
        × (after.customers ≡ db.customers)
        × (after.cases ≡ db.cases)
  unfolding execute_ingestion_pipeline
  notes_list-lost id db row entity items look new found notes =
      elim (Result-cases (parse_payload py row.payload row.headers)) [
        | inl (p, e) ↦
            let (entity', notes', name, same, read, named) =
              parse-notes py row.payload row.headers e in
            let same_entity : entity ≡ entity' = ok_injective (sym found ∙ same) in
            let listed : array items ≡ notes' = ok_injective (
              sym notes
              ∙ (ap (λ x. get x (codes "notes") (object no_members)) same_entity ∙ read)) in
            absurd (list_name items (ap (λ x. get x (codes "customer_name") null) listed ∙ named))
        | inr (e, raises) ↦
            let ran : execute_ingestion_pipeline py fl crypto now fresh id db
                ≡ ok (
                  PipelineResult.parse_failed e,
                  mark_processed py fl crypto now fresh row (some e) db,
                ) =
              rw (look, new, raises) refl in
            (
              e,
              _,
              ran,
              process_twice py fl crypto now now fresh fresh id db row look ran,
              refl,
              refl,
              refl,
              refl,
            )
      ]
