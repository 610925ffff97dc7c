-- ===== src/Webhooks/Ingest.antt =====
-- `WebhookIngestionService`, and the endpoint that calls it.
use razor_flow.Prelude.{
  ℕ, ◌+◌, Bool, true, false, not, ◌&&◌, Option, none, some, List, ◌∷◌, ◌++◌, ◌==◌, Text, codes,
  text_eq, nat_beq, find, select, starts_with, Result, ok, raised, Error, ◌>>=◌, ◌>>◌, raise_unless,
  merchant_not_found, provider_config_not_found, authentication_failed, malformed_payload,
}
use razor_flow.Prelude.Int.{pos}
use razor_flow.Prelude.Json.{
  Json, null, number, text, object, no_members, get, is_true, text_column,
}
use razor_flow.Prelude.Python.{lower}
use razor_flow.Persistence.{Db, MerchantModel, MerchantProviderConfigModel, RawWebhookEventModel}
use razor_flow.Webhooks.Payload.{
  Platform, Headers, event_id_header, event_signature, verify_razorpay_signature,
}

-- `next(..., None)` of the provider configurations.
abbrev pub active_config : Text → MerchantModel → Option MerchantProviderConfigModel
active_config provider merchant =
    find (λ c. (c.provider == provider) && c.is_active) merchant.provider_configs

abbrev pub or_raise {ℓ} : {A : Type ℓ} → Option A → Error → Result A
or_raise none e = raised e
or_raise (some a) e = ok a

-- The slug is unique.
unfoldable pub resolve_merchant_and_config :
    List MerchantModel → Text → Text → Result (MerchantModel × MerchantProviderConfigModel)
resolve_merchant_and_config merchants slug provider = do
  merchant ←
      or_raise (find (λ row. (row.slug == slug) && row.is_active) merchants) merchant_not_found
  config ← or_raise (active_config provider merchant) provider_config_not_found
  ok (merchant, config)

-- `uq_merchant_event`: the two columns are unique together.
abbrev pub is_event : ℕ → Text → RawWebhookEventModel → Bool
is_event merchant event_id row = nat_beq row.merchant_id merchant && (row.event_id == event_id)

module _ {F : Type 0} where
  -- The insertion: another session may have committed `concurrent` rows since the look-up. With a
  -- duplicate among the `rows` the database refuses it, the session is rolled back, and the query
  -- finds the duplicate.
  abbrev pub insert_event :
      List RawWebhookEventModel
      → RawWebhookEventModel
      → Option RawWebhookEventModel
      → Db F
      → (Bool × Option RawWebhookEventModel) × Db F
  insert_event rows row (some duplicate) db =
      ((true, some duplicate), record db { raw_events = rows })
  insert_event rows row none db =
      ((false, some row), record db { raw_events = row ∷ rows; next_id = db.next_id + 1 })

module _ (py : Platform) where
  -- `{k: v for k, v in headers.items() if not k.lower().startswith("authorization")}`
  abbrev pub kept_headers : Headers → Headers
  kept_headers headers =
      select (λ h. not (starts_with (codes "authorization") (lower py.cases h.0))) headers

  -- The id of an event: a header, else the payload's, else a text of the payload.
  abbrev pub fallback_event_id : Json → Json → Result Text
  fallback_event_id payload_json event_type = do
    payload ← get payload_json (codes "payload") (object no_members)
    payment ← get payload (codes "payment") (object no_members)
    entity ← get payment (codes "entity") (object no_members)
    payment_id ← get entity (codes "id") (text (codes "none"))
    created_at ← get payload_json (codes "created_at") (number (pos 0))
    ok (event_signature py payment_id event_type created_at)

  abbrev payload_event_id : Json → Json → Json → Result Text
  payload_event_id payload_json event_type event_id = elim (is_true event_id) [
    | true ↦ text_column event_id
    | false ↦ fallback_event_id payload_json event_type
  ]

  abbrev pub ingested_event_id : Option Text → Json → Json → Result Text
  ingested_event_id (some id) payload_json event_type = ok id
  ingested_event_id none payload_json event_type = do
    event_id ← get payload_json (codes "event_id") null
    payload_event_id payload_json event_type event_id

  -- The merchant of a request with a valid signature.
  abbrev pub authenticate : Text → Text → Text → List MerchantModel → Result MerchantModel
  authenticate merchant_slug raw_body signature merchants = do
    resolved ← resolve_merchant_and_config merchants merchant_slug (codes "RAZORPAY")
    is_valid ← verify_razorpay_signature py raw_body signature resolved.1.webhook_secret_enc
    raise_unless is_valid authentication_failed >> ok resolved.0

  module _ {F : Type 0} where
    module _ (concurrent : List RawWebhookEventModel) (merchant_id : ℕ) (event_id : Text)
        (event_type payload_json : Json) (signature : Text) (headers : Headers) (db : Db F) where
      abbrev pub event_row : Text → RawWebhookEventModel
      event_row event_type_text = record {
        id = db.next_id;
        merchant_id = merchant_id;
        event_id = event_id;
        event_type = event_type_text;
        payload = payload_json;
        signature = signature;
        headers = kept_headers headers;
        processed = false;
        processing_error = none;
      }

      -- From the look-up of the event on.
      abbrev pub store_event :
          Option RawWebhookEventModel → Result ((Bool × Option RawWebhookEventModel) × Db F)
      store_event (some existing) = ok ((true, some existing), db)
      store_event none = do
        event_type_text ← text_column event_type
        let rows = concurrent ++ db.raw_events in
            ok (
              insert_event rows (event_row event_type_text)
                (find (is_event merchant_id event_id) rows) db)

    -- Whether the event is a duplicate, its row, and the database after.
    unfoldable pub ingest_razorpay_webhook :
        List RawWebhookEventModel
        → Text
        → Text
        → Text
        → Headers
        → Db F
        → Result ((Bool × Option RawWebhookEventModel) × Db F)
    ingest_razorpay_webhook concurrent merchant_slug raw_body signature headers db = do
      merchant ← authenticate merchant_slug raw_body signature db.merchants
      payload_json ← or_raise (py.json_loads raw_body) malformed_payload
      event_type ← get payload_json (codes "event") (text (codes "unknown"))
      event_id ← ingested_event_id (event_id_header headers) payload_json event_type
      store_event concurrent merchant.id event_id event_type payload_json signature headers db
          (find (is_event merchant.id event_id) db.raw_events)

-- What the endpoint answers.
pub data WebhookResponse : Type 0 where
  accepted : RawWebhookEventModel → WebhookResponse
  duplicate_ignored : Text → WebhookResponse
  http_error : ℕ → WebhookResponse

-- The status of an exception, 500 where the endpoint does not catch it.
abbrev pub status_code : Error → ℕ
status_code authentication_failed = 401
status_code merchant_not_found = 404
status_code provider_config_not_found = 404
status_code malformed_payload = 400
status_code _ = 500

module _ {F : Type 0} where
  abbrev respond :
      Db F
      → Result ((Bool × Option RawWebhookEventModel) × Db F)
      → (WebhookResponse × Option ℕ) × Db F
  respond db (raised e) = ((WebhookResponse.http_error (status_code e), none), db)
  respond db (ok ((true, none), after)) =
      ((WebhookResponse.duplicate_ignored (codes "unknown"), none), after)
  respond db (ok ((true, some row), after)) =
      ((WebhookResponse.duplicate_ignored row.event_id, none), after)
  respond db (ok ((false, none), after)) =
      ((WebhookResponse.duplicate_ignored (codes "unknown"), none), after)
  respond db (ok ((false, some row), after)) = ((WebhookResponse.accepted row, some row.id), after)

  -- The response, the event that is queued for the worker, and the database after.
  unfoldable pub ingest_razorpay_webhook_endpoint :
      Platform
      → List RawWebhookEventModel
      → Text
      → Text
      → Text
      → Headers
      → Db F
      → (WebhookResponse × Option ℕ) × Db F
  ingest_razorpay_webhook_endpoint py concurrent merchant_slug raw_body signature headers db =
      respond db (ingest_razorpay_webhook py concurrent merchant_slug raw_body signature headers db)
