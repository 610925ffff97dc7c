-- ===== src/Webhooks/Payload.antt =====
-- `parse_razorpay_webhook` and `verify_razorpay_signature`. The decoding of JSON, Python's text of a
-- value in an f-string and the HMAC of a body under a secret are parameters, fields of `Platform`.
use razor_flow.Prelude.{
  ltb, Bool, true, false, not, ◌&&◌, ◌||◌, Option, none, some, List, [], ◌∷◌, ◌++◌, if◌then◌else◌,
  ◌==◌, Text, codes, text_eq, text_beq, Result, ok, raised, ◌>>=◌, raise_unless, type_error,
  timestamp_out_of_range,
}
use razor_flow.Prelude.Int.{ℤ, pos, negsuc, ltb_ℤ}
use razor_flow.Prelude.Json.{
  Json, null, flag, number, text, object, no_members, get, is_true, true_text,
}
use razor_flow.Prelude.Python.{CaseMap, strip, or_else}
use razor_flow.Domain.Enums.{FailureCategory}
use razor_flow.Webhooks.Taxonomy.{classify_razorpay_failure}

pub record Platform : Type 0 where
  pub cases : CaseMap
  -- `json.loads(body.decode("utf-8"))`, `none` where it raises
  pub json_loads : Text → Option Json
  -- f"{value}"
  pub format : Json → Text
  -- the hexadecimal HMAC-SHA256 of a body under a secret
  pub hmac_sha256 : Text → Text → Text

-- The headers of a request, by name.
abbrev pub Headers : Type 0
Headers = List (Text × Text)

abbrev pub header : Text → Headers → Option Text
header name [] = none
header name ((key, value) ∷ more) = if text_beq key name then some value else header name more

-- `headers.get("x-razorpay-event-id") or headers.get("X-Razorpay-Event-Id")`
abbrev pub event_id_header : Headers → Option Text
event_id_header headers =
    or_else (header (codes "x-razorpay-event-id") headers)
      (or_else (header (codes "X-Razorpay-Event-Id") headers) none)

-- The fields that the services read; the descriptive ones are left out.
pub record ParsedRazorpayPaymentPayload : Type 0 where
  pub event_id : Text
  pub event_type : Json
  pub external_payment_id : Json
  pub external_order_id : Json
  pub amount_cents : Json
  pub currency : Json
  pub status : Json
  pub customer_email : Json
  pub customer_contact : Json
  pub customer_name : Json
  pub failure_category : FailureCategory
  pub is_transient_failure : Bool
  pub raw_payload : Json

abbrev pub is_empty : Text → Bool
is_empty [] = true
is_empty (c ∷ cs) = false

-- The years 1 to 9999, in seconds.
abbrev in_datetime_range : ℤ → Bool
in_datetime_range z = not (ltb_ℤ z (negsuc 62135596799)) && ltb_ℤ z (pos 253402300800)

-- `datetime.fromtimestamp(event_timestamp_sec)` if that is true, which the times of the model do not
-- need, for its errors.
abbrev pub check_timestamp : Json → Result (Unit {0})
check_timestamp (number z) = raise_unless (in_datetime_range z) timestamp_out_of_range
check_timestamp (flag b) = ok tt
check_timestamp j = if is_true j then raised type_error else ok tt

abbrev pub is_ascii : Text → Bool
is_ascii [] = true
is_ascii (c ∷ cs) = ltb c 128 && is_ascii cs

-- `hmac.compare_digest` on texts, which takes ASCII alone.
abbrev pub compare_digest : Text → Text → Result Bool
compare_digest a b = if is_ascii a && is_ascii b then ok (a == b) else raised type_error

module _ (py : Platform) where
  unfoldable pub verify_razorpay_signature : Text → Text → Text → Result Bool
  verify_razorpay_signature raw_body signature webhook_secret =
      if is_empty signature || is_empty webhook_secret || is_empty raw_body
      then ok false
      else compare_digest (py.hmac_sha256 raw_body webhook_secret) (strip signature)

  -- f"evt_{payment_id}_{event_type}_{event_timestamp_sec}"
  abbrev pub event_signature : Json → Json → Json → Text
  event_signature payment_id event_type timestamp =
      codes "evt_"
      ++ py.format payment_id
      ++ codes "_"
      ++ py.format event_type
      ++ codes "_"
      ++ py.format timestamp

  -- payload -> payment -> entity
  abbrev pub payment_entity_of : Json → Result Json
  payment_entity_of payload_json = do
    payload ← get payload_json (codes "payload") (object no_members)
    payment ← get payload (codes "payment") (object no_members)
    get payment (codes "entity") (object no_members)

  abbrev pub event_id_of : Option Text → Json → Json → Json → Text
  event_id_of none payment_id event_type timestamp = event_signature payment_id event_type timestamp
  event_id_of (some id) payment_id event_type timestamp = id

  -- The function on the decoded payload.
  unfoldable pub parse_payload : Json → Headers → Result ParsedRazorpayPaymentPayload
  parse_payload payload_json headers = do
    event_type ← get payload_json (codes "event") (text (codes "unknown"))
    timestamp ← get payload_json (codes "created_at") null
    _ ← check_timestamp timestamp
    entity ← payment_entity_of payload_json
    payment_id ← get entity (codes "id") (text [])
    order_id ← get entity (codes "order_id") null
    amount_cents ← get entity (codes "amount") (number (pos 0))
    currency ← get entity (codes "currency") (text (codes "INR"))
    status ← get entity (codes "status") (text (codes "failed"))
    email ← get entity (codes "email") null
    contact ← get entity (codes "contact") null
    notes ← get entity (codes "notes") (object no_members)
    name ← get notes (codes "customer_name") null
    code ← get entity (codes "error_code") null
    source ← get entity (codes "error_source") null
    step ← get entity (codes "error_step") null
    reason ← get entity (codes "error_reason") null
    error_code ← true_text code
    error_source ← true_text source
    error_step ← true_text step
    error_reason ← true_text reason
    let category =
          classify_razorpay_failure py.cases error_code error_source error_step error_reason in
        ok (record {
          event_id = event_id_of (event_id_header headers) payment_id event_type timestamp;
          event_type = event_type;
          external_payment_id = payment_id;
          external_order_id = order_id;
          amount_cents = amount_cents;
          currency = currency;
          status = status;
          customer_email = email;
          customer_contact = contact;
          customer_name = name;
          failure_category = category.0;
          is_transient_failure = category.1;
          raw_payload = payload_json;
        })
