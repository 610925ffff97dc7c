-- ===== src/Tests/WebhookFixtures.antt =====
-- A webhook of a failed payment, and concrete functions for the platform's parameters.
use razor_flow.Prelude.{ℕ, false, none, some, [], ◌∷◌, ◌++◌, if◌then◌else◌, ltb, Text, codes}
use razor_flow.Prelude.Int.{pos}
use razor_flow.Prelude.Json.{Json, number, text, object, no_members, member}
use razor_flow.Persistence.{Db, CustomerModel, RawWebhookEventModel}
use razor_flow.Webhooks.{Platform, Headers}
use razor_flow.Tests.Fixtures.{db_with, stored_case}

abbrev pub keyed : Text → Json → Json
keyed key value = object (member key value no_members)

-- A failed payment of an order, by the order's id and with some notes.
abbrev pub failed_entity : Text → Text → Json → Json
failed_entity payment order notes = object (
    member (codes "id") (text payment) (
      member (codes "order_id") (text order) (
        member (codes "amount") (number (pos 250000)) (
          member (codes "status") (text (codes "failed")) (
            member (codes "notes") notes (
              member (codes "error_code") (text (codes "BAD_REQUEST_ERROR"))
                (member (codes "error_reason") (text (codes "payment_timeout")) no_members)))))))

abbrev pub payment_payload : Text → Json → Json
payment_payload event entity = object (
    member (codes "event") (text event) (
      member (codes "payload") (keyed (codes "payment") (keyed (codes "entity") entity))
        no_members))

abbrev pub failed_payload : Json
failed_payload =
    payment_payload (codes "payment.failed")
      (failed_entity (codes "pay_B") (codes "order_A") (object no_members))

abbrev text_of : Json → Text
text_of (text t) = t
text_of _ = codes "None"

-- Every body but the empty one is the failed payment.
abbrev pub plain_platform : Platform
plain_platform = record {
  cases = record { upper_other = λ c. c ∷ []; lower_other = λ c. if ltb c 128 then [] else c ∷ [] };
  json_loads = λ body. elim body [ [] ↦ none | c ∷ cs ↦ some failed_payload ];
  format = text_of;
  hmac_sha256 = λ body secret. secret ++ body;
}

abbrev pub event_headers : Headers
event_headers =
    (codes "authorization", codes "x") ∷ (codes "x-razorpay-event-id", codes "evt_1") ∷ []

abbrev pub event_row : ℕ → Json → RawWebhookEventModel
event_row id payload = record {
  id = id;
  merchant_id = 7;
  event_id = codes "evt_0";
  event_type = codes "payment.failed";
  payload = payload;
  signature = [];
  headers = [];
  processed = false;
  processing_error = none;
}

abbrev pub buyer : CustomerModel ℕ
buyer = record {
  id = 2;
  merchant_id = 7;
  email = some (codes "a@b.c");
  phone = none;
  name = none;
  risk_score = 0;
  recovery_success_count = 0;
  total_failure_count = 1;
}

-- The stored case's database, with one event that waits.
abbrev pub db_waiting : Json → Db ℕ
db_waiting payload = record (db_with stored_case) {
  raw_events = event_row 8 payload ∷ [];
  customers = buyer ∷ [];
}
