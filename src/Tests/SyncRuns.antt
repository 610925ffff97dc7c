-- ===== src/Tests/SyncRuns.antt =====
-- Late events of a captured payment, and the risk of customers.
use razor_flow.Prelude.{ℕ, ◌≡◌, refl, Bool, false, none, Text, codes, ok}
use razor_flow.Prelude.Int.{pos}
use razor_flow.Prelude.Json.{null, number, text}
use razor_flow.Domain.Enums.{FailureCategory, PaymentStatus}
use razor_flow.Persistence.{Db, PaymentModel}
use razor_flow.Webhooks.{ParsedRazorpayPaymentPayload}
use razor_flow.Sync.{sync_payment}
use razor_flow.Sync.Captured.{captured_downgraded}
use razor_flow.Tests.Fixtures.{db_with, stored_case, payment}
use razor_flow.Tests.WebhookFixtures.{plain_platform, failed_payload}

-- An event of the stored payment.
abbrev pub payload_saying : Text → ParsedRazorpayPaymentPayload
payload_saying status = record {
  event_id = codes "evt_1";
  event_type = text (codes "payment.failed");
  external_payment_id = text (codes "pay_A");
  external_order_id = text (codes "order_A");
  amount_cents = number (pos 250000);
  currency = text (codes "INR");
  status = text status;
  customer_email = null;
  customer_contact = null;
  customer_name = null;
  failure_category = FailureCategory.unknown;
  is_transient_failure = false;
  raw_payload = failed_payload;
}

captured_downgraded_example :
    (middle : (PaymentModel × Bool) × Db ℕ) × (after : (PaymentModel × Bool) × Db ℕ) × (sync_payment
        plain_platform
        (payload_saying (codes "authorized"))
        7
        none
        3
        (db_with stored_case)
      ≡ ok middle)
    × (sync_payment plain_platform (payload_saying (codes "failed")) 7 none 3 middle.1 ≡ ok after)
    × (after.0.0 ≡ record payment { status = PaymentStatus.failed })
captured_downgraded_example =
    captured_downgraded plain_platform (payload_saying (codes "authorized"))
      (payload_saying (codes "failed")) 7 none none 3 3 (codes "pay_A") payment
      (db_with stored_case) refl refl refl refl refl refl
