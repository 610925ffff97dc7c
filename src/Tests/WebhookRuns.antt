-- ===== src/Tests/WebhookRuns.antt =====
-- A webhook that is received twice, and the classification of failures.
use razor_flow.Prelude.{
  ℕ, ◌≡◌, refl, Bool, true, false, Option, none, some, [], codes, ok, arith, ltb, Bool-cases, inl,
  inr,
}
use razor_flow.Prelude.Python.{lower, upper, strip}
use razor_flow.Domain.Enums.{FailureCategory}
use razor_flow.Persistence.{Db, MerchantModel, MerchantProviderConfigModel, RawWebhookEventModel}
use razor_flow.Webhooks.{
  classify_razorpay_failure, classify_texts, ingest_razorpay_webhook, resolve_merchant_and_config,
  verify_razorpay_signature,
}
use razor_flow.Webhooks.Blind.{IsLowering, classify-blind}
use razor_flow.Webhooks.Dedup.{Resolves, IsSigned, ingest-Signed}
use razor_flow.Webhooks.Twice.{ingest_twice}
use razor_flow.Tests.Fixtures.{db_with, stored_case}
use razor_flow.Tests.WebhookFixtures.{plain_platform, event_headers}

plain-IsLowering : IsLowering plain_platform.cases
plain-IsLowering c = elim (Bool-cases (ltb c 128)) [
  | inl ascii ↦ rw ascii tt
  | inr other ↦ rw other (ground arith, tt)
]

-- A drop-off by its step and reason is UNKNOWN, and not transient.
dropped :
    classify_razorpay_failure plain_platform.cases
      (some (codes "BAD_REQUEST_ERROR"))
      none
      (some (codes "payment_authentication"))
      (some (codes "payment_dropped"))
    ≡ (FailureCategory.unknown, false)
unfolding classify_razorpay_failure classify_texts upper lower
dropped = refl

classify-blind_example :
    (classify_razorpay_failure plain_platform.cases
      (some (codes "BAD_REQUEST_ERROR"))
      none
      (some (codes "payment_authentication"))
      (some (codes "payment_dropped"))).0
    ≡ (classify_razorpay_failure plain_platform.cases
        (some (codes "BAD_REQUEST_ERROR"))
        none
        none
        none).0
classify-blind_example =
    classify-blind plain_platform.cases plain-IsLowering (some (codes "BAD_REQUEST_ERROR")) none
      (some (codes "payment_authentication")) (some (codes "payment_dropped"))

received_once :
    (r : (Bool × Option RawWebhookEventModel) × Db ℕ) × (ingest_razorpay_webhook plain_platform []
        (codes "shop")
        (codes "b")
        (codes " s3cretb")
        event_headers
        (db_with stored_case)
      ≡ ok r)
    × (r.0.0 ≡ false)
unfolding ingest_razorpay_webhook resolve_merchant_and_config verify_razorpay_signature strip lower
received_once = (_, refl, refl)

ingest-Signed_example :
    (merchant : MerchantModel) × (config : MerchantProviderConfigModel) × Resolves
      (db_with stored_case).merchants
      (codes "shop")
      merchant
      config
    × IsSigned plain_platform []
        (codes "shop")
        (codes "b")
        (codes " s3cretb")
        event_headers
        (db_with stored_case)
        config
ingest-Signed_example =
    ingest-Signed plain_platform [] (codes "shop") (codes "b") (codes " s3cretb") event_headers
      (db_with stored_case) received_once.1

ingest_twice_example :
    (row : RawWebhookEventModel) × (received_once.0.0.1 ≡ some row)
    × (ingest_razorpay_webhook plain_platform []
          (codes "shop")
          (codes "b")
          (codes " s3cretb")
          event_headers
          received_once.0.1
        ≡ ok ((true, some row), received_once.0.1))
ingest_twice_example =
    ingest_twice plain_platform [] (codes "shop") (codes "b") (codes " s3cretb") event_headers
      (db_with stored_case) [] received_once.1
