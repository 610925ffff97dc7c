-- ===== src/Sync/Risk.antt =====
-- The risk of a customer by their payments.
use razor_flow.Prelude.{ℕ, ◌≤◌, ◌≡◌, refl, some, arith, find, nat_beq}
use razor_flow.Domain.Enums.{PaymentStatus}
use razor_flow.Domain.Floats.{Floats}
use razor_flow.Persistence.{Db, CustomerModel}
use razor_flow.Persistence.Lookup.{find-update_row}
use razor_flow.Webhooks.Dedup.{find-Member}
use razor_flow.Sync.Enrichment.{risk_tier, risk_points, payment_count, enrich_customer_context}

-- A customer with more captured and fewer failed payments has no higher risk score.
pub risk-monotone :
    (successful failed successful' failed' : ℕ)
    → successful' ≤ successful
    → failed ≤ failed'
    → risk_points (risk_tier successful failed) ≤ risk_points (risk_tier successful' failed')
risk-monotone successful failed successful' failed' h k = ground arith

module _ (fl : Floats) where
  open fl use {F, literal}

  -- The enrichment of a stored customer writes to the row the score of the counts of their captured
  -- and failed payments with the merchant, and nothing else.
  pub enrich_stored :
      (merchant id : ℕ) (customer : CustomerModel F) (db : Db F)
      → find (λ row. nat_beq row.id id) db.customers ≡ some customer
      → let after = (enrich_customer_context fl merchant (some id) db).1 in
        (find (λ row. nat_beq row.id id) after.customers
          ≡ some (record customer {
            risk_score = literal (
                risk_points (
                  risk_tier
                    (payment_count fl merchant id PaymentStatus.captured db)
                    (payment_count fl merchant id PaymentStatus.failed db)));
          }))
  unfolding enrich_customer_context
  enrich_stored merchant id customer db look =
      let named = (find-Member (λ row. nat_beq row.id id) db.customers look).1 in
      rw look (
        find-update_row (λ row. nat_beq row.id id) (λ row. row.id) customer.id _ named db.customers
          refl look)
