-- ===== src/Sync/Enrichment.antt =====
-- `CustomerEnrichmentService`. The recovery rate and the masked name, which are stored as metadata
-- only, are left out.
use razor_flow.Prelude.{
  ℕ, ◌+◌, Bool, true, false, ◌&&◌, Option, none, some, if◌then◌else◌, ◌==◌, nat_beq, ltb, leb, find,
  select, length,
}
use razor_flow.Domain.Enums.{PaymentStatus, payment_status_eq}
use razor_flow.Domain.Floats.{Floats}
use razor_flow.Persistence.{Db, CustomerModel, update_row}

pub data RiskTier : Type 0 where
  unknown_tier : RiskTier
  new_customer : RiskTier
  low_risk_vip : RiskTier
  standard : RiskTier
  elevated_risk : RiskTier

abbrev pub is_of_customer : ℕ → Option ℕ → Bool
is_of_customer customer none = false
is_of_customer customer (some id) = nat_beq id customer

-- The tier of a customer by the counts of captured and failed payments.
abbrev pub risk_tier : ℕ → ℕ → RiskTier
risk_tier successful failed =
    if nat_beq (successful + failed) 0
    then RiskTier.new_customer
    else if ltb 0 successful && leb failed 1
    then RiskTier.low_risk_vip
    else if leb failed successful
    then RiskTier.standard
    else RiskTier.elevated_risk

-- A tier's score, in hundredths.
abbrev pub risk_points : RiskTier → ℕ
risk_points RiskTier.unknown_tier = 50
risk_points RiskTier.new_customer = 30
risk_points RiskTier.low_risk_vip = 10
risk_points RiskTier.standard = 35
risk_points RiskTier.elevated_risk = 75

module _ (fl : Floats) where
  open fl use {F, literal}

  pub record EnrichmentContext : Type 0 where
    pub has_customer_profile : Bool
    pub total_orders_count : ℕ
    pub total_payments_count : ℕ
    pub successful_payments_count : ℕ
    pub failed_payments_count : ℕ
    pub recovery_success_count : ℕ
    pub customer_risk_tier : RiskTier
    pub calculated_risk_score : F

  -- Without a customer. A missing row gives no more than `has_customer_profile`, and the other
  -- fields are then not read.
  abbrev pub no_profile : EnrichmentContext
  no_profile = record {
    has_customer_profile = false;
    total_orders_count = 0;
    total_payments_count = 0;
    successful_payments_count = 0;
    failed_payments_count = 0;
    recovery_success_count = 0;
    customer_risk_tier = RiskTier.unknown_tier;
    calculated_risk_score = literal 50;
  }

  module _ (merchant_id customer_id : ℕ) where
    -- The count of the customer's payments in a status.
    abbrev pub payment_count : PaymentStatus → Db F → ℕ
    payment_count status db = length (
        select
          (λ row.
            nat_beq row.merchant_id merchant_id
            && is_of_customer customer_id row.customer_id
            && (row.status == status))
          db.payments)

    abbrev pub order_count : Db F → ℕ
    order_count db = length (
        select
          (λ row. nat_beq row.merchant_id merchant_id && is_of_customer customer_id row.customer_id)
          db.orders)

    abbrev pub enrich_found : Option (CustomerModel F) → Db F → EnrichmentContext × Db F
    enrich_found none db = (no_profile, db)
    enrich_found (some customer) db =
        let successful = payment_count PaymentStatus.captured db in
        let failed = payment_count PaymentStatus.failed db in
        let tier = risk_tier successful failed in
        (
          record {
            has_customer_profile = true;
            total_orders_count = order_count db;
            total_payments_count = successful + failed;
            successful_payments_count = successful;
            failed_payments_count = failed;
            recovery_success_count = customer.recovery_success_count;
            customer_risk_tier = tier;
            calculated_risk_score = literal (risk_points tier);
          },
          record db {
            customers =
                update_row (λ row. row.id) customer.id
                  (record customer { risk_score = literal (risk_points tier) }) db.customers;
          },
        )

  unfoldable pub enrich_customer_context : ℕ → Option ℕ → Db F → EnrichmentContext × Db F
  enrich_customer_context merchant_id none db = (no_profile, db)
  enrich_customer_context merchant_id (some customer_id) db =
      enrich_found merchant_id customer_id (find (λ row. nat_beq row.id customer_id) db.customers)
        db
