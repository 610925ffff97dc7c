-- ===== src/Decision/Snapshot.antt =====
-- The domain snapshot of a stored case, with the constructors' checks in the order of the source.
use razor_flow.Prelude.{
  Option, none, some, if◌then◌else◌, ◌==◌, Text, codes, text_eq, Result, ok, ◌>>=◌,
}
use razor_flow.Prelude.Int.{ℤ}
use razor_flow.Domain.Enums.{FailureCategory}
use razor_flow.Domain.Money.{MonetaryAmount, from_paise}
use razor_flow.Domain.Entities.{RecoveryCaseSnapshot}
use razor_flow.Domain.Floats.{Floats}
use razor_flow.Domain.Scoring.{from_float}
use razor_flow.Persistence.{RecoveryCaseModel}

-- `FailureCategory(text)`, with `None` for the `ValueError` that the services catch.
unfoldable pub parse_category : Text → Option FailureCategory
parse_category t =
    if t == codes "USER_AUTHENTICATION_DROPOFF"
    then some FailureCategory.user_authentication_dropoff
    else if t == codes "INSUFFICIENT_FUNDS"
    then some FailureCategory.insufficient_funds
    else if t == codes "TECHNICAL_GATEWAY_TIMEOUT"
    then some FailureCategory.technical_gateway_timeout
    else if t == codes "BANK_SYSTEM_OUTAGE"
    then some FailureCategory.bank_system_outage
    else if t == codes "PERMANENT_INSTRUMENT_DECLINE"
    then some FailureCategory.permanent_instrument_decline
    else if t == codes "FRAUD_RISK_BLOCK"
    then some FailureCategory.fraud_risk_block
    else if t == codes "UNKNOWN"
    then some FailureCategory.unknown
    else none

-- An empty text is false, and no category's value either.
abbrev pub category_of : Option Text → Option FailureCategory
category_of none = none
category_of (some t) = parse_category t

-- `from_paise(x, currency) if x is not None else None`
abbrev pub optional_amount : Option ℤ → Text → Result (Option MonetaryAmount)
optional_amount none currency = ok none
optional_amount (some n) currency = from_paise n currency >>= λ amount. ok (some amount)

module _ (fl : Floats) where
  open fl use {F}

  abbrev pub optional_probability : Option F → Result (Option F)
  optional_probability none = ok none
  optional_probability (some p) = from_float fl p >>= λ q. ok (some q)

  abbrev pub snapshot_with : RecoveryCaseModel F → MonetaryAmount → RecoveryCaseSnapshot
  snapshot_with case amount = record {
    id = case.id;
    merchant_id = case.merchant_id;
    order_id = case.order_id;
    amount_at_risk = amount;
    status = case.status;
    failure_category = category_of case.failure_category;
    is_transient = case.is_transient;
    current_attempt_count = case.current_attempt_count;
    max_allowed_attempts = case.max_allowed_attempts;
    deadline_at = case.deadline_at;
    last_attempt_at = case.last_attempt_at;
    active_payment_link_id = case.active_payment_link_id;
  }

  unfoldable pub build_snapshot : RecoveryCaseModel F → Result RecoveryCaseSnapshot
  build_snapshot case = do
    prob_vo ← optional_probability case.recovery_probability
    erv_vo ← optional_amount case.expected_recovery_value_cents case.currency
    amount ← from_paise case.amount_at_risk_cents case.currency
    recovered ← from_paise case.amount_recovered_cents case.currency
    ok (snapshot_with case amount)
