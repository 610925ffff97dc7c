-- ===== src/Webhooks/Taxonomy.antt =====
-- `classify_razorpay_failure`: the category of a failed payment, and whether it is transient.
use razor_flow.Prelude.{
  Bool, true, false, ◌&&◌, ◌||◌, Option, none, some, [], ◌∷◌, if◌then◌else◌, ◌==◌, Text, codes,
  text_eq, has_substring, contains,
}
use razor_flow.Prelude.Python.{CaseMap, upper, lower}
use razor_flow.Domain.Enums.{FailureCategory}

-- `x or ""`
abbrev pub or_empty : Option Text → Text
or_empty none = []
or_empty (some t) = t

-- The steps of the function on the converted texts, one for each numbered rule.
abbrev pub is_gateway_timeout : Text → Text → Bool
is_gateway_timeout code reason =
    has_substring (codes "TIMED_OUT") code
    || has_substring (codes "TIMEOUT") reason
    || has_substring (codes "GATEWAY_ERROR") code
    || (code == codes "SERVER_ERROR")

abbrev pub is_bank_outage : Text → Text → Text → Bool
is_bank_outage code source reason =
    (source == codes "bank")
    && (has_substring (codes "DOWNTIME") code
        || has_substring (codes "UNAVAILABLE") code
        || has_substring (codes "OFFLINE") reason)

abbrev pub is_dropoff : Text → Text → Text → Bool
is_dropoff code step reason =
    has_substring (codes "AUTHENTICATION") step
    || has_substring (codes "OTP") code
    || has_substring (codes "DROPPED") reason
    || (code == codes "BAD_REQUEST_PAYMENT_TIMED_OUT")

abbrev pub is_insufficient : Text → Text → Bool
is_insufficient code reason =
    has_substring (codes "INSUFFICIENT") code
    || has_substring (codes "FUNDS") reason
    || (code == codes "BAD_REQUEST_PAYMENT_ACCOUNT_INSUFFICIENT_BALANCE")

abbrev pub is_fraud : Text → Text → Bool
is_fraud code reason =
    has_substring (codes "FRAUD") code
    || has_substring (codes "RISK") code
    || has_substring (codes "BLOCKED") reason

abbrev pub is_permanent : Text → Bool
is_permanent code =
    has_substring (codes "EXPIRED") code
    || has_substring (codes "INVALID_CARD") code
    || has_substring (codes "CARD_DISABLED") code

abbrev pub is_transient_unknown : Text → Text → Bool
is_transient_unknown source reason =
    contains source (codes "bank" ∷ codes "gateway" ∷ []) || has_substring (codes "timeout") reason

-- The function on the converted texts.
unfoldable pub classify_texts : Text → Text → Text → Text → FailureCategory × Bool
classify_texts code source step reason =
    if is_gateway_timeout code reason
    then (FailureCategory.technical_gateway_timeout, true)
    else if is_bank_outage code source reason
    then (FailureCategory.bank_system_outage, true)
    else if is_dropoff code step reason
    then (FailureCategory.user_authentication_dropoff, true)
    else if is_insufficient code reason
    then (FailureCategory.insufficient_funds, true)
    else if is_fraud code reason
    then (FailureCategory.fraud_risk_block, false)
    else if is_permanent code
    then (FailureCategory.permanent_instrument_decline, false)
    else (FailureCategory.unknown, is_transient_unknown source reason)

module _ (cases : CaseMap) where
  unfoldable pub classify_razorpay_failure :
      Option Text → Option Text → Option Text → Option Text → FailureCategory × Bool
  classify_razorpay_failure error_code error_source error_step error_reason =
      classify_texts (upper cases (or_empty error_code)) (lower cases (or_empty error_source))
        (lower cases (or_empty error_step)) (lower cases (or_empty error_reason))
