-- ===== src/Tests/Fixtures.antt =====
-- Concrete values for the tests: a case, a context, and a fixed-point instance of the floats.
use razor_flow.Prelude.{
  ℕ, ◌+◌, ◌-◌, ◌*◌, ◌/◌, ◌≤◌, ◌≡◌, refl, true, false, none, some, arith, ltb, leb, nat_beq, codes,
  length, [], ◌∷◌,
}
use razor_flow.Prelude.Int.{pos}
use razor_flow.Domain.Enums.{
  RecoveryCaseStatus, FailureCategory, OrderStatus, PaymentStatus, RecoveryActionType,
}
use razor_flow.Domain.Money.{MonetaryAmount, inr_currency}
use razor_flow.Domain.Entities.{RecoveryCaseSnapshot, CaseEnrichmentContext, RuleCode}
use razor_flow.Domain.Floats.{Floats, FloatLaws}
use razor_flow.Audit.{Crypto}
use razor_flow.Persistence.{
  MerchantModel, Db, RecoveryCaseModel, RecoveryCommand, OrderModel, PaymentModel,
}
use razor_flow.Execution.{GatewayReplies}

abbrev pub rupees : ℕ → MonetaryAmount
rupees n = record { cents = n * 100; currency = inr_currency }

-- An otp drop-off over 2500 rupees with one attempt made.
abbrev pub snapshot : RecoveryCaseSnapshot
snapshot = record {
  id = 1;
  merchant_id = 7;
  order_id = 3;
  amount_at_risk = rupees 2500;
  status = RecoveryCaseStatus.diagnosing;
  failure_category = some FailureCategory.user_authentication_dropoff;
  is_transient = true;
  current_attempt_count = 1;
  max_allowed_attempts = 2;
  deadline_at = 100000000000;
  last_attempt_at = some 1000000000;
  active_payment_link_id = none;
}

abbrev pub context : CaseEnrichmentContext
context = record {
  customer = none;
  has_active_payment_link = false;
  customer_id = none;
  historical_success_count = 0;
  historical_failure_count = 0;
  previous_recovery_count = 0;
  customer_risk_tier = codes "UNKNOWN";
}

-- Half an hour after the last attempt, and ten minutes after it.
abbrev pub later : ℕ
later = 2800000000

abbrev pub soon : ℕ
soon = 1600000000

-- Floats as ten-thousandths.
abbrev pub fixed_point : Floats
fixed_point = record {
  F = ℕ;
  literal = λ n. n * 100;
  of_int = λ n. n * 10000;
  lt = ltb;
  le = leb;
  eq = nat_beq;
  plus = λ a b. a + b;
  minus = λ a b. a - b;
  times = λ a b. a * b / 10000;
  round4 = λ a. a;
  truncate = λ a. pos (a / 10000);
}

share_le : (p n : ℕ) → leb p 10000 ≡ true → p * (n * 10000) / 10000 / 10000 ≤ n
share_le p n h =
    let low : p ≤ 10000 = ground arith in let bound : p * n ≤ 10000 * n = grind arith in omega arith

pub fixed_point_laws : FloatLaws fixed_point
fixed_point_laws = record {
  literal_unit = λ n h. (ground arith, ground arith);
  lt_le = λ a b h. ground arith;
  round4_unit = λ x h. h;
  truncate_share = λ p n unit small. (p * (n * 10000) / 10000 / 10000, refl, share_le p n unit.1);
}

-- The stored case of the snapshot.
abbrev pub stored_case : RecoveryCaseModel ℕ
stored_case = record {
  id = 1;
  merchant_id = 7;
  order_id = 3;
  initial_payment_id = 5;
  customer_id = none;
  amount_at_risk_cents = pos 250000;
  amount_recovered_cents = pos 0;
  currency = inr_currency;
  status = RecoveryCaseStatus.diagnosing;
  failure_category = some (codes "USER_AUTHENTICATION_DROPOFF");
  is_transient = true;
  recovery_probability = none;
  expected_recovery_value_cents = none;
  current_attempt_count = 1;
  max_allowed_attempts = 2;
  deadline_at = 100000000000;
  next_action_scheduled_at = none;
  last_attempt_at = some 1000000000;
  active_payment_link_id = none;
}

abbrev pub approved_case : RecoveryCaseModel ℕ
approved_case = record stored_case { status = RecoveryCaseStatus.approved }

abbrev pub order : OrderModel
order = record {
  id = 3;
  merchant_id = 7;
  customer_id = none;
  external_order_id = codes "order_A";
  amount_cents = pos 250000;
  currency = inr_currency;
  status = OrderStatus.attempted;
}

abbrev pub payment : PaymentModel
payment = record {
  id = 6;
  merchant_id = 7;
  order_id = 3;
  customer_id = none;
  external_payment_id = codes "pay_A";
  amount_cents = pos 250000;
  currency = inr_currency;
  status = PaymentStatus.captured;
}

abbrev pub shop : MerchantModel
shop = record {
  id = 7;
  slug = codes "shop";
  currency = codes "INR";
  is_active = true;
  provider_configs =
      record {
        id = 4;
        provider = codes "RAZORPAY";
        webhook_secret_enc = codes "s3cret";
        is_active = true;
        config_json = record { policy = none; policy_version = some 3; policy_history = none };
      }
      ∷ [];
}

abbrev pub db_with : RecoveryCaseModel ℕ → Db ℕ
db_with case = record {
  cases = case ∷ [];
  decisions = [];
  attempts = [];
  outcomes = [];
  merchants = shop ∷ [];
  customers = [];
  raw_events = [];
  orders = order ∷ [];
  payments = payment ∷ [];
  ledger = [];
  gateway_calls = [];
  next_id = 10;
}

-- A hash that keeps the length of its text, and plain encodings.
abbrev pub plain_crypto : Crypto
plain_crypto = record {
  sha256 = λ t. length t ∷ [];
  json_dumps = λ p. [];
  isoformat = λ n. n ∷ [];
  decimal = λ n. n ∷ [];
  uuid_text = λ n. n ∷ [];
}

abbrev pub command_for : RecoveryActionType → RecoveryCommand
command_for action = record {
  case_id = 1;
  merchant_id = 7;
  order_id = 3;
  action_type = action;
  idempotency_key = record { case_id = 1; attempt_number = 2; action_type = action };
  amount_at_risk_cents = pos 250000;
  currency = inr_currency;
  deadline_at = 100000000000;
  rule_code = RuleCode.policy_approval_cleared;
  reassessment_delay_seconds = none;
}

-- A gateway that creates links and sends reminders, and one that fails.
abbrev pub gateway_up : GatewayReplies
gateway_up = record {
  link = some (record {
    is_success = true;
    gateway_link_id = some (codes "plink_A");
    status = codes "created";
    is_retryable = false;
  });
  reminder = some (record { is_success = true; is_retryable = false });
}

abbrev pub gateway_down : GatewayReplies
gateway_down = record { link = none; reminder = none }
