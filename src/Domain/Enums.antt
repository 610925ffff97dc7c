-- ===== src/Domain/Enums.antt =====
-- The enumerations of backend/packages/domain/enums.py. Python compares members by identity of
-- their string values, which are distinct, so `==` is equality of constructors; each instance of
-- `Eq` numbers the constructors in declaration order.
use razor_flow.Prelude.{ℕ, ◌≡◌, ◌↔◌, Bool, true, false, Option, none, some, arith, Eq, nat_beq}

pub data OrderStatus : Type 0 where
  created attempted paid expired cancelled : OrderStatus

pub data PaymentStatus : Type 0 where
  created authorized captured failed refunded : PaymentStatus

pub data RecoveryCaseStatus : Type 0 where
  detected enriching diagnosing strategy_generated policy_check_pending : RecoveryCaseStatus
  approved rejected escalated executing waiting_external verifying : RecoveryCaseStatus
  recovered unrecoverable expired stopped : RecoveryCaseStatus

pub data RecoveryActionType : Type 0 where
  payment_link customer_reminder wait_and_reassess human_escalation do_nothing : RecoveryActionType

pub data PolicyVerdict : Type 0 where
  approved rejected escalated modified : PolicyVerdict

pub data RecoveryAttemptStatus : Type 0 where
  draft dispatched acknowledged succeeded failed timed_out : RecoveryAttemptStatus

pub data FailureCategory : Type 0 where
  user_authentication_dropoff insufficient_funds technical_gateway_timeout : FailureCategory
  bank_system_outage permanent_instrument_decline fraud_risk_block unknown : FailureCategory

abbrev pub order_status_number : OrderStatus → ℕ
order_status_number OrderStatus.created = 0
order_status_number OrderStatus.attempted = 1
order_status_number OrderStatus.paid = 2
order_status_number OrderStatus.expired = 3
order_status_number OrderStatus.cancelled = 4

abbrev pub payment_status_number : PaymentStatus → ℕ
payment_status_number PaymentStatus.created = 0
payment_status_number PaymentStatus.authorized = 1
payment_status_number PaymentStatus.captured = 2
payment_status_number PaymentStatus.failed = 3
payment_status_number PaymentStatus.refunded = 4

abbrev pub case_status_number : RecoveryCaseStatus → ℕ
case_status_number RecoveryCaseStatus.detected = 0
case_status_number RecoveryCaseStatus.enriching = 1
case_status_number RecoveryCaseStatus.diagnosing = 2
case_status_number RecoveryCaseStatus.strategy_generated = 3
case_status_number RecoveryCaseStatus.policy_check_pending = 4
case_status_number RecoveryCaseStatus.approved = 5
case_status_number RecoveryCaseStatus.rejected = 6
case_status_number RecoveryCaseStatus.escalated = 7
case_status_number RecoveryCaseStatus.executing = 8
case_status_number RecoveryCaseStatus.waiting_external = 9
case_status_number RecoveryCaseStatus.verifying = 10
case_status_number RecoveryCaseStatus.recovered = 11
case_status_number RecoveryCaseStatus.unrecoverable = 12
case_status_number RecoveryCaseStatus.expired = 13
case_status_number RecoveryCaseStatus.stopped = 14

abbrev pub action_number : RecoveryActionType → ℕ
action_number RecoveryActionType.payment_link = 0
action_number RecoveryActionType.customer_reminder = 1
action_number RecoveryActionType.wait_and_reassess = 2
action_number RecoveryActionType.human_escalation = 3
action_number RecoveryActionType.do_nothing = 4

abbrev pub verdict_number : PolicyVerdict → ℕ
verdict_number PolicyVerdict.approved = 0
verdict_number PolicyVerdict.rejected = 1
verdict_number PolicyVerdict.escalated = 2
verdict_number PolicyVerdict.modified = 3

abbrev pub attempt_status_number : RecoveryAttemptStatus → ℕ
attempt_status_number RecoveryAttemptStatus.draft = 0
attempt_status_number RecoveryAttemptStatus.dispatched = 1
attempt_status_number RecoveryAttemptStatus.acknowledged = 2
attempt_status_number RecoveryAttemptStatus.succeeded = 3
attempt_status_number RecoveryAttemptStatus.failed = 4
attempt_status_number RecoveryAttemptStatus.timed_out = 5

abbrev pub category_number : FailureCategory → ℕ
category_number FailureCategory.user_authentication_dropoff = 0
category_number FailureCategory.insufficient_funds = 1
category_number FailureCategory.technical_gateway_timeout = 2
category_number FailureCategory.bank_system_outage = 3
category_number FailureCategory.permanent_instrument_decline = 4
category_number FailureCategory.fraud_risk_block = 5
category_number FailureCategory.unknown = 6

pub order_status_beq_iff :
    (a b : OrderStatus) → (nat_beq (order_status_number a) (order_status_number b) ≡ true) ↔ (a ≡ b)
order_status_beq_iff a b = (λ h. ground arith, λ h. ground arith)

pub payment_status_beq_iff :
    (a b : PaymentStatus)
    → (nat_beq (payment_status_number a) (payment_status_number b) ≡ true) ↔ (a ≡ b)
payment_status_beq_iff a b = (λ h. ground arith, λ h. ground arith)

pub case_status_beq_iff :
    (a b : RecoveryCaseStatus)
    → (nat_beq (case_status_number a) (case_status_number b) ≡ true) ↔ (a ≡ b)
case_status_beq_iff a b = (λ h. ground arith, λ h. ground arith)

pub action_beq_iff :
    (a b : RecoveryActionType) → (nat_beq (action_number a) (action_number b) ≡ true) ↔ (a ≡ b)
action_beq_iff a b = (λ h. ground arith, λ h. ground arith)

pub verdict_beq_iff :
    (a b : PolicyVerdict) → (nat_beq (verdict_number a) (verdict_number b) ≡ true) ↔ (a ≡ b)
verdict_beq_iff a b = (λ h. ground arith, λ h. ground arith)

pub attempt_status_beq_iff :
    (a b : RecoveryAttemptStatus)
    → (nat_beq (attempt_status_number a) (attempt_status_number b) ≡ true) ↔ (a ≡ b)
attempt_status_beq_iff a b = (λ h. ground arith, λ h. ground arith)

pub category_beq_iff :
    (a b : FailureCategory) → (nat_beq (category_number a) (category_number b) ≡ true) ↔ (a ≡ b)
category_beq_iff a b = (λ h. ground arith, λ h. ground arith)

abbrev pub option_category_beq : Option FailureCategory → Option FailureCategory → Bool
option_category_beq none none = true
option_category_beq none (some b) = false
option_category_beq (some a) none = false
option_category_beq (some a) (some b) = nat_beq (category_number a) (category_number b)

pub option_category_beq_iff :
    (a b : Option FailureCategory) → (option_category_beq a b ≡ true) ↔ (a ≡ b)
option_category_beq_iff a b = (λ h. ground arith, λ h. ground arith)

instance abbrev pub order_status_eq : Eq OrderStatus
order_status_eq = record {
  equal = λ a b. nat_beq (order_status_number a) (order_status_number b);
  equal_iff = order_status_beq_iff;
}

instance abbrev pub payment_status_eq : Eq PaymentStatus
payment_status_eq = record {
  equal = λ a b. nat_beq (payment_status_number a) (payment_status_number b);
  equal_iff = payment_status_beq_iff;
}

instance abbrev pub case_status_eq : Eq RecoveryCaseStatus
case_status_eq = record {
  equal = λ a b. nat_beq (case_status_number a) (case_status_number b);
  equal_iff = case_status_beq_iff;
}

instance abbrev pub action_eq : Eq RecoveryActionType
action_eq = record {
  equal = λ a b. nat_beq (action_number a) (action_number b);
  equal_iff = action_beq_iff;
}

instance abbrev pub verdict_eq : Eq PolicyVerdict
verdict_eq = record {
  equal = λ a b. nat_beq (verdict_number a) (verdict_number b);
  equal_iff = verdict_beq_iff;
}

instance abbrev pub attempt_status_eq : Eq RecoveryAttemptStatus
attempt_status_eq = record {
  equal = λ a b. nat_beq (attempt_status_number a) (attempt_status_number b);
  equal_iff = attempt_status_beq_iff;
}

-- `failure_category == FailureCategory.X` on an optional category.
instance abbrev pub category_eq : Eq (Option FailureCategory)
category_eq = record { equal = option_category_beq; equal_iff = option_category_beq_iff }
