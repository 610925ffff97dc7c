-- ===== src/Webhooks/Blind.antt =====
-- What a failure's category does not depend on.
use razor_flow.Prelude.{
  ℕ, ◌≡◌, refl, Bool, true, false, Option, [], ◌∷◌, ◌++◌, arith, Text, Bool-cases, inl, inr, All,
  has_substring, ltb, if◌then◌else◌, none,
}
use razor_flow.Prelude.Python.{CaseMap, is_upper, lower, lower_char, upper}
use razor_flow.Domain.Enums.{FailureCategory}
use razor_flow.Webhooks.Taxonomy.{
  or_empty, classify_texts, classify_razorpay_failure, is_gateway_timeout, is_bank_outage,
  is_dropoff, is_insufficient, is_fraud,
}

-- A text without an upper-case letter of ASCII.
abbrev pub NoUpper : Text → Type 0
NoUpper = All (λ c. is_upper c ≡ false)

-- No character has a lower-case mapping with an upper-case letter of ASCII, as in Unicode.
abbrev pub IsLowering : CaseMap → Type 0
IsLowering cases = (c : ℕ) → NoUpper (cases.lower_other c)

NoUpper-append : (s t : Text) → NoUpper s → NoUpper t → NoUpper (s ++ t)
NoUpper-append [] t h k = k
NoUpper-append (c ∷ cs) t h k = (h.0, NoUpper-append cs t h.1 k)

lower_char-NoUpper : (cases : CaseMap) → IsLowering cases → (c : ℕ) → NoUpper (lower_char cases c)
lower_char-NoUpper cases law c = elim (Bool-cases (is_upper c)) [
  | inl up ↦ rw up (ground arith, tt)
  | inr not_up ↦ elim (Bool-cases (ltb c 128)) [
    | inl ascii ↦ rw (not_up, ascii) (not_up, tt)
    | inr other ↦ rw (not_up, other) (law c)
  ]
]

pub lower-NoUpper : (cases : CaseMap) → IsLowering cases → (t : Text) → NoUpper (lower cases t)
unfolding lower
lower-NoUpper cases law [] = tt
lower-NoUpper cases law (c ∷ cs) =
    NoUpper-append (lower_char cases c) (lower cases cs) (lower_char-NoUpper cases law c)
      (lower-NoUpper cases law cs)

-- A literal that begins with an upper-case letter is in no such text.
not_inside :
    (p : ℕ) (ps t : Text) → is_upper p ≡ true → NoUpper t → has_substring (p ∷ ps) t ≡ false
not_inside p ps [] up h = refl
not_inside p ps (c ∷ cs) up h = ground (arith, not_inside p ps cs up h.1)

-- The category that the six rules give in turn.
abbrev first_rule : Bool → Bool → Bool → Bool → Bool → Bool → Bool → FailureCategory × Bool
first_rule r₁ r₂ r₃ r₄ r₅ r₆ transient =
    if r₁
    then (FailureCategory.technical_gateway_timeout, true)
    else if r₂
    then (FailureCategory.bank_system_outage, true)
    else if r₃
    then (FailureCategory.user_authentication_dropoff, true)
    else if r₄
    then (FailureCategory.insufficient_funds, true)
    else if r₅
    then (FailureCategory.fraud_risk_block, false)
    else if r₆
    then (FailureCategory.permanent_instrument_decline, false)
    else (FailureCategory.unknown, transient)

first_rule_category :
    (r₁ r₂ r₃ r₄ r₅ r₆ t t' : Bool)
    → (first_rule r₁ r₂ r₃ r₄ r₅ r₆ t).0 ≡ (first_rule r₁ r₂ r₃ r₄ r₅ r₆ t').0
first_rule_category r₁ r₂ r₃ r₄ r₅ r₆ t t' = ground arith

module _ (code source step reason : Text) (h : NoUpper step) (k : NoUpper reason) where
  timeout_blind : is_gateway_timeout code reason ≡ is_gateway_timeout code []
  timeout_blind = rw (not_inside (_) _ reason refl k) refl

  outage_blind : is_bank_outage code source reason ≡ is_bank_outage code source []
  outage_blind = rw (not_inside _ _ reason refl k) refl

  dropoff_blind : is_dropoff code step reason ≡ is_dropoff code [] []
  dropoff_blind = rw (not_inside _ _ step refl h, not_inside _ _ reason refl k) refl

  insufficient_blind : is_insufficient code reason ≡ is_insufficient code []
  insufficient_blind = rw (not_inside _ _ reason refl k) refl

  fraud_blind : is_fraud code reason ≡ is_fraud code []
  fraud_blind = rw (not_inside _ _ reason refl k) refl

  -- The rules on the lower-cased step and reason never fire.
  category_of_code :
      (classify_texts code source step reason).0 ≡ (classify_texts code source [] []).0
  unfolding classify_texts
  category_of_code =
      rw (timeout_blind, outage_blind, dropoff_blind, insufficient_blind, fraud_blind)
        (first_rule_category _ _ _ _ _ _ _ _)

-- A case mapping whose lower-case texts hold no upper-case letter of ASCII, as Unicode's: the
-- category of a failure is the one that its code and source give alone. The rules that look for
-- AUTHENTICATION in the step, or for TIMEOUT, OFFLINE, DROPPED, FUNDS or BLOCKED in the reason,
-- never fire, since the step and the reason are lower-cased before.
pub classify-blind :
    (cases : CaseMap)
    → IsLowering cases
    → (code source step reason : Option Text)
    → (classify_razorpay_failure cases code source step reason).0
      ≡ (classify_razorpay_failure cases code source none none).0
unfolding classify_razorpay_failure lower
classify-blind cases law code source step reason =
    category_of_code (upper cases (or_empty code)) (lower cases (or_empty source))
      (lower cases (or_empty step)) (lower cases (or_empty reason))
      (lower-NoUpper cases law (or_empty step)) (lower-NoUpper cases law (or_empty reason))
