-- ===== src/Prelude/Errors.antt =====
-- Errors as values: a call returns, or raises one of the program's exceptions.
use mathlib.Core.Path.{◌≡◌, refl}
use mathlib.Core.Bool.{Bool, true, false}

-- The exceptions by their class, and `ValueError` by the place that raises it.
pub data Error : Type 0 where
  invalid_state_transition : Error
  negative_amount : Error
  invalid_currency : Error
  currency_mismatch : Error
  probability_out_of_range : Error
  risk_score_out_of_range : Error
  multiple_results_found : Error
  gateway_unavailable : Error
  index_out_of_range : Error
  case_not_found : Error
  merchant_not_found : Error
  case_terminal : Error
  no_executor : Error
  no_strategy : Error
  authentication_failed : Error
  malformed_payload : Error
  attribute_error : Error
  statement_error : Error
  type_error : Error
  order_not_found : Error
  outcome_not_found : Error
  no_authorized_command : Error
  unprocessable_request : Error
  integrity_error : Error
  timestamp_out_of_range : Error
  provider_config_not_found : Error

-- What a call comes to.
pub data Result {ℓ} (T : Type ℓ) : Type ℓ where
  ok : T → Result T
  raised : Error → Result T

-- A raised exception passes through the calls that follow.
abbrev pub ◌>>=◌ {ℓ κ} : {S : Type ℓ} {T : Type κ} → Result S → (S → Result T) → Result T
ok s >>= next = next s
raised e >>= next = raised e

infixl 5 ◌>>=◌
abbrev pub ◌>>◌ {ℓ} : {T : Type ℓ} → Result (Unit {0}) → Result T → Result T
ok _ >> next = next
raised e >> next = raised e

infixl 5 ◌>>◌
-- `if not test: raise e`
abbrev pub raise_unless : Bool → Error → Result (Unit {0})
raise_unless false e = raised e
raise_unless true e = ok tt

-- A sequence that returned: its first call returned too, and the rest went on from there.
pub bind-ok {ℓ κ} :
    {S : Type ℓ} {T : Type κ} (first : Result S) (next : S → Result T) {t : T}
    → (first >>= next) ≡ ok t
    → (s : S) × (first ≡ ok s) × (next s ≡ ok t)
bind-ok (raised e) next h = cc
bind-ok (ok s) next h = (s, refl, h)

pub then-ok {ℓ} :
    {T : Type ℓ} (first : Result (Unit {0})) (next : Result T) {t : T}
    → (first >> next) ≡ ok t
    → (first ≡ ok tt) × (next ≡ ok t)
then-ok (raised e) next h = cc
then-ok (ok tt) next h = (refl, h)

pub ok_injective {ℓ} : {T : Type ℓ} {s t : T} → ok s ≡ ok t → s ≡ t
ok_injective e = cc
