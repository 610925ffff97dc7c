-- ===== src/Domain/Money.antt =====
-- `MonetaryAmount` of backend/packages/domain/value_objects.py. Its `__post_init__` refuses a
-- negative number of cents, so a value that exists holds a natural number; the constructor takes
-- any integer. A currency is a text; texts are lists of code points.
use razor_flow.Prelude.{
  ℕ, ◌+◌, ◌-◌, if◌then◌else◌, ◌==◌, nat_eq, text_eq, Text, codes, length, Result, ok, raised,
  negative_amount, invalid_currency, currency_mismatch,
}
use razor_flow.Prelude.Int.{ℤ, pos, negsuc}

pub record MonetaryAmount : Type 0 where
  pub cents : ℕ
  pub currency : Text

abbrev pub inr_currency : Text
inr_currency = codes "INR"

-- `MonetaryAmount(cents, currency)`, `from_paise`: `__post_init__` runs its two checks in order.
unfoldable pub from_paise : ℤ → Text → Result MonetaryAmount
from_paise (negsuc n) currency = raised negative_amount
from_paise (pos n) currency =
    if length currency == 3
    then ok (record { cents = n; currency = currency })
    else raised invalid_currency

unfoldable pub add : MonetaryAmount → MonetaryAmount → Result MonetaryAmount
unfolding from_paise
add a b =
    if a.currency == b.currency
    then from_paise (pos (a.cents + b.cents)) a.currency
    else raised currency_mismatch

-- `max(0, self.cents - other.cents)` is the truncated difference.
unfoldable pub subtract : MonetaryAmount → MonetaryAmount → Result MonetaryAmount
unfolding from_paise
subtract a b =
    if a.currency == b.currency
    then from_paise (pos (a.cents - b.cents)) a.currency
    else raised currency_mismatch
