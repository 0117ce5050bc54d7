-- ===== src/Currency/Rounding.antt =====
-- `multiplyAndRound` of worker/analytics/currency-conversion.ts. `none` is its RangeError, also the
-- one that a division by zero raises.
pub mod Nearest
use mono_finance.Common.{
  ℕ, ◌+◌, ◌*◌, ◌/◌, Bool, true, false, ◌||◌, Option, none, some, ◌==◌, if◌then◌else◌,
}
use mono_finance.Common.Int.{ℤ, pos, neg, abs, ltb_ℤ, max_safe_integer}

abbrev pub signed : Bool → ℕ → ℤ
signed true n = neg (pos n)
signed false n = pos n

-- `rounded`, for a denominator above zero.
unfoldable pub rounded : ℕ → ℕ → ℕ → ℕ
rounded amount numerator denominator = (amount * numerator + denominator / 2) / denominator

unfoldable pub multiply_and_round : ℤ → ℕ → ℕ → Option ℤ
unfolding rounded
multiply_and_round amount numerator denominator =
    let negative = ltb_ℤ amount (pos 0) in
    let result = signed negative (rounded (abs amount) numerator denominator) in
    if denominator == 0
    then none
    else (if ltb_ℤ (pos max_safe_integer) result || ltb_ℤ result (neg (pos max_safe_integer))
        then none
        else some result)
