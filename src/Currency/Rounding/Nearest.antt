-- ===== src/Currency/Rounding/Nearest.antt =====
-- `multiplyAndRound` of worker/analytics/currency-conversion.ts rounds to the nearest unit.
use mono_finance.Common.{
  ℕ, ◌+◌, ◌*◌, ◌/◌, ◌≤◌, ◌<◌, ◌≡◌, refl, Bool, true, false, none, some, arith, ◌==◌, ◌||◌,
}
use mono_finance.Common.Int.{ℤ, pos, neg, abs, ltb_ℤ, max_safe_integer}
use native.Mathlib.Nat.{div-mul-le_self, lt-div-mul-add}
use mono_finance.Currency.Rounding.{rounded, multiply_and_round, signed}

-- `n` is the whole number nearest to `exact / denominator`, and the larger one where two are.
abbrev pub IsNearest : ℕ → ℕ → ℕ → Type 0
IsNearest exact denominator n =
    (2 * (n * denominator) ≤ 2 * exact + denominator)
    × (2 * exact < 2 * (n * denominator) + denominator)

rounded-IsNearest :
    (amount numerator denominator : ℕ)
    → 0 < denominator
    → IsNearest (amount * numerator) denominator (rounded amount numerator denominator)
unfolding rounded
rounded-IsNearest amount numerator denominator h =
    let below = div-mul-le_self (amount * numerator + denominator / 2) denominator in
    let above = lt-div-mul-add {a = amount * numerator + denominator / 2} h in
    (omega (arith, below, above), omega (arith, below, above))

signed_fits :
    (negative : Bool) (n : ℕ)
    → n ≤ max_safe_integer
    → (ltb_ℤ (pos max_safe_integer) (signed negative n)
        || ltb_ℤ (signed negative n) (neg (pos max_safe_integer)))
      ≡ false
unfolding neg
signed_fits true n h = ground arith
signed_fits false n h = ground arith

signed_exceeds :
    (negative : Bool) (n : ℕ)
    → max_safe_integer < n
    → (ltb_ℤ (pos max_safe_integer) (signed negative n)
        || ltb_ℤ (signed negative n) (neg (pos max_safe_integer)))
      ≡ true
unfolding neg
signed_exceeds true n h = ground arith
signed_exceeds false n h = ground arith

-- For a denominator above zero the converted amount is the nearest whole number, with ties away from
-- zero, under the sign of the amount; if that number is no safe integer, the conversion throws.
pub multiply_and_round_lem :
    (amount : ℤ) (numerator denominator : ℕ)
    → 0 < denominator
    → (n : ℕ) × IsNearest (abs amount * numerator) denominator n
      × (n ≤ max_safe_integer
          → multiply_and_round amount numerator denominator
            ≡ some (signed (ltb_ℤ amount (pos 0)) n))
      × (max_safe_integer < n → multiply_and_round amount numerator denominator ≡ none)
unfolding multiply_and_round
multiply_and_round_lem amount numerator denominator h =
    let divides : (denominator == 0) ≡ false = ground arith in
    (
      rounded (abs amount) numerator denominator,
      rounded-IsNearest (abs amount) numerator denominator h,
      (λ fits. rw (divides, signed_fits _ _ fits) refl),
      (λ exceeds. rw (divides, signed_exceeds _ _ exceeds) refl),
    )
