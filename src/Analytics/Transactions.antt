-- ===== src/Analytics/Transactions.antt =====
-- The records that worker/services/analytics-service.ts works on, and its arithmetic.
use mono_finance.Common.{
  Ident, ℕ, suc, zero, ◌*◌, ◌/◌, Bool, ◌&&◌, ◌||◌, not, Option, List, [], ◌∷◌, ◌++◌, ◌==◌, any,
  if◌then◌else◌,
}
use mono_finance.Common.Int.{ℤ, pos, negsuc, ◌+ℤ◌, neg, Number, int, other}
use mono_finance.Common.Money.{Direction}
use mono_finance.Currency.Conversion.{ConvertibleTransaction}

-- The fields that a conversion leaves as they are.
pub record Details : Type 0 where
  pub account_id : Ident
  pub category_id : Option Ident
  pub category_name : Option Ident
  pub direction : Direction
  pub is_excluded : Bool
  pub original_amount_minor : ℤ
  pub original_description : Ident

abbrev pub ResolvedTransaction : Type 0
ResolvedTransaction = ConvertibleTransaction Details

-- `previousPeriod` can reach back before the epoch, so the bounds are integers.
pub record AnalyticsFilters : Type 0 where
  pub account_ids : List Ident
  pub base_currency_code : Option Ident
  pub date_from : ℤ
  pub date_to : ℤ
  pub user_id : Ident

-- The description under which an expense counts as a repeated purchase, in its currency.
abbrev pub is_of_merchant : Ident → Ident → ResolvedTransaction → Bool
is_of_merchant code description x =
    x.currency_code == code && x.rest.original_description == description

-- `-transaction.effectiveAmountMinor`
abbrev pub expense_of : ResolvedTransaction → ℤ
expense_of x = neg x.effective_amount_minor

-- `Math.floor(a / d)`, for d > 0.
abbrev pub floor_div : ℤ → ℕ → ℤ
floor_div (pos n) d = pos (n / d)
floor_div (negsuc n) d = negsuc (n / d)

-- `Math.round(a / d)`, for d > 0: the nearest integer, and of two the greater.
abbrev pub round_div : ℤ → ℕ → ℤ
round_div a d = floor_div (a +ℤ a +ℤ pos d) (2 * d)

-- `Math.round(a / d)`
abbrev pub round_ratio : ℤ → ℤ → Number
round_ratio a (pos zero) = other
round_ratio a (pos (suc d)) = int (round_div a (suc d))
round_ratio a (negsuc d) = int (round_div (neg a) (suc d))

-- `a * n`
abbrev pub times : ℤ → ℕ → ℤ
times (pos m) n = pos (m * n)
times (negsuc m) n = neg (pos (suc m * n))

-- A comparator `first || rest`, by the two signs of `first`.
abbrev pub compare_by : Bool → Bool → Bool → Bool
compare_by less greater rest = less || (not greater && rest)

-- `[...new Set(xs)]`, from what the set holds so far.
abbrev pub unique_from : List Ident → List Ident → List Ident
unique_from seen [] = seen
unique_from seen (x ∷ xs) = unique_from (if any (λ y. y == x) seen then seen else seen ++ x ∷ []) xs

abbrev pub unique : List Ident → List Ident
unique xs = unique_from [] xs
