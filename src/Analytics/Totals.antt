-- ===== src/Analytics/Totals.antt =====
-- The sums by currency and by period of worker/services/analytics-service.ts. The keys of its maps,
-- texts joined by a NUL, are compared part by part.
pub mod Entries
use mono_finance.Common.{
  Ident, ℕ, Bool, ◌&&◌, Option, none, some, List, [], ◌∷◌, ◌++◌, map, ltb, ◌==◌, filter,
  if◌then◌else◌,
}
use mono_finance.Common.Int.{ℤ, pos, ◌+ℤ◌, ◌-ℤ◌, ltb_ℤ}
use mono_finance.Common.Money.{Direction, income, expense, is_expense}
use mono_finance.Common.Sort.{sort_by}
use mono_finance.Common.Groups.{collect}
use mono_finance.Analytics.Transactions.{ResolvedTransaction, expense_of, compare_by, unique}

pub record CurrencyTotals : Type 0 where
  pub currency_code : Ident
  pub expense_amount_minor : ℤ
  pub income_amount_minor : ℤ
  pub net_amount_minor : ℤ

abbrev pub is_in : Ident → ResolvedTransaction → Bool
is_in code x = x.currency_code == code

abbrev pub no_totals : Ident → CurrencyTotals
no_totals code = record {
  currency_code = code;
  expense_amount_minor = pos 0;
  income_amount_minor = pos 0;
  net_amount_minor = pos 0;
}

-- The loop's three sums, by the transaction's direction.
abbrev pub add_amounts : Direction → ResolvedTransaction → CurrencyTotals → CurrencyTotals
add_amounts expense x t = record t {
  expense_amount_minor = t.expense_amount_minor +ℤ expense_of x;
  net_amount_minor = t.net_amount_minor +ℤ x.effective_amount_minor;
}
add_amounts income x t = record t {
  income_amount_minor = t.income_amount_minor +ℤ x.effective_amount_minor;
  net_amount_minor = t.net_amount_minor +ℤ x.effective_amount_minor;
}

abbrev pub add_transaction : ResolvedTransaction → CurrencyTotals → CurrencyTotals
add_transaction x t = add_amounts x.rest.direction x t

abbrev pub totals_precede : CurrencyTotals → CurrencyTotals → Bool
totals_precede a b = ltb a.currency_code b.currency_code

unfoldable pub totals : List ResolvedTransaction → List CurrencyTotals
unfolding collect sort_by
totals xs = sort_by totals_precede (
    collect (λ x t. t.currency_code == x.currency_code) (λ x. no_totals x.currency_code)
      add_transaction xs [])

pub record ExcludedTotals : Type 0 where
  pub currency_code : Ident
  pub expense_amount_minor : ℤ
  pub income_amount_minor : ℤ

abbrev pub without_net : CurrencyTotals → ExcludedTotals
without_net t = record {
  currency_code = t.currency_code;
  expense_amount_minor = t.expense_amount_minor;
  income_amount_minor = t.income_amount_minor;
}

unfoldable pub excluded_totals : List ResolvedTransaction → List ExcludedTotals
unfolding totals
excluded_totals xs = map without_net (totals (filter (λ x. x.rest.is_excluded) xs))

pub record CompensationTotals : Type 0 where
  pub amount_minor : ℤ
  pub compensated_expense_amount_minor : ℤ
  pub currency_code : Ident
  pub personal_expense_amount_minor : ℤ

-- `Math.min(expense, transaction.compensationAmountMinor)`
abbrev pub compensated_of : ResolvedTransaction → ℤ
compensated_of x =
    if ltb_ℤ (expense_of x) x.compensation_amount_minor
    then expense_of x
    else x.compensation_amount_minor

abbrev pub no_compensation : Ident → CompensationTotals
no_compensation code = record {
  amount_minor = pos 0;
  compensated_expense_amount_minor = pos 0;
  currency_code = code;
  personal_expense_amount_minor = pos 0;
}

abbrev pub add_compensation : ResolvedTransaction → CompensationTotals → CompensationTotals
add_compensation x t = record t {
  amount_minor = t.amount_minor +ℤ expense_of x;
  compensated_expense_amount_minor = t.compensated_expense_amount_minor +ℤ compensated_of x;
  personal_expense_amount_minor =
      t.personal_expense_amount_minor +ℤ (expense_of x -ℤ compensated_of x);
}

abbrev pub compensation_precedes : CompensationTotals → CompensationTotals → Bool
compensation_precedes a b = ltb a.currency_code b.currency_code

unfoldable pub compensation_totals : List ResolvedTransaction → List CompensationTotals
unfolding collect sort_by
compensation_totals xs = sort_by compensation_precedes (
    collect (λ x t. t.currency_code == x.currency_code) (λ x. no_compensation x.currency_code)
      add_compensation (filter (λ x. is_expense x.rest.direction) xs) [])

pub record PeriodComparison : Type 0 where
  pub change_amount_minor : ℤ
  pub currency_code : Ident
  pub current_expense_amount_minor : ℤ
  pub previous_expense_amount_minor : ℤ

-- `totals.find(…)?.expenseAmountMinor ?? 0`
abbrev pub first_expense : List CurrencyTotals → ℤ
first_expense [] = pos 0
first_expense (t ∷ _) = t.expense_amount_minor

abbrev pub find_expense : Ident → List CurrencyTotals → ℤ
find_expense code ts = first_expense (filter (λ t. t.currency_code == code) ts)

unfoldable pub compare_expenses :
    List ResolvedTransaction → List ResolvedTransaction → List PeriodComparison
unfolding totals sort_by
compare_expenses current previous =
    let current_totals = totals current in
    let previous_totals = totals previous in
    let currencies =
      unique
        (map (λ t. t.currency_code) current_totals ++ map (λ t. t.currency_code) previous_totals) in
    map
      (λ code. record {
        change_amount_minor = find_expense code current_totals -ℤ find_expense code previous_totals;
        currency_code = code;
        current_expense_amount_minor = find_expense code current_totals;
        previous_expense_amount_minor = find_expense code previous_totals;
      })
      (sort_by ltb currencies)

-- `TimeSeriesPoint extends CurrencyTotals`
pub record TimeSeriesPoint : Type 0 where
  pub period_start : ℕ
  pub amounts : CurrencyTotals

abbrev pub point_precedes : TimeSeriesPoint → TimeSeriesPoint → Bool
point_precedes a b =
    compare_by (ltb a.period_start b.period_start) (ltb b.period_start a.period_start)
      (totals_precede a.amounts b.amounts)

abbrev pub is_point : ℕ → Ident → TimeSeriesPoint → Bool
is_point start code p = p.period_start == start && p.amounts.currency_code == code

unfoldable pub time_series : List ResolvedTransaction → (ℕ → ℕ) → List TimeSeriesPoint
unfolding collect sort_by
time_series xs start = sort_by point_precedes (
    collect (λ x p. is_point (start x.original_timestamp) x.currency_code p)
      (λ x. record {
        period_start = start x.original_timestamp;
        amounts = no_totals x.currency_code;
      })
      (λ x p. record p { amounts = add_transaction x p.amounts }) xs [])
