-- ===== src/Analytics/Service.antt =====
-- `AnalyticsService` of worker/services/analytics-service.ts. Its repository is the record of its
-- two queries; `none` is a RangeError of the conversion, or the Error of an empty group.
use mono_finance.Common.{
  Ident, ℕ, suc, zero, Bool, not, Option, none, some, List, [], ◌∷◌, ◌++◌, map, filter, ltb, take,
  max,
}
use mono_finance.Common.Int.{ℤ, pos, abs, Number}
use mono_finance.Common.Money.{Direction, is_expense, is_income}
use mono_finance.Common.Sort.{sort_by}
use mono_finance.Currency.Rates.{ExchangeRate}
use mono_finance.Currency.Conversion.{
  Conversion, MissingCurrencyRate, convert_transactions_to_base_currency,
}
use mono_finance.Analytics.Transactions.{
  Details, ResolvedTransaction, AnalyticsFilters, compare_by, unique,
}
use mono_finance.Analytics.Calendar.{day_start, month_start}
use mono_finance.Analytics.Totals.{
  CurrencyTotals, ExcludedTotals, CompensationTotals, PeriodComparison, TimeSeriesPoint, totals,
  excluded_totals, compensation_totals, compare_expenses, time_series,
}
use mono_finance.Analytics.Breakdowns.{
  CurrencyAmount, AccountAmount, CategoryAmount, MerchantAmount, WeekdayAmount, account_amounts,
  category_amounts, currency_amounts, merchant_amounts, weekday_amounts,
}
use mono_finance.Analytics.Recurring.{
  RecurringExpense, FixedVariableAmount, recurring_expense_amounts, fixed_variable_expense_amounts,
}
use mono_finance.Analytics.Periods.{
  average_expenses, project_month_expenses, previous_period, recurrence_history,
}

pub record AnalyticsRepository : Type 0 where
  pub list_exchange_rates : List Ident → ℕ → List ExchangeRate
  pub list_resolved_transactions : AnalyticsFilters → List ResolvedTransaction

pub data ConversionMode : Type 0 where
  base original : ConversionMode

pub record CurrencyConversion : Type 0 where
  pub base_currency_code : Option Ident
  pub missing_rate_transaction_counts : List MissingCurrencyRate
  pub mode : ConversionMode

abbrev pub original_currency_conversion : CurrencyConversion
original_currency_conversion = record {
  base_currency_code = none;
  missing_rate_transaction_counts = [];
  mode = original;
}

pub record ConvertedGroups : Type 0 where
  pub conversions : List CurrencyConversion
  pub groups : List (List ResolvedTransaction)

-- `groups.flat()`
abbrev pub flat : List (List ResolvedTransaction) → List ResolvedTransaction
flat [] = []
flat (xs ∷ groups) = xs ++ flat groups

-- `Math.max(...timestamps, 0)`
abbrev pub latest : List ResolvedTransaction → ℕ
latest [] = 0
latest (x ∷ xs) = max x.original_timestamp (latest xs)

abbrev pub base_conversion : Ident → Conversion Details → CurrencyConversion
base_conversion code (converted, missing) = record {
  base_currency_code = some code;
  missing_rate_transaction_counts = missing;
  mode = base;
}

abbrev pub converted_of : Conversion Details → List ResolvedTransaction
converted_of (converted, missing) = map (λ c. c.transaction) converted

abbrev pub joined :
    Ident → Option (Conversion Details) → Option ConvertedGroups → Option ConvertedGroups
joined code none rest = none
joined code (some c) none = none
joined code (some c) (some gs) = some (record {
  conversions = base_conversion code c ∷ gs.conversions;
  groups = converted_of c ∷ gs.groups;
})

unfoldable pub convert_each :
    Ident → Ident → List ExchangeRate → List (List ResolvedTransaction) → Option ConvertedGroups
unfolding convert_transactions_to_base_currency
convert_each uah code rates [] = some (record { conversions = []; groups = [] })
convert_each uah code rates (xs ∷ groups) =
    joined code (convert_transactions_to_base_currency uah xs code rates)
      (convert_each uah code rates groups)

unfoldable pub convert_groups :
    Ident
    → AnalyticsRepository
    → Option Ident
    → List (List ResolvedTransaction)
    → Option ConvertedGroups
unfolding convert_each
convert_groups uah repository none groups =
    some (record { conversions = map (λ _. original_currency_conversion) groups; groups = groups })
convert_groups uah repository (some code) groups =
    let xs = flat groups in
    let codes = unique (map (λ x. x.currency_code) xs ++ code ∷ []) in
    convert_each uah code (repository.list_exchange_rates codes (latest xs)) groups

-- `groups[n] ?? []`
abbrev pub group_at : ℕ → List (List ResolvedTransaction) → List ResolvedTransaction
group_at n [] = []
group_at zero (xs ∷ groups) = xs
group_at (suc n) (xs ∷ groups) = group_at n groups

-- `conversions[0] ?? originalCurrencyConversion()`
abbrev pub first_conversion : List CurrencyConversion → CurrencyConversion
first_conversion [] = original_currency_conversion
first_conversion (c ∷ _) = c

abbrev pub included : List ResolvedTransaction → List ResolvedTransaction
included xs = filter (λ x. not x.rest.is_excluded) xs

pub record AnalyticsOverview : Type 0 where
  pub average_expense_per_day : List (CurrencyAmount Number)
  pub comparison : List PeriodComparison
  pub compensation : List CompensationTotals
  pub excluded : List ExcludedTotals
  pub projected_month_expenses : List (CurrencyAmount Number)
  pub currency_totals : List CurrencyTotals
  pub currency_conversion : CurrencyConversion

abbrev pub overview_of : AnalyticsFilters → ℕ → Option ConvertedGroups → Option AnalyticsOverview
overview_of filters now none = none
overview_of filters now (some converted) =
    let current = group_at 0 converted.groups in
    some (record {
      average_expense_per_day = average_expenses (included current) filters;
      comparison = compare_expenses (included current) (included (group_at 1 converted.groups));
      compensation = compensation_totals (included current);
      excluded = excluded_totals current;
      projected_month_expenses =
          project_month_expenses (included (group_at 2 converted.groups)) now;
      currency_totals = totals (included current);
      currency_conversion = first_conversion converted.conversions;
    })

unfoldable pub overview :
    Ident → AnalyticsRepository → ℕ → AnalyticsFilters → Option AnalyticsOverview
unfolding convert_groups average_expenses compare_expenses compensation_totals excluded_totals
    project_month_expenses totals previous_period month_start
overview uah repository now filters =
    let this_month = record filters { date_from = pos (month_start now); date_to = pos now } in
    overview_of filters now (
      convert_groups uah repository filters.base_currency_code (
        repository.list_resolved_transactions filters
        ∷ repository.list_resolved_transactions (previous_period filters)
        ∷ repository.list_resolved_transactions this_month
        ∷ []))

pub record LargestTransaction : Type 0 where
  pub amount_minor : ℕ
  pub currency_code : Ident
  pub description : Ident
  pub direction : Direction
  pub timestamp : ℕ
  pub transaction_id : Ident

abbrev pub larger : ResolvedTransaction → ResolvedTransaction → Bool
larger a b =
    compare_by (ltb (abs b.effective_amount_minor) (abs a.effective_amount_minor))
      (ltb (abs a.effective_amount_minor) (abs b.effective_amount_minor))
      (compare_by (ltb b.original_timestamp a.original_timestamp)
        (ltb a.original_timestamp b.original_timestamp) (ltb a.id b.id))

unfoldable pub largest_transactions : List ResolvedTransaction → List LargestTransaction
unfolding sort_by
largest_transactions xs =
    map
      (λ x. record {
        amount_minor = abs x.effective_amount_minor;
        currency_code = x.currency_code;
        description = x.rest.original_description;
        direction = x.rest.direction;
        timestamp = x.original_timestamp;
        transaction_id = x.id;
      })
      (take 10 (sort_by larger xs))

pub record AnalyticsBreakdowns : Type 0 where
  pub expenses_by_account : List AccountAmount
  pub expenses_by_category : List CategoryAmount
  pub expenses_by_currency : List (CurrencyAmount ℤ)
  pub fixed_variable_expenses : List FixedVariableAmount
  pub income_by_category : List CategoryAmount
  pub largest : List LargestTransaction
  pub recurring_expenses : List RecurringExpense
  pub spending_by_weekday : List WeekdayAmount
  pub top_merchants : List MerchantAmount
  pub currency_conversion : CurrencyConversion

abbrev pub expenses_in : List ResolvedTransaction → List ResolvedTransaction
expenses_in xs = filter (λ x. is_expense x.rest.direction) xs

-- The texts '' and 'Uncategorized', and `localeCompare` of two category keys.
module _ (uah empty_text uncategorized : Ident)
    (collates : Ident × Ident → Ident × Ident → Bool) where
  abbrev pub breakdowns_with :
      List ResolvedTransaction
      → CurrencyConversion
      → Option (List RecurringExpense)
      → Option AnalyticsBreakdowns
  breakdowns_with xs conversion none = none
  breakdowns_with xs conversion (some recurring) = some (record {
    expenses_by_account = account_amounts (expenses_in xs);
    expenses_by_category = category_amounts empty_text uncategorized collates (expenses_in xs);
    expenses_by_currency = currency_amounts (expenses_in xs);
    fixed_variable_expenses = fixed_variable_expense_amounts (expenses_in xs) recurring;
    income_by_category =
        category_amounts empty_text uncategorized collates
          (filter (λ x. is_income x.rest.direction) xs);
    largest = largest_transactions xs;
    recurring_expenses = recurring;
    spending_by_weekday = weekday_amounts (expenses_in xs);
    top_merchants = merchant_amounts (expenses_in xs);
    currency_conversion = conversion;
  })

  abbrev pub breakdowns_of : Option ConvertedGroups → Option AnalyticsBreakdowns
  breakdowns_of none = none
  breakdowns_of (some converted) =
      let current = included (group_at 0 converted.groups) in
      breakdowns_with current (first_conversion converted.conversions) (
        recurring_expense_amounts (expenses_in (included (group_at 1 converted.groups)))
          (expenses_in current))

  unfoldable pub breakdowns : AnalyticsRepository → AnalyticsFilters → Option AnalyticsBreakdowns
  unfolding convert_groups account_amounts category_amounts currency_amounts
      fixed_variable_expense_amounts largest_transactions weekday_amounts merchant_amounts
      recurring_expense_amounts recurrence_history
  breakdowns repository filters = breakdowns_of (
      convert_groups uah repository filters.base_currency_code (
        repository.list_resolved_transactions filters
        ∷ repository.list_resolved_transactions (recurrence_history filters)
        ∷ []))

pub record AnalyticsTrends : Type 0 where
  pub daily : List TimeSeriesPoint
  pub monthly : List TimeSeriesPoint
  pub spending_trend : List TimeSeriesPoint
  pub currency_conversion : CurrencyConversion

abbrev pub trends_of : Option ConvertedGroups → Option AnalyticsTrends
trends_of none = none
trends_of (some converted) =
    let current = included (group_at 0 converted.groups) in
    some (record {
      daily = time_series current day_start;
      monthly = time_series current month_start;
      spending_trend = time_series (expenses_in current) month_start;
      currency_conversion = first_conversion converted.conversions;
    })

unfoldable pub trends : Ident → AnalyticsRepository → AnalyticsFilters → Option AnalyticsTrends
unfolding convert_groups time_series day_start month_start
trends uah repository filters = trends_of (
    convert_groups uah repository filters.base_currency_code
      (repository.list_resolved_transactions filters ∷ []))
