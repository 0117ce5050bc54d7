-- ===== src/Analytics/Periods.antt =====
-- The periods that worker/services/analytics-service.ts compares, and its averages over days.
use mono_finance.Common.{ℕ, ◌+◌, ◌-◌, ◌*◌, ◌/◌, List, map, filter, if◌then◌else◌}
use mono_finance.Common.Int.{ℤ, pos, ◌+ℤ◌, ◌-ℤ◌, ltb_ℤ, Number}
use mono_finance.Common.Money.{is_expense}
use mono_finance.Analytics.Transactions.{
  ResolvedTransaction, AnalyticsFilters, floor_div, round_ratio, times,
}
use mono_finance.Analytics.Calendar.{day_seconds, month_start, next_month_start}
use mono_finance.Analytics.Breakdowns.{CurrencyAmount, currency_amounts}

unfoldable pub average_expenses :
    List ResolvedTransaction → AnalyticsFilters → List (CurrencyAmount Number)
unfolding currency_amounts
average_expenses xs filters =
    let days = floor_div (filters.date_to -ℤ filters.date_from) day_seconds +ℤ pos 1 in
    map
      (λ a. record {
        amount_minor = round_ratio a.amount_minor days;
        currency_code = a.currency_code;
      })
      (currency_amounts (filter (λ x. is_expense x.rest.direction) xs))

unfoldable pub project_month_expenses : List ResolvedTransaction → ℕ → List (CurrencyAmount Number)
unfolding currency_amounts month_start next_month_start
project_month_expenses xs now =
    let elapsed_days = (now - month_start now) / day_seconds + 1 in
    let days_in_month = (next_month_start now - month_start now) / day_seconds in
    map
      (λ a. record {
        amount_minor = round_ratio (times a.amount_minor days_in_month) (pos elapsed_days);
        currency_code = a.currency_code;
      })
      (currency_amounts (filter (λ x. is_expense x.rest.direction) xs))

unfoldable pub previous_period : AnalyticsFilters → AnalyticsFilters
unfolding ◌+ℤ◌ ◌-ℤ◌
previous_period filters =
    let length = filters.date_to -ℤ filters.date_from +ℤ pos 1 in
    record filters { date_from = filters.date_from -ℤ length; date_to = filters.date_from -ℤ pos 1 }

-- `Math.max(0, a)`
abbrev pub not_negative : ℤ → ℤ
not_negative a = if ltb_ℤ a (pos 0) then pos 0 else a

unfoldable pub recurrence_history : AnalyticsFilters → AnalyticsFilters
unfolding ◌+ℤ◌ ◌-ℤ◌
recurrence_history filters = record filters {
  date_from = not_negative (filters.date_to -ℤ pos (365 * day_seconds) +ℤ pos 1);
}
