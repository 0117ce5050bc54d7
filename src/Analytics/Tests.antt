-- ===== src/Analytics/Tests.antt =====
-- Runs of the analytics (worker/services/analytics-service.ts) on concrete transactions.
use mono_finance.Common.{
  ℕ, ◌+◌, ◌*◌, ◌≤◌, ◌<◌, ◌≡◌, refl, false, none, some, List, [], ◌∷◌, ◌==◌, filter, any, ltb,
  length, if◌then◌else◌, arith,
}
use mono_finance.Common.Int.{pos, negsuc, ◌+ℤ◌, neg}
use mono_finance.Common.Money.{expense, income}
use mono_finance.Common.Groups.{sum_by}
use mono_finance.Analytics.Transactions.{ResolvedTransaction}
use mono_finance.Analytics.Calendar.{
  day_seconds, month_start, next_month_start, weekday_number, month_of, days_in_month,
}
use mono_finance.Analytics.Calendar.Partition.{month_start-partition}
use mono_finance.Analytics.Totals.{is_in, is_point, totals, time_series}
use mono_finance.Analytics.Totals.Entries.{
  reference_totals, reference_point, is_at, expense_part, totals-one_entry, time_series-one_point,
}
use mono_finance.Analytics.Breakdowns.{
  account_amounts, category_amounts, currency_amounts, weekday_amounts,
}
use mono_finance.Analytics.Breakdowns.Weekdays.{weekday_in}
use mono_finance.Analytics.Recurring.{fixed_variable_expense_amounts, recurring_expense_amounts}
use mono_finance.Analytics.Route.{AnalyticsQuery, analytics_filters}
use mono_finance.Analytics.Views.{amount_if, breakdowns-agree}

-- 29 February 2024, 12:00, a Thursday.
abbrev leap_noon : ℕ
leap_noon = 1_709_208_000

month_start-leap : month_start leap_noon ≡ 1_706_745_600
unfolding month_start month_of days_in_month
month_start-leap = refl

next_month_start-leap : next_month_start leap_noon ≡ 1_709_251_200
unfolding next_month_start month_of days_in_month
next_month_start-leap = refl

weekday_number-leap : weekday_number leap_noon ≡ 4
unfolding weekday_number
weekday_number-leap = refl

month_start-partition_example :
    (month_start leap_noon ≤ leap_noon)
    × (leap_noon < next_month_start leap_noon)
    × (month_start leap_noon + 28 * day_seconds ≤ next_month_start leap_noon)
    × (next_month_start leap_noon ≤ month_start leap_noon + 31 * day_seconds)
    × ((u : ℕ)
        → month_start leap_noon ≤ u
        → u < next_month_start leap_noon
        → (month_start u ≡ month_start leap_noon)
          × (next_month_start u ≡ next_month_start leap_noon))
month_start-partition_example = month_start-partition leap_noon

abbrev coffee : ResolvedTransaction
coffee = record {
  compensation_amount_minor = pos 0;
  currency_code = 980;
  effective_amount_minor = negsuc 8_499;
  id = 1;
  original_timestamp = leap_noon;
  rest = record {
    account_id = 10;
    category_id = some 5;
    category_name = some 6;
    direction = expense;
    is_excluded = false;
    original_amount_minor = negsuc 8_499;
    original_description = 77;
  };
}

-- The same shop a week before, a refunded taxi in dollars, and a salary.
abbrev espresso : ResolvedTransaction
espresso = record coffee {
  effective_amount_minor = negsuc 7_499;
  id = 2;
  original_timestamp = 1_708_603_200;
}

abbrev taxi : ResolvedTransaction
taxi = record coffee {
  currency_code = 840;
  effective_amount_minor = pos 0;
  id = 3;
  rest = record coffee.rest { category_id = none; category_name = none; original_description = 78 };
}

abbrev salary : ResolvedTransaction
salary = record coffee {
  effective_amount_minor = pos 5_000_000;
  id = 4;
  rest = record coffee.rest { direction = income; original_description = 79 };
}

abbrev spending : List ResolvedTransaction
spending = coffee ∷ taxi ∷ espresso ∷ []

-- Two purchases a week apart, of 85.00 and 75.00.
recurring-coffee :
    recurring_expense_amounts spending spending
    ≡ some (
        record {
          average_amount_minor = pos 8_000;
          currency_code = 980;
          description = 77;
          frequency_days = 7;
          last_amount_minor = pos 8_500;
          transaction_count = 2;
        }
        ∷ [])
unfolding recurring_expense_amounts ◌+ℤ◌ neg
recurring-coffee = refl

-- A query from 5 to 9 is accepted, one from 9 to 5 refused.
abbrev asked : AnalyticsQuery
asked = record {
  account_id = none;
  base_currency = none;
  date_from = some ((53 ∷ []) ∷ []);
  date_to = some ((57 ∷ []) ∷ []);
}

analytics_filters-accepted :
    analytics_filters length asked 7
    ≡ some (record {
      account_ids = [];
      base_currency_code = none;
      date_from = pos 5;
      date_to = pos 9;
      user_id = 7;
    })
unfolding analytics_filters
analytics_filters-accepted = refl

analytics_filters-refused :
    analytics_filters length
      (record asked { date_from = asked.date_to; date_to = asked.date_from })
      7
    ≡ none
unfolding analytics_filters
analytics_filters-refused = refl

totals-one_entry_example : filter (λ t. t.currency_code == 980) (totals (salary ∷ spending)) ≡ (
    if any (is_in 980) (salary ∷ spending)
    then reference_totals 980 (filter (is_in 980) (salary ∷ spending)) ∷ []
    else [])
totals-one_entry_example = totals-one_entry 980 (salary ∷ spending)

time_series-one_point_example :
    filter (is_point 1_706_745_600 980) (time_series (salary ∷ spending) month_start) ≡ (
      if any (is_at month_start 1_706_745_600 980) (salary ∷ spending)
      then reference_point 1_706_745_600 980
          (filter (is_at month_start 1_706_745_600 980) (salary ∷ spending))
        ∷ []
      else [])
time_series-one_point_example =
    time_series-one_point month_start 1_706_745_600 980 (salary ∷ spending)

breakdowns-agree_example :
    let spent = sum_by expense_part (filter (is_in 980) spending) in
    (sum_by (λ a. amount_if 980 a.currency_code a.amount_minor) (account_amounts spending) ≡ spent)
    × (sum_by
          (λ a. amount_if 980 a.currency_code a.amount_minor)
          (category_amounts 0 1 (λ a b. ltb a.0 b.0) spending)
        ≡ spent)
    × (sum_by (λ a. amount_if 980 a.currency_code a.amount_minor) (currency_amounts spending)
        ≡ spent)
    × (sum_by (weekday_in 980) (weekday_amounts spending) ≡ spent)
    × (sum_by
          (λ v.
            amount_if 980 v.currency_code
              (v.fixed_expense_amount_minor +ℤ v.variable_expense_amount_minor))
          (fixed_variable_expense_amounts spending [])
        ≡ spent)
breakdowns-agree_example =
    breakdowns-agree 0 1 (λ a b. ltb a.0 b.0) [] 980 spending
      ((refl, omega arith), ((refl, omega arith), ((refl, omega arith), tt)))
