-- ===== src/Analytics/Route.antt =====
-- The filters and the handlers of worker/routes/analytics.ts. `single` of a parameter that is not
-- there, or is there twice, is `undefined`.
use mono_finance.Common.{
  Ident, ℕ, Bool, ◌&&◌, ◌||◌, ◌+◌, ◌*◌, Option, none, some, get_or, List, [], map, ltb, leb, any,
  length, if◌then◌else◌,
}
use mono_finance.Common.Int.{pos, max_safe_integer}
use mono_finance.Compensation.Tables.{Text}
use mono_finance.Listing.Parse.{
  Parsed, absent, value, is_invalid, single, is_digits, decimal_from, currency_of, is_empty,
  unique_texts,
}
use mono_finance.Analytics.Transactions.{AnalyticsFilters}
use mono_finance.Analytics.Calendar.{day_seconds}
use mono_finance.Analytics.Service.{
  AnalyticsRepository, AnalyticsOverview, AnalyticsBreakdowns, AnalyticsTrends, overview,
  breakdowns, trends,
}

pub record AnalyticsQuery : Type 0 where
  pub account_id : Option (List Text)
  pub base_currency : Option (List Text)
  pub date_from : Option (List Text)
  pub date_to : Option (List Text)

abbrev pub only_value : Option (List Text) → Option Text
only_value none = none
only_value (some vs) = single vs

-- `currency`: absent for `undefined`, invalid for `null`.
unfoldable pub currency : Option Text → Parsed Text
currency none = absent
currency (some v) = currency_of v

-- `epoch`
unfoldable pub epoch : Option Text → Option ℕ
unfolding decimal_from
epoch none = none
epoch (some v) =
    let n = decimal_from 0 v in if is_digits v && leb n max_safe_integer then some n else none

abbrev pub base_of : (Text → Ident) → Parsed Text → Option Ident
base_of ident (value v) = some (ident v)
base_of ident _ = none

abbrev pub has_bad_accounts : List Text → Bool
has_bad_accounts ids = ltb 20 (length ids) || any (λ v. is_empty v || ltb 128 (length v)) ids

-- The filters between two times; `none` is the AnalyticsValidationError.
abbrev pub filters_between :
    (Text → Ident) → Ident → List Text → Parsed Text → Option ℕ → Option ℕ → Option AnalyticsFilters
filters_between ident user ids base (some from) (some to) =
    if has_bad_accounts ids || is_invalid base || ltb to from || ltb (from + 366 * day_seconds) to
    then none
    else some (record {
      account_ids = map ident (unique_texts [] ids);
      base_currency_code = base_of ident base;
      date_from = pos from;
      date_to = pos to;
      user_id = user;
    })
filters_between ident user ids base _ _ = none

-- `filters`
unfoldable pub analytics_filters : (Text → Ident) → AnalyticsQuery → Ident → Option AnalyticsFilters
unfolding currency epoch unique_texts
analytics_filters ident query user =
    filters_between ident user (get_or query.account_id [])
      (currency (only_value query.base_currency)) (epoch (only_value query.date_from))
      (epoch (only_value query.date_to))

-- 400 for refused filters, the data, or an error that is thrown on.
pub data AnalyticsResponse (A : Type 0) : Type 0 where
  refused failed : AnalyticsResponse A
  shown : A → AnalyticsResponse A

abbrev pub shown_or_failed : {A : Type 0} → Option A → AnalyticsResponse A
shown_or_failed none = failed
shown_or_failed (some a) = shown a

-- `respond`
abbrev pub respond :
    {A : Type 0} → (AnalyticsFilters → Option A) → Option AnalyticsFilters → AnalyticsResponse A
respond action none = refused
respond action (some filters) = shown_or_failed (action filters)

module _ (ident : Text → Ident) (uah empty_text uncategorized : Ident)
    (collates : Ident × Ident → Ident × Ident → Bool) (repository : AnalyticsRepository) where
  unfoldable pub analytics_overview_handler :
      ℕ → AnalyticsQuery → Ident → AnalyticsResponse AnalyticsOverview
  unfolding analytics_filters overview
  analytics_overview_handler now query user =
      respond (overview uah repository now) (analytics_filters ident query user)

  unfoldable pub analytics_breakdowns_handler :
      AnalyticsQuery → Ident → AnalyticsResponse AnalyticsBreakdowns
  unfolding analytics_filters breakdowns
  analytics_breakdowns_handler query user =
      respond (breakdowns uah empty_text uncategorized collates repository)
        (analytics_filters ident query user)

  unfoldable pub analytics_trends_handler :
      AnalyticsQuery → Ident → AnalyticsResponse AnalyticsTrends
  unfolding analytics_filters trends
  analytics_trends_handler query user =
      respond (trends uah repository) (analytics_filters ident query user)
