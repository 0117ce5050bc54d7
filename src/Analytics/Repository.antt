-- ===== src/Analytics/Repository.antt =====
-- `D1AnalyticsRepository` of worker/repositories/analytics-repository.ts, over the joined rows of a
-- transaction, the links of compensations and the exchange rates.
use mono_finance.Common.{
  Ident, ℕ, Bool, ◌&&◌, ◌||◌, List, [], map, leb, ◌==◌, any, filter, if◌then◌else◌,
}
use mono_finance.Common.Int.{ℤ, pos, leb_ℤ}
use mono_finance.Compensation.Tables.{Text, Link, total, of_expense}
use mono_finance.Currency.Rates.{ExchangeRate}
use mono_finance.Listing.Parse.{is_empty}
use mono_finance.Listing.Rows.{JoinedRow, effective_amount, excluded_of}
use mono_finance.Listing.Query.{category_identity_of, category_name_of}
use mono_finance.Analytics.Transactions.{ResolvedTransaction, AnalyticsFilters}
use mono_finance.Analytics.Service.{AnalyticsRepository}

pub record AnalyticsTables : Type 0 where
  pub rows : List JoinedRow
  pub links : List Link
  pub rates : List ExchangeRate

-- The conditions of the query of the rates.
abbrev pub concerns : List Ident → ℕ → ExchangeRate → Bool
concerns codes date_to rate =
    leb rate.rate_at date_to
    && (any (λ c. c == rate.source_currency_code) codes
        || any (λ c. c == rate.target_currency_code) codes)

unfoldable pub list_exchange_rates : AnalyticsTables → List Ident → ℕ → List ExchangeRate
list_exchange_rates t codes date_to =
    if is_empty codes then [] else filter (concerns codes date_to) t.rates

-- The conditions of the query of the transactions.
abbrev pub is_selected : AnalyticsFilters → JoinedRow → Bool
is_selected filters row =
    row.user_id == filters.user_id
    && leb_ℤ filters.date_from (pos row.original_timestamp)
    && leb_ℤ (pos row.original_timestamp) filters.date_to
    && (is_empty filters.account_ids || any (λ a. a == row.account_id) filters.account_ids)

-- COALESCE((SELECT SUM(compensated_amount_minor) …), 0)
abbrev pub compensation_amount : List Link → Ident → ℤ
compensation_amount links id = total (filter (of_expense id) links)

-- `ident` gives the number that stands for a text.
abbrev pub resolved : (Text → Ident) → List Link → JoinedRow → ResolvedTransaction
resolved ident links row = record {
  compensation_amount_minor = compensation_amount links row.id;
  currency_code = row.original_currency_code;
  effective_amount_minor = effective_amount row.adjustment row.original_amount_minor;
  id = row.id;
  original_timestamp = row.original_timestamp;
  rest = record {
    account_id = row.account_id;
    category_id =
        category_identity_of row.custom_category row.mapped_category row.original_category_code;
    category_name =
        category_name_of row.custom_category row.mapped_category row.original_category_name;
    direction = row.direction;
    is_excluded = excluded_of row.exclusion;
    original_amount_minor = row.original_amount_minor;
    original_description = ident row.original_description;
  };
}

unfoldable pub list_resolved_transactions :
    (Text → Ident) → AnalyticsTables → AnalyticsFilters → List ResolvedTransaction
list_resolved_transactions ident t filters =
    map (resolved ident t.links) (filter (is_selected filters) t.rows)

-- The queries as the service takes them.
unfoldable pub analytics_repository : (Text → Ident) → AnalyticsTables → AnalyticsRepository
unfolding list_exchange_rates list_resolved_transactions
analytics_repository ident t = record {
  list_exchange_rates = list_exchange_rates t;
  list_resolved_transactions = list_resolved_transactions ident t;
}
