-- ===== src/Currency/Tests.antt =====
-- Runs of worker/analytics/currency-conversion.ts on a few rates.
use mono_finance.Common.{ℕ, ◌*◌, ◌≤◌, ◌<◌, ◌≡◌, arith, none, some, [], ◌∷◌}
use mono_finance.Common.Int.{pos, negsuc, abs, ltb_ℤ, max_safe_integer}
use mono_finance.Currency.Rounding.{multiply_and_round, signed}
use mono_finance.Currency.Rounding.Nearest.{IsNearest, multiply_and_round_lem}
use mono_finance.Currency.Rates.{ExchangeRate, latest_row}
use mono_finance.Currency.Rates.Newest.{IsLatest, latest_row-IsLatest}
use mono_finance.Currency.Conversion.{ConvertibleTransaction, convert_transactions_to_base_currency}
use mono_finance.Currency.Conversion.Complete.{Accounted, convert_transactions-Accounted}

-- Dollars to hryvnias, twice.
abbrev monday : ExchangeRate
monday = record {
  rate_at = 1_700_000_000;
  rate_denominator = 10_000;
  rate_numerator = 374_406;
  source = 1;
  source_currency_code = 840;
  target_currency_code = 980;
}

abbrev tuesday : ExchangeRate
tuesday = record monday { rate_at = 1_700_086_400; rate_numerator = 376_218 }

abbrev taxi : ConvertibleTransaction (Unit {0})
taxi = record {
  compensation_amount_minor = pos 0;
  currency_code = 840;
  effective_amount_minor = negsuc 1_249;
  id = 1;
  original_timestamp = 1_700_090_000;
  rest = tt;
}

-- In zlotys, of which no rate is known.
abbrev bakery : ConvertibleTransaction (Unit {0})
bakery = record taxi { currency_code = 985; id = 2 }

multiply_and_round_lem_example :
    (n : ℕ) × IsNearest (abs (negsuc 1_249) * 376_218) 10_000 n
    × (n ≤ max_safe_integer
        → multiply_and_round (negsuc 1_249) 376_218 10_000
          ≡ some (signed (ltb_ℤ (negsuc 1_249) (pos 0)) n))
    × (max_safe_integer < n → multiply_and_round (negsuc 1_249) 376_218 10_000 ≡ none)
multiply_and_round_lem_example = multiply_and_round_lem (negsuc 1_249) 376_218 10_000 (omega arith)

latest_row-IsLatest_example :
    IsLatest 840 980 1_700_090_000
      (monday ∷ tuesday ∷ [])
      (latest_row 840 980 1_700_090_000 (monday ∷ tuesday ∷ []))
latest_row-IsLatest_example = latest_row-IsLatest 840 980 1_700_090_000 (monday ∷ tuesday ∷ [])

convert_transactions-Accounted_example :
    Accounted 980 980
      (monday ∷ tuesday ∷ [])
      (taxi ∷ bakery ∷ [])
      []
      (convert_transactions_to_base_currency 980 (taxi ∷ bakery ∷ []) 980 (monday ∷ tuesday ∷ []))
convert_transactions-Accounted_example =
    convert_transactions-Accounted 980 980 (monday ∷ tuesday ∷ []) (taxi ∷ bakery ∷ [])
