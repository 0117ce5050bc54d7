-- ===== src/Currency/Conversion.antt =====
-- `convertTransactionsToBaseCurrency` of worker/analytics/currency-conversion.ts. `none` is a
-- RangeError of the rounding, which leaves the whole conversion.
pub mod Complete
use mono_finance.Common.{
  Ident, ℕ, ◌+◌, Bool, Option, none, some, List, [], ◌∷◌, ltb, ◌==◌, if◌then◌else◌,
}
use mono_finance.Common.Int.{ℤ}
use mono_finance.Common.Sort.{sort_by}
use mono_finance.Currency.Rounding.{multiply_and_round}
use mono_finance.Currency.Rates.{ExchangeRate, RationalRate, rate_for}

pub record ConvertibleTransaction (R : Type 0) : Type 0 where
  pub compensation_amount_minor : ℤ
  pub currency_code : Ident
  pub effective_amount_minor : ℤ
  pub id : Ident
  pub original_timestamp : ℕ
  -- The other fields of a `Transaction extends ConvertibleTransaction`.
  pub rest : R

pub record ConvertedTransaction (R : Type 0) : Type 0 where
  pub transaction : ConvertibleTransaction R
  pub conversion_rate_sources : List (Ident × ℕ)

pub record MissingCurrencyRate : Type 0 where
  pub count : ℕ
  pub currency_code : Ident

-- `missing.set(code, (missing.get(code) ?? 0) + 1)`: a Map keeps the order of its first insertions.
unfoldable pub add_missing : Ident → List MissingCurrencyRate → List MissingCurrencyRate
add_missing code [] = record { count = 1; currency_code = code } ∷ []
add_missing code (entry ∷ missing) =
    let rest = add_missing code missing in
    if entry.currency_code == code
    then record entry { count = entry.count + 1 } ∷ missing
    else entry ∷ rest

abbrev pub converted_with :
    {R : Type 0}
    → Ident
    → RationalRate
    → ConvertibleTransaction R
    → Option ℤ
    → Option ℤ
    → Option (ConvertedTransaction R)
converted_with base rate x none effective = none
converted_with base rate x (some compensation) none = none
converted_with base rate x (some compensation) (some effective) = some (record {
  transaction = record x {
    compensation_amount_minor = compensation;
    currency_code = base;
    effective_amount_minor = effective;
  };
  conversion_rate_sources = rate.sources;
})

-- What the loop pushes for one transaction.
unfoldable pub convert_one :
    {R : Type 0} → Ident → RationalRate → ConvertibleTransaction R → Option (ConvertedTransaction R)
convert_one base rate x =
    converted_with base rate x
      (multiply_and_round x.compensation_amount_minor rate.numerator rate.denominator)
      (multiply_and_round x.effective_amount_minor rate.numerator rate.denominator)

abbrev pub Conversion : Type 0 → Type 0
Conversion R = List (ConvertedTransaction R) × List MissingCurrencyRate

abbrev pub pushed :
    {R : Type 0} → Option (ConvertedTransaction R) → Option (Conversion R) → Option (Conversion R)
pushed none rest = none
pushed (some x) none = none
pushed (some x) (some (converted, missing)) = some (x ∷ converted, missing)

-- The loop, from the entries that are missing so far.
unfoldable pub convert_from :
    {R : Type 0}
    → Ident
    → Ident
    → List ExchangeRate
    → List (ConvertibleTransaction R)
    → List MissingCurrencyRate
    → Option (Conversion R)
unfolding convert_one add_missing
convert_from uah base rates [] missing = some ([], missing)
convert_from uah base rates (x ∷ xs) missing =
    elim (rate_for uah x.currency_code base x.original_timestamp rates) [
      | none ↦ convert_from uah base rates xs (add_missing x.currency_code missing)
      | some rate ↦ pushed (convert_one base rate x) (convert_from uah base rates xs missing)
    ]

abbrev pub code_precedes : MissingCurrencyRate → MissingCurrencyRate → Bool
code_precedes a b = ltb a.currency_code b.currency_code

abbrev pub sorted : {R : Type 0} → Option (Conversion R) → Option (Conversion R)
sorted none = none
sorted (some (converted, missing)) = some (converted, sort_by code_precedes missing)

unfoldable pub convert_transactions_to_base_currency :
    {R : Type 0}
    → Ident
    → List (ConvertibleTransaction R)
    → Ident
    → List ExchangeRate
    → Option (Conversion R)
unfolding convert_from
convert_transactions_to_base_currency uah transactions base rates =
    sorted (convert_from uah base rates transactions [])
