-- ===== src/Currency/Rates.antt =====
-- The choice of a rate in worker/analytics/currency-conversion.ts. `localeCompare` of the sources is
-- the order of their identifiers, and a text `source@rateAt` is the pair of both.
pub mod Newest
use mono_finance.Common.{
  Ident, ℕ, ◌*◌, Bool, ◌&&◌, ◌||◌, Option, none, some, List, [], ◌∷◌, ◌++◌, ltb, leb, ◌==◌,
  if◌then◌else◌, filter,
}
use mono_finance.Common.Sort.{sort_by}

pub record ExchangeRate : Type 0 where
  pub rate_at : ℕ
  pub rate_denominator : ℕ
  pub rate_numerator : ℕ
  pub source : Ident
  pub source_currency_code : Ident
  pub target_currency_code : Ident

pub record RationalRate : Type 0 where
  pub denominator : ℕ
  pub numerator : ℕ
  pub sources : List (Ident × ℕ)

-- The filter of `latestRate`.
abbrev pub is_usable : Ident → Ident → ℕ → ExchangeRate → Bool
is_usable source target timestamp rate =
    rate.source_currency_code == source
    && rate.target_currency_code == target
    && leb rate.rate_at timestamp

-- Its comparator.
abbrev pub rate_precedes : ExchangeRate → ExchangeRate → Bool
rate_precedes a b = ltb b.rate_at a.rate_at || (b.rate_at == a.rate_at && ltb b.source a.source)

abbrev pub first : List ExchangeRate → Option ExchangeRate
first [] = none
first (rate ∷ rates) = some rate

unfoldable pub latest_row : Ident → Ident → ℕ → List ExchangeRate → Option ExchangeRate
latest_row source target timestamp rates =
    first (sort_by rate_precedes (filter (is_usable source target timestamp) rates))

unfoldable pub latest_rate : Ident → Ident → ℕ → List ExchangeRate → Option RationalRate
unfolding latest_row
latest_rate source target timestamp rates = elim (latest_row source target timestamp rates) [
  | none ↦ none
  | some rate ↦ some (record {
    denominator = rate.rate_denominator;
    numerator = rate.rate_numerator;
    sources = (rate.source, rate.rate_at) ∷ [];
  })
]

abbrev pub unit_rate : RationalRate
unit_rate = record { denominator = 1; numerator = 1; sources = [] }

unfoldable pub rate_for_direct_or_inverse :
    Ident → Ident → ℕ → List ExchangeRate → Option RationalRate
unfolding latest_rate
rate_for_direct_or_inverse source target timestamp rates =
    if source == target then some unit_rate else elim (latest_rate source target timestamp rates) [
      | some direct ↦ some direct
      | none ↦ elim (latest_rate target source timestamp rates) [
        | none ↦ none
        | some inverse ↦ some (record {
          denominator = inverse.numerator;
          numerator = inverse.denominator;
          sources = inverse.sources;
        })
      ]
    ]

abbrev pub cross_rate : Option RationalRate → Option RationalRate → Option RationalRate
cross_rate none uah_to_target = none
cross_rate (some source_to_uah) none = none
cross_rate (some source_to_uah) (some uah_to_target) = some (record {
  denominator = source_to_uah.denominator * uah_to_target.denominator;
  numerator = source_to_uah.numerator * uah_to_target.numerator;
  sources = source_to_uah.sources ++ uah_to_target.sources;
})

-- `uah` is the code 'UAH'.
unfoldable pub rate_for : Ident → Ident → Ident → ℕ → List ExchangeRate → Option RationalRate
unfolding latest_rate rate_for_direct_or_inverse
rate_for uah source target timestamp rates =
    if source == target then some unit_rate else elim (latest_rate source target timestamp rates) [
      | some direct ↦ some direct
      | none ↦
          cross_rate (rate_for_direct_or_inverse source uah timestamp rates)
            (rate_for_direct_or_inverse uah target timestamp rates)
    ]
