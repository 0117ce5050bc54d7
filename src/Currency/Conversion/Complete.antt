-- ===== src/Currency/Conversion/Complete.antt =====
-- A conversion (worker/analytics/currency-conversion.ts) loses no transaction: each is converted, or
-- counted under its currency.
use mono_finance.Common.{
  Ident, ℕ, ◌+◌, ◌≡◌, refl, sym, ap, ◌∙◌, Bool, true, false, not, Option, none, some, List, [], ◌∷◌,
  ◌==◌, ==_iff, if◌then◌else◌, map, filter, length, is_none, Bool-cases, Option-cases, inl, inr,
  arith, ◌&&◌,
}
use mono_finance.Common.Int.{ℤ}
use mono_finance.Common.{any}
use mathlib.Core.Option.{some-injective}
use mono_finance.Common.Sort.{sort_by, insert_by}
use mono_finance.Currency.Rates.{ExchangeRate, RationalRate, rate_for}
use mono_finance.Currency.Conversion.{
  ConvertibleTransaction, ConvertedTransaction, MissingCurrencyRate, Conversion, add_missing,
  convert_one, convert_from, converted_with, pushed, sorted, code_precedes,
  convert_transactions_to_base_currency,
}

-- What is counted under a currency.
unfoldable pub count_of : Ident → List MissingCurrencyRate → ℕ
count_of code [] = 0
count_of code (entry ∷ missing) =
    (if entry.currency_code == code then entry.count else 0) + count_of code missing

count_of-add_missing :
    (code new : Ident) (missing : List MissingCurrencyRate)
    → count_of code (add_missing new missing)
      ≡ (if new == code then 1 else 0) + count_of code missing
unfolding count_of add_missing
count_of-add_missing code new [] = refl
count_of-add_missing code new (entry ∷ missing) = elim (Bool-cases (entry.currency_code == new)) [
  | inl same ↦ rw (same, (==_iff _ _).0 same) (ground arith)
  | inr differ ↦ rw (differ, count_of-add_missing code new missing) (omega arith)
]

count_of-insert_by :
    (before : MissingCurrencyRate → MissingCurrencyRate → Bool) (code : Ident)
    (entry : MissingCurrencyRate) (missing : List MissingCurrencyRate)
    → count_of code (insert_by before entry missing) ≡ count_of code (entry ∷ missing)
unfolding count_of insert_by
count_of-insert_by before code entry [] = refl
count_of-insert_by before code entry (other ∷ missing) = elim (Bool-cases (before other entry)) [
  | inl e ↦ rw (e, count_of-insert_by before code entry missing) (omega arith)
  | inr e ↦ rw e refl
]

count_of-sort_by :
    (before : MissingCurrencyRate → MissingCurrencyRate → Bool) (code : Ident)
    (missing : List MissingCurrencyRate)
    → count_of code (sort_by before missing) ≡ count_of code missing
unfolding count_of sort_by
count_of-sort_by before code [] = refl
count_of-sort_by before code (entry ∷ missing) =
    count_of-insert_by before code entry (sort_by before missing)
    ∙ ap (λ n. (if entry.currency_code == code then entry.count else 0) + n)
        (count_of-sort_by before code missing)

unfoldable pub has_rate :
    {R : Type 0} → Ident → Ident → List ExchangeRate → ConvertibleTransaction R → Bool
has_rate uah base rates x =
    not (is_none (rate_for uah x.currency_code base x.original_timestamp rates))

abbrev pub is_missing :
    {R : Type 0} → Ident → Ident → List ExchangeRate → Ident → ConvertibleTransaction R → Bool
is_missing uah base rates code x = x.currency_code == code && not (has_rate uah base rates x)

abbrev pub converted_id : {R : Type 0} → ConvertedTransaction R → Ident
converted_id x = x.transaction.id

-- Whether the rounding throws for a transaction.
unfoldable pub throws :
    {R : Type 0} → Ident → Ident → List ExchangeRate → ConvertibleTransaction R → Bool
throws uah base rates x = elim (rate_for uah x.currency_code base x.original_timestamp rates) [
  | none ↦ false
  | some rate ↦ is_none (convert_one base rate x)
]

-- The result of the loop over `xs` from the entries `start`: it throws where one transaction does;
-- else it has converted those that have a rate, in their order, and counted the others.
abbrev pub Accounted :
    {R : Type 0}
    → Ident
    → Ident
    → List ExchangeRate
    → List (ConvertibleTransaction R)
    → List MissingCurrencyRate
    → Option (Conversion R)
    → Type 0
Accounted uah base rates xs start none = any (throws uah base rates) xs ≡ true
Accounted uah base rates xs start (some (converted, missing)) =
    (any (throws uah base rates) xs ≡ false)
    × (map converted_id converted ≡ map (λ x. x.id) (filter (has_rate uah base rates) xs))
    × ((code : Ident)
        → count_of code missing
          ≡ length (filter (is_missing uah base rates code) xs) + count_of code start)

convert_one_id :
    {R : Type 0}
    → (base : Ident) (rate : RationalRate) (x : ConvertibleTransaction R)
      (y : ConvertedTransaction R)
    → convert_one base rate x ≡ some y
    → converted_id y ≡ x.id
unfolding convert_one
convert_one_id base rate x y = go _ _
  where
    go : (c d : Option ℤ) → converted_with base rate x c d ≡ some y → converted_id y ≡ x.id
    go none d h = cc h
    go (some c) none h = cc h
    go (some c) (some d) h = ap converted_id (sym (some-injective _ _ h))

module _ {R : Type 0} (uah base : Ident) (rates : List ExchangeRate)
    (x : ConvertibleTransaction R) where
  throws_without_rate :
      rate_for uah x.currency_code base x.original_timestamp rates ≡ none
      → (throws uah base rates x ≡ false) × (has_rate uah base rates x ≡ false)
  unfolding throws has_rate
  throws_without_rate e = (rw (e, throws), rw e)

  throws_with_rate :
      (rate : RationalRate)
      → rate_for uah x.currency_code base x.original_timestamp rates ≡ some rate
      → (throws uah base rates x ≡ is_none (convert_one base rate x))
        × (has_rate uah base rates x ≡ true)
  unfolding throws has_rate
  throws_with_rate rate e = (rw (e, throws), rw e)

module _ {R : Type 0} (uah base : Ident) (rates : List ExchangeRate) (x : ConvertibleTransaction R)
    (xs : List (ConvertibleTransaction R)) (start : List MissingCurrencyRate) where
  skip_accounts :
      (r : Option (Conversion R))
      → rate_for uah x.currency_code base x.original_timestamp rates ≡ none
      → Accounted uah base rates xs (add_missing x.currency_code start) r
      → Accounted uah base rates (x ∷ xs) start r
  skip_accounts none e h = rw (throws_without_rate uah base rates x e).0 h
  skip_accounts (some (converted, missing)) e (safe, ids, counts) =
      let (quiet, absent) = throws_without_rate uah base rates x e in
      (
        rw quiet safe,
        rw absent ids,
        λ code.
            let added = count_of-add_missing code x.currency_code start in
            let counted = counts code in
            elim (Bool-cases (x.currency_code == code)) [
              | inl same ↦
                  let added' = rw same at added in
                  rw (absent, same) (omega (arith, counted, added'))
              | inr differ ↦
                  let added' = rw differ at added in
                  rw (absent, differ) (omega (arith, counted, added'))
            ],
      )

  push_accounts :
      (rate : RationalRate) (y : ConvertedTransaction R) (r : Option (Conversion R))
      → rate_for uah x.currency_code base x.original_timestamp rates ≡ some rate
      → convert_one base rate x ≡ some y
      → Accounted uah base rates xs start r
      → Accounted uah base rates (x ∷ xs) start (pushed (some y) r)
  push_accounts rate y none e one h =
      let (quiet, present) = throws_with_rate uah base rates x rate e in rw (quiet, one) h
  push_accounts rate y (some (converted, missing)) e one (safe, ids, counts) =
      let (quiet, present) = throws_with_rate uah base rates x rate e in
      (
        rw (quiet, one) safe,
        rw (present, convert_one_id base rate x y one, ids) refl,
        λ code. elim (Bool-cases (x.currency_code == code)) [
          | inl same ↦ rw (present, same) (counts code)
          | inr differ ↦ rw (present, differ) (counts code)
        ],
      )

  throw_accounts :
      (rate : RationalRate)
      → rate_for uah x.currency_code base x.original_timestamp rates ≡ some rate
      → convert_one base rate x ≡ none
      → Accounted uah base rates (x ∷ xs) start none
  throw_accounts rate e one =
      let (loud, present) = throws_with_rate uah base rates x rate e in rw (loud, one) refl

convert_from_accounts :
    {R : Type 0}
    → (uah base : Ident) (rates : List ExchangeRate) (xs : List (ConvertibleTransaction R))
      (start : List MissingCurrencyRate)
    → Accounted uah base rates xs start (convert_from uah base rates xs start)
unfolding convert_from
convert_from_accounts uah base rates [] start = (refl, refl, λ code. omega arith)
convert_from_accounts uah base rates (x ∷ xs) start =
    elim (Option-cases (rate_for uah x.currency_code base x.original_timestamp rates)) [
      | inl e ↦
          rw (e, convert_from)
            (skip_accounts uah base rates x xs start _ e
              (convert_from_accounts uah base rates xs (add_missing x.currency_code start)))
      | inr (rate, e) ↦ elim (Option-cases (convert_one base rate x)) [
        | inl one ↦
            rw (e, convert_from) (rw one (throw_accounts uah base rates x xs start rate e one))
        | inr (y, one) ↦
            rw (e, convert_from)
              (rw one (
                push_accounts uah base rates x xs start rate y _ e one
                  (convert_from_accounts uah base rates xs start)))
      ]
    ]

sorted_accounts :
    {R : Type 0}
    → (uah base : Ident) (rates : List ExchangeRate) (xs : List (ConvertibleTransaction R))
      (r : Option (Conversion R))
    → Accounted uah base rates xs [] r
    → Accounted uah base rates xs [] (sorted r)
sorted_accounts uah base rates xs none h = h
sorted_accounts uah base rates xs (some (converted, missing)) (safe, ids, counts) =
    (safe, ids, λ code. count_of-sort_by code_precedes code missing ∙ counts code)

-- The conversion throws exactly where the rounding of a transaction that has a rate throws. Else it
-- gives the transactions that have a rate, in their order, and under each currency the number of
-- transactions in it that have none: no transaction is lost or counted twice.
pub convert_transactions-Accounted :
    {R : Type 0}
    → (uah base : Ident) (rates : List ExchangeRate) (xs : List (ConvertibleTransaction R))
    → Accounted uah base rates xs [] (convert_transactions_to_base_currency uah xs base rates)
unfolding convert_transactions_to_base_currency
convert_transactions-Accounted uah base rates xs =
    sorted_accounts uah base rates xs _ (convert_from_accounts uah base rates xs [])
