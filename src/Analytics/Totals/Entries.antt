-- ===== src/Analytics/Totals/Entries.antt =====
-- What `totals` and `timeSeries` (worker/services/analytics-service.ts) hold under a key.
use mono_finance.Common.{
  Ident, ℕ, ◌≡◌, refl, ap, ◌∙◌, Bool, ◌&&◌, List, [], ◌∷◌, ◌==◌, ==_iff, ==_self, ==_to, and_parts,
  filter, any, if◌then◌else◌,
}
use mono_finance.Common.Int.{ℤ, pos, ◌+ℤ◌, int_laws}
use mono_finance.Common.Money.{Direction, income, expense, is_expense}
use mono_finance.Common.Groups.{sum_by}
use mono_finance.Common.Groups.Keys.{fold_group, filter-sort_by-collect, group_of-filter}
use mono_finance.Analytics.Transactions.{ResolvedTransaction, expense_of}
use mono_finance.Analytics.Totals.{
  CurrencyTotals, TimeSeriesPoint, is_in, is_point, no_totals, add_amounts, add_transaction, totals,
  totals_precede, time_series, point_precedes,
}

abbrev pub expense_part : ResolvedTransaction → ℤ
expense_part x = if is_expense x.rest.direction then expense_of x else pos 0

abbrev pub income_part : ResolvedTransaction → ℤ
income_part x = if is_expense x.rest.direction then pos 0 else x.effective_amount_minor

-- The three sums over the transactions of a currency.
abbrev pub reference_totals : Ident → List ResolvedTransaction → CurrencyTotals
reference_totals code xs = record {
  currency_code = code;
  expense_amount_minor = sum_by expense_part xs;
  income_amount_minor = sum_by income_part xs;
  net_amount_minor = sum_by (λ x. x.effective_amount_minor) xs;
}

plus : CurrencyTotals → List ResolvedTransaction → CurrencyTotals
plus t xs = record {
  currency_code = t.currency_code;
  expense_amount_minor = t.expense_amount_minor +ℤ sum_by expense_part xs;
  income_amount_minor = t.income_amount_minor +ℤ sum_by income_part xs;
  net_amount_minor = t.net_amount_minor +ℤ sum_by (λ x. x.effective_amount_minor) xs;
}

-- A record of totals is its fields.
totals_ext :
    (s t : CurrencyTotals)
    → s.currency_code ≡ t.currency_code
    → s.expense_amount_minor ≡ t.expense_amount_minor
    → s.income_amount_minor ≡ t.income_amount_minor
    → s.net_amount_minor ≡ t.net_amount_minor
    → s ≡ t
totals_ext s t c e i n = cc (c, e, i, n)

fold_group-add :
    (t : CurrencyTotals) (xs : List ResolvedTransaction)
    → fold_group add_transaction t xs ≡ plus t xs
unfolding plus sum_by
fold_group-add t [] = totals_ext _ _ refl (omega int_laws) (omega int_laws) (omega int_laws)
fold_group-add t (x ∷ xs) = fold_group-add (add_transaction x t) xs ∙ by x.rest.direction refl
  where
    by : (d : Direction) → x.rest.direction ≡ d → plus (add_amounts d x t) xs ≡ plus t (x ∷ xs)
    by expense e = rw e (totals_ext _ _ refl (omega int_laws) (omega int_laws) (omega int_laws))
    by income e = rw e (totals_ext _ _ refl (omega int_laws) (omega int_laws) (omega int_laws))

add_transaction-code :
    (x : ResolvedTransaction) (t : CurrencyTotals)
    → (add_transaction x t).currency_code ≡ t.currency_code
add_transaction-code x t = by x.rest.direction
  where
    by : (d : Direction) → (add_amounts d x t).currency_code ≡ t.currency_code
    by expense = refl
    by income = refl

fold_group-no_totals :
    (code : Ident) (x : ResolvedTransaction) (xs : List ResolvedTransaction)
    → x.currency_code ≡ code
    → fold_group add_transaction (add_transaction x (no_totals x.currency_code)) xs
      ≡ reference_totals code (x ∷ xs)
unfolding sum_by plus
fold_group-no_totals code x xs e =
    fold_group-add (no_totals x.currency_code) (x ∷ xs)
    ∙ totals_ext _ _ e (omega int_laws) (omega int_laws) (omega int_laws)

-- In `totals`, a currency has one entry where a transaction is in it and else none; the entry holds
-- the sum of the negated amounts of its expenses, the sum of the amounts of its incomes, and the sum
-- of all its amounts.
pub totals-one_entry :
    (code : Ident) (xs : List ResolvedTransaction)
    → filter (λ t. t.currency_code == code) (totals xs)
      ≡ (if any (is_in code) xs then reference_totals code (filter (is_in code) xs) ∷ [] else [])
unfolding totals
totals-one_entry code xs =
    filter-sort_by-collect (λ x t. t.currency_code == x.currency_code)
      (λ x. no_totals x.currency_code) add_transaction (is_in code) (λ t. t.currency_code == code)
      (λ x. rw (add_transaction-code x (no_totals x.currency_code)) refl)
      (λ x t. rw (add_transaction-code x t) refl) (λ x t h. rw ((==_iff _ _).0 h) refl)
      (λ x t here inside. rw ((==_iff _ _).0 here, (==_iff _ _).0 inside) (==_self code))
      totals_precede xs
    ∙ group_of-filter (λ x. no_totals x.currency_code) add_transaction (is_in code)
        (reference_totals code) (λ x ys here. fold_group-no_totals code x ys ((==_iff _ _).0 here))
        xs

-- The point of a period and a currency.
abbrev pub reference_point : ℕ → Ident → List ResolvedTransaction → TimeSeriesPoint
reference_point start code xs = record { period_start = start; amounts = reference_totals code xs }

abbrev pub is_at : (ℕ → ℕ) → ℕ → Ident → ResolvedTransaction → Bool
is_at start period code x = start x.original_timestamp == period && x.currency_code == code

abbrev new_point : (ℕ → ℕ) → ResolvedTransaction → TimeSeriesPoint
new_point start x = record {
  period_start = start x.original_timestamp;
  amounts = no_totals x.currency_code;
}

abbrev add_point : ResolvedTransaction → TimeSeriesPoint → TimeSeriesPoint
add_point x p = record p { amounts = add_transaction x p.amounts }

fold_group-add_point :
    (p : TimeSeriesPoint) (xs : List ResolvedTransaction)
    → fold_group add_point p xs
      ≡ record { period_start = p.period_start; amounts = fold_group add_transaction p.amounts xs }
fold_group-add_point p [] = refl
fold_group-add_point p (x ∷ xs) = fold_group-add_point (add_point x p) xs

-- In a time series, a period and a currency have one point where a transaction is in both and else
-- none; the point holds the sums that the currency's totals would have of those transactions alone.
pub time_series-one_point :
    (start : ℕ → ℕ) (period : ℕ) (code : Ident) (xs : List ResolvedTransaction)
    → filter (is_point period code) (time_series xs start) ≡ (
        if any (is_at start period code) xs
        then reference_point period code (filter (is_at start period code) xs) ∷ []
        else [])
unfolding time_series
time_series-one_point start period code xs =
    filter-sort_by-collect (λ x p. is_point (start x.original_timestamp) x.currency_code p)
      (new_point start) add_point (is_at start period code) (is_point period code)
      (λ x. rw (add_transaction-code x (no_totals x.currency_code)) refl)
      (λ x p. rw (add_transaction-code x p.amounts) refl)
      (λ x p h.
        let (s, c) = and_parts _ _ h in
        rw
          (
            ==_to p.period_start (start x.original_timestamp) s,
            ==_to p.amounts.currency_code x.currency_code c,
          )
          refl)
      (λ x p here inside.
        let (s, c) = and_parts _ _ here in
        let (s', c') = and_parts _ _ inside in
        rw
          (
            ==_to (start x.original_timestamp) period s,
            ==_to p.period_start period s',
            ==_to x.currency_code code c,
            ==_to p.amounts.currency_code code c',
          )
          (rw (==_self period) (==_self code)))
      point_precedes xs
    ∙ group_of-filter (new_point start) add_point (is_at start period code)
        (reference_point period code)
        (λ x ys here.
          let (s, c) = and_parts _ _ here in
          fold_group-add_point (add_point x (new_point start x)) ys
          ∙ rw (==_to (start x.original_timestamp) period s) (
              ap (λ t. record { period_start = period; amounts = t })
                (fold_group-no_totals code x ys ((==_iff _ _).0 c))))
        xs
