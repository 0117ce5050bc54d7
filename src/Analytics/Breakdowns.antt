-- ===== src/Analytics/Breakdowns.antt =====
-- The breakdowns by account, category, merchant and weekday of worker/services/
-- analytics-service.ts. The keys of its maps, texts joined by a NUL, are compared part by part.
pub mod Weekdays
use mono_finance.Common.{
  Ident, ℕ, suc, ◌+◌, Bool, ◌&&◌, Option, none, some, get_or, List, [], ◌∷◌, ◌++◌, map, ltb, ◌==◌,
  any, take, if◌then◌else◌,
}
use mono_finance.Common.Int.{ℤ, pos, ◌+ℤ◌, abs, ltb_ℤ}
use mono_finance.Common.Sort.{sort_by}
use mono_finance.Common.Groups.{collect}
use mono_finance.Analytics.Transactions.{
  ResolvedTransaction, expense_of, is_of_merchant, compare_by, unique,
}
use mono_finance.Analytics.Calendar.{weekday_number}

pub record CurrencyAmount (A : Type 0) : Type 0 where
  pub amount_minor : A
  pub currency_code : Ident

-- `AccountAmount`, `CategoryAmount` and `CurrencyAmount` before their keys get their names.
pub record GroupAmount (K : Type 0) : Type 0 where
  pub key : K
  pub currency_code : Ident
  pub amount_minor : ℤ

-- `groupAmounts`, for keys with an equality and an order, `localeCompare`.
module _ {K : Type 0} (same_key : K → K → Bool) (key_precedes : K → K → Bool)
    (key : ResolvedTransaction → K) where
  abbrev pub in_group : ResolvedTransaction → GroupAmount K → Bool
  in_group x g = same_key g.key (key x) && g.currency_code == x.currency_code

  abbrev pub add_magnitude : ResolvedTransaction → GroupAmount K → GroupAmount K
  add_magnitude x g = record g {
    amount_minor = g.amount_minor +ℤ pos (abs x.effective_amount_minor);
  }

  abbrev pub no_amount : ResolvedTransaction → GroupAmount K
  no_amount x = record { key = key x; currency_code = x.currency_code; amount_minor = pos 0 }

  abbrev pub group_precedes : GroupAmount K → GroupAmount K → Bool
  group_precedes a b =
      compare_by (ltb_ℤ b.amount_minor a.amount_minor) (ltb_ℤ a.amount_minor b.amount_minor) (
        compare_by (key_precedes a.key b.key) (key_precedes b.key a.key)
          (ltb a.currency_code b.currency_code))

  unfoldable pub group_amounts : List ResolvedTransaction → List (GroupAmount K)
  unfolding collect sort_by
  group_amounts xs = sort_by group_precedes (collect in_group no_amount add_magnitude xs [])

abbrev pub same_unit : Unit {0} → Unit {0} → Bool
same_unit a b = Bool.true

abbrev pub precedes_unit : Unit {0} → Unit {0} → Bool
precedes_unit a b = Bool.false

unfoldable pub currency_amounts : List ResolvedTransaction → List (CurrencyAmount ℤ)
unfolding group_amounts
currency_amounts xs =
    map (λ g. record { amount_minor = g.amount_minor; currency_code = g.currency_code })
      (group_amounts same_unit precedes_unit (λ _. tt) xs)

pub record AccountAmount : Type 0 where
  pub account_id : Ident
  pub amount_minor : ℤ
  pub currency_code : Ident

-- `expensesByAccount` of `breakdowns`
unfoldable pub account_amounts : List ResolvedTransaction → List AccountAmount
unfolding group_amounts
account_amounts xs =
    map
      (λ g. record {
        account_id = g.key;
        amount_minor = g.amount_minor;
        currency_code = g.currency_code;
      })
      (group_amounts ◌==◌ ltb (λ x. x.rest.account_id) xs)

pub record CategoryAmount : Type 0 where
  pub amount_minor : ℤ
  pub category_id : Option Ident
  pub category_name : Ident
  pub currency_code : Ident

-- The two parts of a category's key; `empty_text` is '' and `uncategorized` 'Uncategorized'.
abbrev pub category_key : Ident → Ident → ResolvedTransaction → Ident × Ident
category_key empty_text uncategorized x =
    (get_or x.rest.category_id empty_text, get_or x.rest.category_name uncategorized)

abbrev pub same_pair : Ident × Ident → Ident × Ident → Bool
same_pair a b = a.0 == b.0 && a.1 == b.1

-- `collates` is `localeCompare` of two joined keys.
unfoldable pub category_amounts :
    Ident
    → Ident
    → (Ident × Ident → Ident × Ident → Bool)
    → List ResolvedTransaction
    → List CategoryAmount
unfolding group_amounts
category_amounts empty_text uncategorized collates xs =
    map
      (λ g. record {
        amount_minor = g.amount_minor;
        category_id = if g.key.0 == empty_text then none else some g.key.0;
        category_name = g.key.1;
        currency_code = g.currency_code;
      })
      (group_amounts same_pair collates (category_key empty_text uncategorized) xs)

pub record MerchantAmount : Type 0 where
  pub amount_minor : ℤ
  pub currency_code : Ident
  pub description : Ident
  pub transaction_count : ℕ

abbrev pub merchant_precedes : MerchantAmount → MerchantAmount → Bool
merchant_precedes a b =
    compare_by (ltb_ℤ b.amount_minor a.amount_minor) (ltb_ℤ a.amount_minor b.amount_minor) (
      compare_by (ltb b.transaction_count a.transaction_count)
        (ltb a.transaction_count b.transaction_count) (ltb a.description b.description))

unfoldable pub merchant_amounts : List ResolvedTransaction → List MerchantAmount
unfolding collect sort_by
merchant_amounts xs = take 10 (
    sort_by merchant_precedes (
      collect (λ x m. is_of_merchant m.currency_code m.description x)
        (λ x. record {
          amount_minor = pos 0;
          currency_code = x.currency_code;
          description = x.rest.original_description;
          transaction_count = 0;
        })
        (λ x m. record m {
          amount_minor = m.amount_minor +ℤ expense_of x;
          transaction_count = suc m.transaction_count;
        })
        xs []))

pub record WeekdayAmount : Type 0 where
  pub amount_minor : ℤ
  pub currency_code : Ident
  pub transaction_count : ℕ
  pub weekday : ℕ

abbrev pub empty_weekday : Ident → ℕ → WeekdayAmount
empty_weekday code weekday = record {
  amount_minor = pos 0;
  currency_code = code;
  transaction_count = 0;
  weekday = weekday;
}

abbrev pub weekdays : List ℕ
weekdays = 1 ∷ 2 ∷ 3 ∷ 4 ∷ 5 ∷ 6 ∷ 7 ∷ []

-- The slots that the two loops set up.
unfoldable pub empty_weekdays : List Ident → List WeekdayAmount
empty_weekdays [] = []
empty_weekdays (code ∷ codes) = map (empty_weekday code) weekdays ++ empty_weekdays codes

abbrev pub is_slot : Ident → ℕ → WeekdayAmount → Bool
is_slot code weekday w = w.currency_code == code && w.weekday == weekday

abbrev pub in_slot : ResolvedTransaction → WeekdayAmount → Bool
in_slot x w = is_slot x.currency_code (weekday_number x.original_timestamp) w

abbrev pub add_weekday : ResolvedTransaction → WeekdayAmount → WeekdayAmount
add_weekday x w = record w {
  amount_minor = w.amount_minor +ℤ expense_of x;
  transaction_count = suc w.transaction_count;
}

-- `values.get(…)` and the change of its value, where there is one.
unfoldable pub change_slot : ResolvedTransaction → List WeekdayAmount → List WeekdayAmount
change_slot x [] = []
change_slot x (w ∷ ws) =
    let rest = change_slot x ws in if in_slot x w then add_weekday x w ∷ ws else w ∷ rest

unfoldable pub fill_slots : List ResolvedTransaction → List WeekdayAmount → List WeekdayAmount
unfolding change_slot
fill_slots [] ws = ws
fill_slots (x ∷ xs) ws = fill_slots xs (change_slot x ws)

abbrev pub weekday_precedes : WeekdayAmount → WeekdayAmount → Bool
weekday_precedes a b =
    compare_by (ltb a.currency_code b.currency_code) (ltb b.currency_code a.currency_code)
      (ltb a.weekday b.weekday)

unfoldable pub weekday_amounts : List ResolvedTransaction → List WeekdayAmount
unfolding fill_slots sort_by empty_weekdays
weekday_amounts xs =
    sort_by weekday_precedes
      (fill_slots xs (empty_weekdays (unique (map (λ x. x.currency_code) xs))))
