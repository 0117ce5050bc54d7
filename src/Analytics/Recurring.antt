-- ===== src/Analytics/Recurring.antt =====
-- Repeated purchases: `recurringExpenseAmounts` and `fixedVariableExpenseAmounts` of worker/services/
-- analytics-service.ts.
use mono_finance.Common.{
  Ident, ℕ, suc, ◌+◌, ◌-◌, ◌*◌, ◌/◌, Bool, ◌&&◌, Option, none, some, List, [], ◌∷◌, ◌++◌, ltb, leb,
  ◌==◌, any, filter, length, if◌then◌else◌, max,
}
use mono_finance.Common.Int.{ℤ, pos, ◌+ℤ◌, ltb_ℤ}
use mono_finance.Common.Sort.{sort_by}
use mono_finance.Common.Groups.{collect, sum_by}
use mono_finance.Analytics.Calendar.{day_seconds}
use mono_finance.Analytics.Transactions.{
  ResolvedTransaction, expense_of, is_of_merchant, compare_by, round_div,
}

pub record RecurringExpense : Type 0 where
  pub average_amount_minor : ℤ
  pub currency_code : Ident
  pub description : Ident
  pub frequency_days : ℕ
  pub last_amount_minor : ℤ
  pub transaction_count : ℕ

-- An entry of the map: its key's two parts and its transactions.
pub record MerchantGroup : Type 0 where
  pub currency_code : Ident
  pub description : Ident
  pub transactions : List ResolvedTransaction

abbrev pub in_merchant : ResolvedTransaction → MerchantGroup → Bool
in_merchant x g = is_of_merchant g.currency_code g.description x

abbrev pub no_purchases : ResolvedTransaction → MerchantGroup
no_purchases x = record {
  currency_code = x.currency_code;
  description = x.rest.original_description;
  transactions = [];
}

abbrev pub add_purchase : ResolvedTransaction → MerchantGroup → MerchantGroup
add_purchase x g = record g { transactions = g.transactions ++ x ∷ [] }

unfoldable pub merchant_groups : List ResolvedTransaction → List MerchantGroup
unfolding collect
merchant_groups xs = collect in_merchant no_purchases add_purchase xs []

abbrev pub earlier : ResolvedTransaction → ResolvedTransaction → Bool
earlier a b = ltb a.original_timestamp b.original_timestamp

-- `sorted.at(-1)`
abbrev pub last_of : ResolvedTransaction → List ResolvedTransaction → ResolvedTransaction
last_of x [] = x
last_of x (y ∷ ys) = last_of y ys

-- `Math.round(seconds / (86_400 * gaps))`, for gaps > 0.
abbrev pub mean_gap_days : ℕ → ℕ → ℕ
mean_gap_days seconds gaps = (2 * seconds + day_seconds * gaps) / (2 * (day_seconds * gaps))

-- A group's evidence, from its sorted transactions; `none` is the Error of an empty group.
abbrev pub evidence_of : List ResolvedTransaction → Option RecurringExpense
evidence_of [] = none
evidence_of (first ∷ others) =
    let last = last_of first others in
    some (record {
      average_amount_minor = round_div (sum_by expense_of (first ∷ others)) (suc (length others));
      currency_code = first.currency_code;
      description = first.rest.original_description;
      frequency_days =
          max 1
            (mean_gap_days (last.original_timestamp - first.original_timestamp) (length others));
      last_amount_minor = expense_of last;
      transaction_count = suc (length others);
    })

-- `map`, in which the first throw leaves the loop.
abbrev pub push_evidence :
    Option RecurringExpense → Option (List RecurringExpense) → Option (List RecurringExpense)
push_evidence none rest = none
push_evidence (some e) none = none
push_evidence (some e) (some es) = some (e ∷ es)

unfoldable pub all_evidence : List MerchantGroup → Option (List RecurringExpense)
unfolding sum_by sort_by
all_evidence [] = some []
all_evidence (g ∷ gs) =
    push_evidence (evidence_of (sort_by earlier g.transactions)) (all_evidence gs)

abbrev pub recurring_precedes : RecurringExpense → RecurringExpense → Bool
recurring_precedes a b =
    compare_by (ltb_ℤ b.average_amount_minor a.average_amount_minor)
      (ltb_ℤ a.average_amount_minor b.average_amount_minor)
      (compare_by (ltb b.transaction_count a.transaction_count)
        (ltb a.transaction_count b.transaction_count) (ltb a.description b.description))

abbrev pub sort_evidence : Option (List RecurringExpense) → Option (List RecurringExpense)
sort_evidence none = none
sort_evidence (some es) = some (sort_by recurring_precedes es)

-- The two filters: a merchant of the selected expenses, with two purchases or more.
abbrev pub is_repeated : List ResolvedTransaction → MerchantGroup → Bool
is_repeated selected g =
    any (is_of_merchant g.currency_code g.description) selected && leb 2 (length g.transactions)

unfoldable pub recurring_expense_amounts :
    List ResolvedTransaction → List ResolvedTransaction → Option (List RecurringExpense)
unfolding merchant_groups all_evidence sort_by
recurring_expense_amounts xs selected =
    sort_evidence (all_evidence (filter (is_repeated selected) (merchant_groups xs)))

pub record FixedVariableAmount : Type 0 where
  pub currency_code : Ident
  pub fixed_expense_amount_minor : ℤ
  pub variable_expense_amount_minor : ℤ

abbrev pub is_recurring : List RecurringExpense → ResolvedTransaction → Bool
is_recurring recurring x = any (λ e. is_of_merchant e.currency_code e.description x) recurring

abbrev pub no_expense : Ident → FixedVariableAmount
no_expense code = record {
  currency_code = code;
  fixed_expense_amount_minor = pos 0;
  variable_expense_amount_minor = pos 0;
}

abbrev pub add_expense :
    List RecurringExpense → ResolvedTransaction → FixedVariableAmount → FixedVariableAmount
add_expense recurring x v =
    if is_recurring recurring x
    then record v { fixed_expense_amount_minor = v.fixed_expense_amount_minor +ℤ expense_of x }
    else record v {
      variable_expense_amount_minor = v.variable_expense_amount_minor +ℤ expense_of x;
    }

abbrev pub fixed_precedes : FixedVariableAmount → FixedVariableAmount → Bool
fixed_precedes a b = ltb a.currency_code b.currency_code

unfoldable pub fixed_variable_expense_amounts :
    List ResolvedTransaction → List RecurringExpense → List FixedVariableAmount
unfolding collect sort_by
fixed_variable_expense_amounts xs recurring = sort_by fixed_precedes (
    collect (λ x v. v.currency_code == x.currency_code) (λ x. no_expense x.currency_code)
      (add_expense recurring) xs [])
