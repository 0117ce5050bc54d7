-- ===== src/Analytics/Views.antt =====
-- The breakdowns of worker/services/analytics-service.ts as views of the same expenses.
use mono_finance.Common.{
  Ident, ◌≡◌, refl, sym, ◌∙◌, Bool, List, ◌==◌, ltb, ==_to, and_parts, filter, All, All-mono,
  if◌then◌else◌, Bool-cases, inl, inr, arith,
}
use mono_finance.Common.Int.{ℤ, pos, ◌+ℤ◌, ◌≤ℤ◌, abs, neg, int_laws}
use mono_finance.Common.Money.{expense}
use mono_finance.Common.Groups.{
  sum_by, sum_by-map, sum_by-sort_by, sum_by-collect, sum_by-All, sum_by-filter,
}
use mono_finance.Analytics.Transactions.{ResolvedTransaction}
use mono_finance.Analytics.Totals.{is_in}
use mono_finance.Analytics.Totals.Entries.{expense_part}
use mono_finance.Analytics.Breakdowns.{
  in_group, add_magnitude, no_amount, group_amounts, account_amounts, category_amounts,
  currency_amounts, weekday_amounts, same_pair, category_key, same_unit, precedes_unit,
}
use mono_finance.Analytics.Breakdowns.Weekdays.{weekday_in, spent_in, sum_by-weekday_amounts}
use mono_finance.Analytics.Recurring.{
  FixedVariableAmount, RecurringExpense, fixed_variable_expense_amounts, no_expense, add_expense,
  fixed_precedes, is_recurring,
}

-- An expense whose amount is not positive, as the tables' CHECK has it.
abbrev pub IsSpending : ResolvedTransaction → Type 0
IsSpending x = (x.rest.direction ≡ expense) × (x.effective_amount_minor ≤ℤ pos 0)

-- The amount of an entry in a currency.
abbrev pub amount_if : Ident → Ident → ℤ → ℤ
amount_if code entry amount = if entry == code then amount else pos 0

abbrev magnitude_in : Ident → ResolvedTransaction → ℤ
magnitude_in code x = amount_if code x.currency_code (pos (abs x.effective_amount_minor))

module _ {K : Type 0} (same_key key_precedes : K → K → Bool) (key : ResolvedTransaction → K) where
  sum_by-group_amounts :
      (code : Ident) (xs : List ResolvedTransaction)
      → sum_by
          (λ g. amount_if code g.currency_code g.amount_minor)
          (group_amounts same_key key_precedes key xs)
        ≡ sum_by (magnitude_in code) xs
  unfolding group_amounts
  sum_by-group_amounts code xs =
      sum_by-sort_by (λ g. amount_if code g.currency_code g.amount_minor) _ _
      ∙ sum_by-collect (in_group same_key key_precedes key) (no_amount same_key key_precedes key)
          (add_magnitude same_key key_precedes key)
          (λ g. amount_if code g.currency_code g.amount_minor) (magnitude_in code)
          (λ x. elim (Bool-cases (x.currency_code == code)) [
            | inl e ↦ rw e (omega int_laws)
            | inr e ↦ rw e refl
          ])
          (λ x g h.
            let same =
              ==_to g.currency_code x.currency_code
                (and_parts (same_key g.key (key x)) (g.currency_code == x.currency_code) h).1 in
            rw same (elim (Bool-cases (x.currency_code == code)) [
              | inl e ↦ rw e refl
              | inr e ↦ rw e (omega int_laws)
            ]))
          xs

abs-neg : (a : ℤ) → a ≤ℤ pos 0 → pos (abs a) ≡ neg a
unfolding neg
abs-neg a h = ground arith

spending_magnitude :
    (code : Ident) (xs : List ResolvedTransaction)
    → All IsSpending xs
    → sum_by (magnitude_in code) xs ≡ sum_by (spent_in code) xs
spending_magnitude code xs spending = sum_by-All (magnitude_in code) (spent_in code) xs (
    All-mono IsSpending _
      (λ x (_, low). elim (Bool-cases (x.currency_code == code)) [
        | inl e ↦ rw e (abs-neg x.effective_amount_minor low)
        | inr e ↦ rw e refl
      ])
      xs spending)

sum_by-fixed_variable :
    (code : Ident) (recurring : List RecurringExpense) (xs : List ResolvedTransaction)
    → sum_by
        (λ v.
          amount_if code v.currency_code
            (v.fixed_expense_amount_minor +ℤ v.variable_expense_amount_minor))
        (fixed_variable_expense_amounts xs recurring)
      ≡ sum_by (spent_in code) xs
unfolding fixed_variable_expense_amounts
sum_by-fixed_variable code recurring xs =
    sum_by-sort_by measure fixed_precedes _
    ∙ sum_by-collect (λ x v. v.currency_code == x.currency_code) (λ x. no_expense x.currency_code)
        (add_expense recurring) measure (spent_in code)
        (λ x.
          grows x (no_expense x.currency_code) refl ∙ elim (Bool-cases (x.currency_code == code)) [
            | inl e ↦ rw e (omega int_laws)
            | inr e ↦ rw e (omega int_laws)
          ])
        (λ x v h. grows x v (==_to v.currency_code x.currency_code h)) xs
  where
    measure : FixedVariableAmount → ℤ
    measure v =
        amount_if code v.currency_code
          (v.fixed_expense_amount_minor +ℤ v.variable_expense_amount_minor)

    grows :
        (x : ResolvedTransaction) (v : FixedVariableAmount)
        → v.currency_code ≡ x.currency_code
        → measure (add_expense recurring x v) ≡ measure v +ℤ spent_in code x
    grows x v same = elim (Bool-cases (is_recurring recurring x)) [
      | inl r ↦
          rw (r, same)
            (elim (Bool-cases (x.currency_code == code)) [
              | inl e ↦ rw e (omega int_laws)
              | inr e ↦ rw e (omega int_laws)
            ])
      | inr r ↦
          rw (r, same)
            (elim (Bool-cases (x.currency_code == code)) [
              | inl e ↦ rw e (omega int_laws)
              | inr e ↦ rw e (omega int_laws)
            ])
    ]

-- What `totals` counts as spent in the currency.
spent_total :
    (code : Ident) (xs : List ResolvedTransaction)
    → All IsSpending xs
    → sum_by (spent_in code) xs ≡ sum_by expense_part (filter (is_in code) xs)
spent_total code xs spending =
    sum_by-All (spent_in code) (λ x. if is_in code x then expense_part x else pos 0) xs
      (All-mono IsSpending _ (λ x (dir, _). rw dir refl) xs spending)
    ∙ sym (sum_by-filter expense_part (is_in code) xs)

-- For expenses none of which has a positive amount: in each currency, the amounts by account, by
-- category, by currency, by weekday, and the fixed and variable ones together, each add up to the sum
-- that the currency's totals show as expense.
pub breakdowns-agree :
    (empty_text uncategorized : Ident) (collates : Ident × Ident → Ident × Ident → Bool)
    (recurring : List RecurringExpense) (code : Ident) (xs : List ResolvedTransaction)
    → All IsSpending xs
    → let spent = sum_by expense_part (filter (is_in code) xs) in
      (sum_by (λ a. amount_if code a.currency_code a.amount_minor) (account_amounts xs) ≡ spent)
      × (sum_by
            (λ a. amount_if code a.currency_code a.amount_minor)
            (category_amounts empty_text uncategorized collates xs)
          ≡ spent)
      × (sum_by (λ a. amount_if code a.currency_code a.amount_minor) (currency_amounts xs) ≡ spent)
      × (sum_by (weekday_in code) (weekday_amounts xs) ≡ spent)
      × (sum_by
            (λ v.
              amount_if code v.currency_code
                (v.fixed_expense_amount_minor +ℤ v.variable_expense_amount_minor))
            (fixed_variable_expense_amounts xs recurring)
          ≡ spent)
unfolding account_amounts category_amounts currency_amounts
breakdowns-agree empty_text uncategorized collates recurring code xs spending =
    let spent = spent_total code xs spending in
    let magnitudes = spending_magnitude code xs spending in
    (
      sum_by-map _ _ (group_amounts ◌==◌ ltb (λ x. x.rest.account_id) xs)
          ∙ sum_by-group_amounts ◌==◌ ltb (λ x. x.rest.account_id) code xs
          ∙ magnitudes
          ∙ spent,
      sum_by-map _ _ (group_amounts same_pair collates (category_key empty_text uncategorized) xs)
          ∙ sum_by-group_amounts same_pair collates (category_key empty_text uncategorized) code xs
          ∙ magnitudes
          ∙ spent,
      sum_by-map _ _ (group_amounts same_unit precedes_unit (λ _. tt) xs)
          ∙ sum_by-group_amounts same_unit precedes_unit (λ _. tt) code xs
          ∙ magnitudes
          ∙ spent,
      sum_by-weekday_amounts code xs ∙ spent,
      sum_by-fixed_variable code recurring xs ∙ spent,
    )
