-- ===== src/Compensation/Tables/Accepted.antt =====
-- What a row that `compensation_links` accepts has been checked for
-- (migrations/0001_initial_schema.sql).
use mono_finance.Common.{◌≡◌, inl, inr, true, some, arith, filter, Option-cases, ◌&&◌, sym, ◌∙◌}
use mono_finance.Common.Int.{pos, neg, ◌-ℤ◌, ◌≤ℤ◌}
use mono_finance.Common.Money.{income, expense}
use mono_finance.Compensation.Tables.{
  Transaction, Link, Tables, of_expense, of_income, total, trigger_allows, row_allows,
  is_insertable,
}

-- What D1 has checked of a row that it accepts.
pub record IsAccepted (t : Tables) (new : Link) (e i : Transaction) : Type 0 where
  pub found_expense : t.transactions new.expense_transaction_id ≡ some e
  pub found_income : t.transactions new.compensation_transaction_id ≡ some i
  pub expense_direction : e.direction ≡ expense
  pub income_direction : i.direction ≡ income
  pub expense_user : e.user_id ≡ new.user_id
  pub income_user : i.user_id ≡ new.user_id
  pub within_expense :
      new.compensated_amount_minor
      ≤ℤ neg e.original_amount_minor
        -ℤ total (filter (of_expense new.expense_transaction_id) t.links)
  pub within_income :
      new.compensated_amount_minor
      ≤ℤ i.original_amount_minor
        -ℤ total (filter (of_income new.compensation_transaction_id) t.links)
  pub amount : pos 1 ≤ℤ new.compensated_amount_minor

pub is_insertable_eq :
    (t : Tables) (new : Link) (e i : Transaction)
    → t.transactions new.expense_transaction_id ≡ some e
    → t.transactions new.compensation_transaction_id ≡ some i
    → is_insertable t new ≡ (trigger_allows t.links new e i && row_allows t.links new)
unfolding is_insertable
is_insertable_eq t new e i found_e found_i = rw (found_e, is_insertable) (rw found_i)

pub accepted :
    (t : Tables) (new : Link) (e i : Transaction)
    → t.transactions new.expense_transaction_id ≡ some e
    → t.transactions new.compensation_transaction_id ≡ some i
    → (trigger_allows t.links new e i && row_allows t.links new) ≡ true
    → IsAccepted t new e i
unfolding trigger_allows row_allows
accepted t new e i found_e found_i h = record {
  found_expense = found_e;
  found_income = found_i;
  expense_direction = ground arith;
  income_direction = ground arith;
  expense_user = ground arith;
  income_user = ground arith;
  within_expense = ground arith;
  within_income = ground arith;
  amount = ground arith;
}

insertable_ends :
    (t : Tables) (new : Link)
    → is_insertable t new ≡ true
    → (e : Transaction) × (i : Transaction) × (t.transactions new.expense_transaction_id ≡ some e)
      × (t.transactions new.compensation_transaction_id ≡ some i)
unfolding is_insertable
insertable_ends t new h = elim (Option-cases (t.transactions new.expense_transaction_id)) [
  | inl no_expense ↦ cc (rw (no_expense, is_insertable) at h)
  | inr (e, found_e) ↦ elim (Option-cases (t.transactions new.compensation_transaction_id)) [
    | inl no_income ↦ cc (rw no_income at (rw (found_e, is_insertable) at h))
    | inr (i, found_i) ↦ (e, i, found_e, found_i)
  ]
]

-- A row that D1 accepts joins an expense and an income of its user, within both amounts.
pub insertable-IsAccepted :
    (t : Tables) (new : Link)
    → is_insertable t new ≡ true
    → (e : Transaction) × (i : Transaction) × IsAccepted t new e i
insertable-IsAccepted t new h =
    let (e, i, found_e, found_i) = insertable_ends t new h in
    (
      e,
      i,
      accepted t new e i found_e found_i (sym (is_insertable_eq t new e i found_e found_i) ∙ h),
    )
