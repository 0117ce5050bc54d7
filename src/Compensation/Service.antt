-- ===== src/Compensation/Service.antt =====
-- `CompensationService` of worker/services/compensation-service.ts: the three use cases, over the
-- tables. The id of a new row and the clock are arguments.
pub mod Views
pub mod Accepts
pub mod Outcome
pub mod Undo
use mono_finance.Common.{Ident, ℕ, Bool, ◌||◌, not, none, some, List, ◌==◌, any}
use mono_finance.Common.Int.{ℤ, Number, integer, is_safe_integer, pos, neg, ◌-ℤ◌, ltb_ℤ, leb_ℤ}
use mono_finance.Common.Money.{is_income, is_expense}
use mono_finance.Common.Action.{◌>>=◌, ◌>>◌, Result, Action, pure, gets, or_throw, throw_if, modify}
use mono_finance.Compensation.Tables.{
  Transaction, Link, Tables, total, find_owned_transaction, find_expense_links, find_income_links,
  create_link, delete_link,
}
use mono_finance.Compensation.Score.{TextOps, Summary, summary, Suggestion, suggest}

-- The three codes of `CompensationError`, and an error of the database, which is none of them.
pub data CompensationError : Type 0 where
  invalid_compensation link_not_found transaction_not_found database_error : CompensationError

abbrev pub Call : Type 0 → Type 0
Call = Action Tables CompensationError

pub record Details : Type 0 where
  pub links : List Link
  pub suggestions : List Suggestion
  pub summary : Summary

pub record LinkInput : Type 0 where
  pub compensated_amount_minor : Number
  pub compensation_transaction_id : Ident

unfoldable pub required_transaction : Ident → Ident → Call Transaction
required_transaction user id = do
  found ← gets (find_owned_transaction id user)
  or_throw found transaction_not_found

-- `assertExpense`
abbrev pub is_no_expense : Transaction → Bool
is_no_expense x = not (is_expense x.direction) || leb_ℤ (pos 0) x.original_amount_minor

unfoldable pub get_details : TextOps → Ident → Ident → Call Details
unfolding required_transaction
get_details ops user expense_id = do
  expense ← required_transaction user expense_id
  throw_if (is_no_expense expense) invalid_compensation
  links ← gets (find_expense_links expense.id user)
  suggestions ← gets (suggest ops user expense links)
  pure (record { links = links; suggestions = suggestions; summary = summary expense links })

-- The first check of `link`; the tests of the amount read its value only if it is an integer.
abbrev pub is_mismatch : Transaction → Transaction → Number → Bool
is_mismatch expense income amount =
    not (is_income income.direction)
    || not (income.original_currency_code == expense.original_currency_code)
    || not (is_safe_integer amount)
    || leb_ℤ (integer amount) (pos 0)

-- The last check of `link`.
abbrev pub exceeds : Transaction → Transaction → List Link → List Link → ℤ → Bool
exceeds expense income expense_links income_links amount =
    ltb_ℤ (neg expense.original_amount_minor -ℤ total expense_links) amount
    || ltb_ℤ (income.original_amount_minor -ℤ total income_links) amount

-- `createLink`, where an aborted statement is an error that the service does not handle.
abbrev pub create : Link → Call (Unit {0})
create new t = elim (create_link new t) [
  | none ↦ (Result.err database_error, t)
  | some t' ↦ (Result.ok tt, t')
]

abbrev pub new_link : Ident → ℕ → Ident → Ident → Transaction → LinkInput → Link
new_link id now user expense_id expense input = record {
  id = id;
  expense_transaction_id = expense_id;
  compensation_transaction_id = input.compensation_transaction_id;
  user_id = user;
  compensated_amount_minor = integer input.compensated_amount_minor;
  currency_code = expense.original_currency_code;
  created_at = now;
}

unfoldable pub link : TextOps → Ident → ℕ → Ident → Ident → LinkInput → Call Details
unfolding required_transaction get_details
link ops new_id now user expense_id input = do
  expense ← required_transaction user expense_id
  income ← required_transaction user input.compensation_transaction_id
  throw_if (is_no_expense expense) invalid_compensation
  throw_if (is_mismatch expense income input.compensated_amount_minor) invalid_compensation
  expense_links ← gets (find_expense_links expense.id user)
  throw_if (any (λ l. l.compensation_transaction_id == income.id) expense_links)
      invalid_compensation
  income_links ← gets (find_income_links income.id user)
  throw_if
      (exceeds expense income expense_links income_links (integer input.compensated_amount_minor))
      invalid_compensation
  create (new_link new_id now user expense_id expense input)
  get_details ops user expense_id

unfoldable pub unlink : TextOps → Ident → Ident → Ident → Call Details
unfolding required_transaction get_details delete_link
unlink ops user expense_id link_id = do
  expense ← required_transaction user expense_id
  throw_if (is_no_expense expense) invalid_compensation
  links ← gets (find_expense_links expense.id user)
  throw_if (not (any (λ l. l.id == link_id) links)) link_not_found
  modify (delete_link link_id expense.id user)
  get_details ops user expense_id
