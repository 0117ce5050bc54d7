-- ===== src/Compensation/Tables.antt =====
-- The tables `transactions` and `compensation_links` as worker/repositories/
-- compensation-repository.ts reads and writes them. `transactions` is a function from its primary
-- key, with the list of the ids that it holds. `createLink` runs the checks of the table's
-- definition and of the trigger `validate_compensation_link_insert`
-- (migrations/0001_initial_schema.sql).
pub mod Ledger
pub mod Accepted
pub mod Invariant
pub mod Insert
use mono_finance.Common.{
  Ident, ℕ, Bool, false, ◌&&◌, ◌||◌, not, Option, none, some, List, [], ◌∷◌, ltb, ◌==◌,
  if◌then◌else◌, any, filter, take,
}
use mono_finance.Common.Int.{ℤ, pos, neg, ◌+ℤ◌, ◌-ℤ◌, ltb_ℤ, leb_ℤ}
use mono_finance.Common.Money.{Direction, is_income, is_expense}
use mono_finance.Common.Sort.{sort_by}

-- A text: its UTF-16 code units.
abbrev pub Text : Type 0
Text = List ℕ

pub record Transaction : Type 0 where
  pub id : Ident
  pub user_id : Ident
  pub direction : Direction
  pub original_amount_minor : ℤ
  pub original_currency_code : Ident
  pub original_description : Text
  pub original_timestamp : ℕ

pub record Link : Type 0 where
  pub id : Ident
  pub expense_transaction_id : Ident
  pub compensation_transaction_id : Ident
  pub user_id : Ident
  pub compensated_amount_minor : ℤ
  pub currency_code : Ident
  pub created_at : ℕ

pub record Tables : Type 0 where
  pub transactions : Ident → Option Transaction
  pub transaction_ids : List Ident
  pub links : List Link

-- `findOwnedTransaction`: WHERE id = ? AND user_id = ?
unfoldable pub find_owned_transaction : Ident → Ident → Tables → Option Transaction
find_owned_transaction id user t = elim (t.transactions id) [
  | none ↦ none
  | some x ↦ if x.user_id == user then some x else none
]

-- ORDER BY created_at ASC, id ASC
abbrev pub link_precedes : Link → Link → Bool
link_precedes a b = ltb a.created_at b.created_at || (a.created_at == b.created_at && ltb a.id b.id)

abbrev pub of_expense : Ident → Link → Bool
of_expense id l = l.expense_transaction_id == id

abbrev pub of_income : Ident → Link → Bool
of_income id l = l.compensation_transaction_id == id

abbrev pub of_user : Ident → Link → Bool
of_user user l = l.user_id == user

-- `findLinks`, on either column. The joined columns of the incoming transaction, which only the
-- answer to the browser shows, are left out.
unfoldable pub find_links : (Link → Bool) → Ident → Tables → List Link
find_links column user t = sort_by link_precedes (filter (λ l. column l && of_user user l) t.links)

abbrev pub find_expense_links : Ident → Ident → Tables → List Link
find_expense_links expense = find_links (of_expense expense)

abbrev pub find_income_links : Ident → Ident → Tables → List Link
find_income_links income = find_links (of_income income)

-- ORDER BY original_timestamp DESC, id DESC
abbrev pub newer : Transaction → Transaction → Bool
newer a b =
    ltb b.original_timestamp a.original_timestamp
    || (b.original_timestamp == a.original_timestamp && ltb b.id a.id)

abbrev pub is_income_candidate : Ident → Ident → List Link → Transaction → Bool
is_income_candidate user currency links x =
    x.user_id == user
    && is_income x.direction
    && x.original_currency_code == currency
    && not (any (of_income x.id) links)

-- The rows of `transactions`.
unfoldable pub rows : (Ident → Option Transaction) → List Ident → List Transaction
rows transactions [] = []
rows transactions (id ∷ ids) = elim (transactions id) [
  | none ↦ rows transactions ids
  | some x ↦ x ∷ rows transactions ids
]

-- `findIncomeCandidates`
unfoldable pub find_income_candidates : Ident → Ident → Tables → List Transaction
unfolding rows sort_by
find_income_candidates user currency t = take 100 (
    sort_by newer
      (filter (is_income_candidate user currency t.links) (rows t.transactions t.transaction_ids)))

-- SUM(compensated_amount_minor), 0 where no row is there.
unfoldable pub total : List Link → ℤ
total [] = pos 0
total (l ∷ ls) = l.compensated_amount_minor +ℤ total ls

-- The checks on the two transactions of a new row, in the trigger's order, then the two limits.
unfoldable pub trigger_allows : List Link → Link → Transaction → Transaction → Bool
trigger_allows links new expense income =
    is_expense expense.direction
    && is_income income.direction
    && (new.currency_code == expense.original_currency_code
        && new.currency_code == income.original_currency_code
        && (new.user_id == expense.user_id && new.user_id == income.user_id))
    && (leb_ℤ new.compensated_amount_minor (
          neg expense.original_amount_minor
          -ℤ total (filter (of_expense new.expense_transaction_id) links))
        && leb_ℤ new.compensated_amount_minor (
            income.original_amount_minor
            -ℤ total (filter (of_income new.compensation_transaction_id) links)))

-- PRIMARY KEY, UNIQUE (expense_transaction_id, compensation_transaction_id) and the two CHECKs.
unfoldable pub row_allows : List Link → Link → Bool
row_allows links new =
    not (any (λ l. l.id == new.id) links)
    && not (
        any
          (λ l.
            of_expense new.expense_transaction_id l && of_income new.compensation_transaction_id l)
          links)
    && (ltb_ℤ (pos 0) new.compensated_amount_minor
        && not (new.expense_transaction_id == new.compensation_transaction_id))

-- Whether D1 accepts the row; the foreign keys want both transactions to be there.
unfoldable pub is_insertable : Tables → Link → Bool
unfolding trigger_allows row_allows
is_insertable t new = elim (t.transactions new.expense_transaction_id) [
  | none ↦ false
  | some expense ↦ elim (t.transactions new.compensation_transaction_id) [
    | none ↦ false
    | some income ↦ trigger_allows t.links new expense income && row_allows t.links new
  ]
]

-- `createLink`: the new tables, or `none` where the statement is aborted.
unfoldable pub create_link : Link → Tables → Option Tables
unfolding is_insertable
create_link new t = if is_insertable t new then some (record t { links = new ∷ t.links }) else none

-- `deleteLink`
unfoldable pub delete_link : Ident → Ident → Ident → Tables → Tables
delete_link link_id expense user t = record t {
  links = filter (λ l. not (l.id == link_id && of_expense expense l && of_user user l)) t.links;
}
