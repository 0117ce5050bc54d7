-- ===== src/Listing/Query.antt =====
-- `D1TransactionsRepository.list` of worker/repositories/transactions-repository.ts. The joined rows
-- are one list; an id is compared in ORDER BY as the number that stands for it.
pub mod Suffix
pub mod Cuts
pub mod Pages
use mono_finance.Common.{
  Ident, ℕ, suc, Bool, true, false, ◌&&◌, ◌||◌, not, Option, none, some, get_or, is_none, List, [],
  ◌∷◌, map, ltb, leb, ◌==◌, any, filter, take, length, if◌then◌else◌,
}
use mono_finance.Common.Int.{ℤ, pos, ltb_ℤ, Number, int, is_safe_integer}
use mono_finance.Common.Money.{Direction, income, expense, is_income, is_expense}
use mono_finance.Common.Sort.{sort_by}
use mono_finance.Compensation.Tables.{Text, Link}
use mono_finance.Listing.Rows.{
  JoinedRow, CategoryColumns, TransactionListItem, map_transaction_row, excluded_of,
}
use mono_finance.Listing.Search.{ascii_lower, like, search_pattern}

pub record ListingTables : Type 0 where
  pub rows : List JoinedRow
  pub links : List Link

pub data CategoryIdentity : Type 0 where
  id : Ident → CategoryIdentity
  uncategorized : CategoryIdentity

-- What is undefined or null in the source is `none`.
pub record TransactionListInput : Type 0 where
  pub account_ids : List Ident
  pub category_identity : Option CategoryIdentity
  pub category : Option Ident
  pub cursor : Option Text
  pub currency : Option Ident
  pub date_from : Option ℕ
  pub date_to : Option ℕ
  pub direction : Option Direction
  pub excluded : Option Bool
  pub has_adjustment : Option Bool
  pub has_compensation : Option Bool
  pub limit : ℕ
  pub search : Option Text
  pub user_id : Ident

pub record TransactionCursor : Type 0 where
  pub id : Ident
  pub timestamp : ℤ

-- What `JSON.parse(atob(value))` gives, as far as a cursor is read from it: an object, with its `id`
-- where that is a text and its `timestamp` where that is a number.
pub data Json : Type 0 where
  object : Option Ident → Option Number → Json
  not_an_object : Json

abbrev pub cursor_from : Option Ident → Option Number → Option TransactionCursor
cursor_from (some i) (some (int t)) =
    if is_safe_integer (int t) then some (record { id = i; timestamp = t }) else none
cursor_from _ _ = none

-- The shape that a parsed cursor must have; `none` is the Error of `decodeCursor`.
abbrev pub cursor_of : Option Json → Option TransactionCursor
cursor_of (some (object i t)) = cursor_from i t
cursor_of (some not_an_object) = none
cursor_of none = none

-- A condition that is there when its filter is.
abbrev pub when : {A : Type 0} → Option A → (A → Bool) → Bool
when none test = true
when (some a) test = test a

abbrev pub same_direction : Direction → Direction → Bool
same_direction income d = is_income d
same_direction expense d = is_expense d

abbrev pub same_bool : Bool → Bool → Bool
same_bool true b = b
same_bool false b = not b

-- COALESCE(categories.id, mapped_categories.id, transactions.original_category_code)
abbrev pub category_identity_of :
    Option CategoryColumns → Option CategoryColumns → Option Ident → Option Ident
category_identity_of (some c) _ code = some c.id
category_identity_of none (some c) code = some c.id
category_identity_of none none code = code

-- COALESCE(categories.name, mapped_categories.name, transactions.original_category_name)
abbrev pub category_name_of :
    Option CategoryColumns → Option CategoryColumns → Option Ident → Option Ident
category_name_of (some c) _ name = some c.name
category_name_of none (some c) name = some c.name
category_name_of none none name = name

-- `column = ?`, which NULL never is.
abbrev pub is_value : Ident → Option Ident → Bool
is_value value none = false
is_value value (some v) = v == value

abbrev pub has_identity : Option Ident → CategoryIdentity → Bool
has_identity column (id value) = is_value value column
has_identity column uncategorized = is_none column

-- COMPENSATION_EXISTS
unfoldable pub compensation_exists : List Link → JoinedRow → Bool
compensation_exists links row =
    any
      (λ l.
        l.user_id == row.user_id
        && (l.expense_transaction_id == row.id || l.compensation_transaction_id == row.id))
      links

-- The conditions of WHERE but the cursor's; `lowered` is `toLowerCase`.
unfoldable pub matches : (Text → Text) → List Link → TransactionListInput → JoinedRow → Bool
unfolding compensation_exists like search_pattern
matches lowered links input row =
    row.user_id == input.user_id
    && (is_empty input.account_ids || any (λ a. a == row.account_id) input.account_ids)
    && when input.date_from (λ from. leb from row.original_timestamp)
    && when input.date_to (λ to. leb row.original_timestamp to)
    && when input.direction (λ d. same_direction d row.direction)
    && when input.currency (λ c. row.original_currency_code == c)
    && when input.category (λ name.
      is_value name
        (category_name_of row.custom_category row.mapped_category row.original_category_name))
    && when input.category_identity (
        has_identity
          (category_identity_of row.custom_category row.mapped_category row.original_category_code))
    && when input.excluded (λ x. same_bool x (excluded_of row.exclusion))
    && when input.has_adjustment (λ x. same_bool x (not (is_none row.adjustment)))
    && when input.has_compensation (λ x. same_bool x (compensation_exists links row))
    && when input.search
        (λ s. like (search_pattern (lowered s)) (map ascii_lower row.original_description))
  where
    is_empty : List Ident → Bool
    is_empty [] = true
    is_empty (_ ∷ _) = false

-- The cursor's condition.
abbrev pub is_past : TransactionCursor → JoinedRow → Bool
is_past c row =
    ltb_ℤ (pos row.original_timestamp) c.timestamp
    || (not (ltb_ℤ c.timestamp (pos row.original_timestamp)) && ltb row.id c.id)

-- ORDER BY original_timestamp DESC, id DESC
abbrev pub row_precedes : JoinedRow → JoinedRow → Bool
row_precedes a b =
    ltb b.original_timestamp a.original_timestamp
    || (b.original_timestamp == a.original_timestamp && ltb b.id a.id)

abbrev pub cursor_at : JoinedRow → TransactionCursor
cursor_at row = record { id = row.id; timestamp = pos row.original_timestamp }

-- `pageRows.at(-1)`
abbrev pub last_row : List JoinedRow → Option JoinedRow
last_row [] = none
last_row (row ∷ []) = some row
last_row (row ∷ row' ∷ rows) = last_row (row' ∷ rows)

pub record TransactionListResult : Type 0 where
  pub next_cursor : Option Text
  pub transactions : List TransactionListItem

-- The rows that the conditions select, in their order.
unfoldable pub selected :
    (Text → Text) → ListingTables → TransactionListInput → (JoinedRow → Bool) → List JoinedRow
unfolding matches sort_by
selected lowered tables input past =
    sort_by row_precedes
      (filter (λ row. matches lowered tables.links input row && past row) tables.rows)

-- The codes of the platform: `btoa(JSON.stringify(cursor))`, `JSON.parse(atob(value))`, which is
-- `none` where it throws, and `toLowerCase`.
module _ (encode_cursor : TransactionCursor → Text) (parsed : Text → Option Json)
    (lowered : Text → Text) where
  unfoldable pub decode_cursor : Text → Option TransactionCursor
  decode_cursor value = cursor_of (parsed value)

  abbrev pub next_from : Bool → Option JoinedRow → Option Text
  next_from true (some last) = some (encode_cursor (cursor_at last))
  next_from true none = none
  next_from false last = none

  -- The result, from the rows that LIMIT let through.
  abbrev pub page_of : List Link → ℕ → List JoinedRow → TransactionListResult
  page_of links limit rows = record {
    next_cursor = next_from (ltb limit (length rows)) (last_row (take limit rows));
    transactions = map (map_transaction_row (compensation_exists links)) (take limit rows);
  }

  abbrev pub listed :
      ListingTables → TransactionListInput → (JoinedRow → Bool) → TransactionListResult
  listed tables input past =
      page_of tables.links input.limit (take (suc input.limit) (selected lowered tables input past))

  abbrev pub list_after :
      ListingTables → TransactionListInput → Option TransactionCursor → Option TransactionListResult
  list_after tables input none = none
  list_after tables input (some c) = some (listed tables input (is_past c))

  abbrev pub list_from :
      ListingTables → TransactionListInput → Option Text → Option TransactionListResult
  list_from tables input none = some (listed tables input (λ _. true))
  list_from tables input (some text) = list_after tables input (decode_cursor text)

  -- `list`; `none` is the Error of an invalid cursor.
  unfoldable pub list : ListingTables → TransactionListInput → Option TransactionListResult
  unfolding decode_cursor selected map_transaction_row
  list tables input = list_from tables input input.cursor
