-- ===== src/Listing/Filters.antt =====
-- `parseFilters` and `listTransactionsHandler` of worker/routes/transaction-list.ts.
pub mod Accepted
use mono_finance.Common.{
  Ident, ℕ, zero, suc, ◌+◌, ◌-◌, ◌*◌, Bool, true, false, ◌&&◌, ◌||◌, not, Option, none, some,
  get_or, is_none, List, [], ◌∷◌, ◌++◌, map, ltb, leb, ◌==◌, any, length, if◌then◌else◌,
}
use mono_finance.Common.Int.{max_safe_integer}
use mono_finance.Common.Money.{Direction, income, expense}
use mono_finance.Compensation.Tables.{Text}
use mono_finance.Listing.Query.{
  TransactionListInput, TransactionCursor, TransactionListResult, ListingTables, Json,
  CategoryIdentity, id, uncategorized, cursor_of, decode_cursor, list,
}
use mono_finance.Listing.Parse.{
  default_page_size, max_page_size, Parsed, absent, invalid, value, is_invalid, value_of, same_text,
  single, from_single, nullable, income_text, expense_text, true_text, false_text, direction_of,
  nullable_direction, boolean_of, nullable_boolean, is_digit, is_digits, decimal_from, epoch_of,
  nullable_epoch, positive_of, nullable_positive_integer, is_letter, upper, currency_of,
  nullable_currency, is_empty, or_invalid, text_of, nullable_text, unique_texts, array_of, to_array,
}

pub record Query : Type 0 where
  pub account_id : Option (List Text)
  pub direction : Option (List Text)
  pub excluded : Option (List Text)
  pub has_adjustment : Option (List Text)
  pub has_compensation : Option (List Text)
  pub date_from : Option (List Text)
  pub date_to : Option (List Text)
  pub limit : Option (List Text)
  pub currency : Option (List Text)
  pub category : Option (List Text)
  pub category_id : Option (List Text)
  pub uncategorized : Option (List Text)
  pub cursor : Option (List Text)
  pub search : Option (List Text)

abbrev pub is_true : Parsed Bool → Bool
is_true (value b) = b
is_true _ = false

abbrev pub is_value : {A : Type 0} → Parsed A → Bool
is_value (value _) = true
is_value _ = false

abbrev pub is_after : Parsed ℕ → Parsed ℕ → Bool
is_after (value from) (value to) = ltb to from
is_after _ _ = false

-- `isCursor`, from the shape that `decodeCursor` asks too.
abbrev pub is_cursor : (Text → Option Json) → Text → Bool
is_cursor parsed v = not (is_none (cursor_of (parsed v)))

abbrev pub is_bad_cursor : (Text → Option Json) → Parsed Text → Bool
is_bad_cursor parsed (value v) = not (is_cursor parsed v)
is_bad_cursor parsed _ = false

abbrev pub identity_of : (Text → Ident) → Parsed Text → Parsed Bool → Option CategoryIdentity
identity_of ident (value v) flag = some (id (ident v))
identity_of ident _ flag = if is_true flag then some uncategorized else none

-- The number that stands for a text that is there.
abbrev pub ident_of : (Text → Ident) → Parsed Text → Option Ident
ident_of ident (value v) = some (ident v)
ident_of ident _ = none

-- What the parameters are parsed to.
pub record ParsedQuery : Type 0 where
  pub account_ids : Option (List Text)
  pub direction : Parsed Direction
  pub excluded : Parsed Bool
  pub has_adjustment : Parsed Bool
  pub has_compensation : Parsed Bool
  pub date_from : Parsed ℕ
  pub date_to : Parsed ℕ
  pub limit : ℕ
  pub currency : Parsed Text
  pub category : Parsed Text
  pub category_id : Parsed Text
  pub uncategorized : Parsed Bool
  pub cursor : Parsed Text
  pub search : Parsed Text

unfoldable pub parse_query : (Text → Text) → Query → ParsedQuery
unfolding to_array nullable_direction nullable_boolean nullable_epoch nullable_positive_integer
    nullable_currency nullable_text
parse_query trim query = record {
  account_ids = to_array query.account_id;
  direction = nullable_direction query.direction;
  excluded = nullable_boolean query.excluded;
  has_adjustment = nullable_boolean query.has_adjustment;
  has_compensation = nullable_boolean query.has_compensation;
  date_from = nullable_epoch query.date_from;
  date_to = nullable_epoch query.date_to;
  limit = get_or (nullable_positive_integer query.limit) default_page_size;
  currency = nullable_currency query.currency;
  category = nullable_text trim 120 query.category;
  category_id = nullable_text trim 128 query.category_id;
  uncategorized = nullable_boolean query.uncategorized;
  cursor = nullable_text trim 512 query.cursor;
  search = nullable_text trim 100 query.search;
}

-- The condition on which the filters are refused.
unfoldable pub is_refused : (Text → Option Json) → ParsedQuery → Bool
is_refused parsed q =
    is_none q.account_ids
    || is_invalid q.direction
    || is_invalid q.excluded
    || is_invalid q.has_adjustment
    || is_invalid q.has_compensation
    || is_invalid q.date_from
    || is_invalid q.date_to
    || ltb max_page_size q.limit
    || is_invalid q.currency
    || is_invalid q.category
    || is_invalid q.category_id
    || is_invalid q.uncategorized
    || (is_value q.category_id && is_true q.uncategorized)
    || (is_value q.category && (is_value q.category_id || is_true q.uncategorized))
    || is_invalid q.cursor
    || is_bad_cursor parsed q.cursor
    || is_invalid q.search
    || is_after q.date_from q.date_to

abbrev pub input_of : (Text → Ident) → ParsedQuery → Ident → TransactionListInput
input_of ident q user = record {
  account_ids = map ident (get_or q.account_ids []);
  category_identity = identity_of ident q.category_id q.uncategorized;
  category = ident_of ident q.category;
  cursor = value_of q.cursor;
  currency = ident_of ident q.currency;
  date_from = value_of q.date_from;
  date_to = value_of q.date_to;
  direction = value_of q.direction;
  excluded = value_of q.excluded;
  has_adjustment = value_of q.has_adjustment;
  has_compensation = value_of q.has_compensation;
  limit = q.limit;
  search = value_of q.search;
  user_id = user;
}

-- The platform's codes, as in the query, `trim`, and the numbers that stand for texts.
module _ (parsed : Text → Option Json) (trim : Text → Text) (ident : Text → Ident) where
  unfoldable pub parse_filters : Query → Ident → Option TransactionListInput
  unfolding parse_query is_refused
  parse_filters query user =
      let q = parse_query trim query in
      if is_refused parsed q then none else some (input_of ident q user)

pub data Response : Type 0 where
  refused : Response
  page : TransactionListResult → Response
  failed : Response

abbrev pub answer : Option TransactionListResult → Response
answer none = failed
answer (some r) = page r

-- `listTransactionsHandler`: 400 for refused filters, else the page; an Error of `list` fails.
module _ (encode_cursor : TransactionCursor → Text) (parsed : Text → Option Json)
    (lowered trim : Text → Text) (ident : Text → Ident) (tables : ListingTables) where
  abbrev pub answer_filters : Option TransactionListInput → Response
  answer_filters none = refused
  answer_filters (some input) = answer (list encode_cursor parsed lowered tables input)

  unfoldable pub list_transactions : Query → Ident → Response
  unfolding parse_filters list
  list_transactions query user = answer_filters (parse_filters parsed trim ident query user)
