-- ===== src/Listing/Tests.antt =====
-- Runs of the transaction list on concrete rows (worker/repositories/transactions-repository.ts and
-- worker/routes/transaction-list.ts).
use mono_finance.Common.{
  ℕ, suc, ◌≡◌, refl, false, Option, none, some, List, [], ◌∷◌, map, length, arith,
}
use mono_finance.Common.Int.{ℤ, pos, negsuc, int}
use mono_finance.Common.Money.{expense}
use mono_finance.Common.Sort.{sort_by, insert_by}
use mono_finance.Compensation.Tables.{Text}
use mono_finance.Listing.Rows.{JoinedRow}
use mono_finance.Listing.Search.{like, search_pattern}
use mono_finance.Listing.Search.Literal.{contains, like-search_pattern}
use mono_finance.Listing.Query.{
  ListingTables, TransactionListInput, TransactionCursor, Json, object, not_an_object, matches,
}
use mono_finance.Listing.Query.Pages.{item, all_rows, follow, follow-all_rows}
use mono_finance.Listing.Filters.{Query, list_transactions}
use mono_finance.Listing.Filters.Accepted.{IsAnswer, list_transactions-IsAnswer}

-- Stand-ins for `btoa(JSON.stringify(cursor))` and its inverse: the id and the time, and a third
-- number where the time is negative.
abbrev written : ℕ → ℤ → Text
written i (pos n) = i ∷ n ∷ []
written i (negsuc n) = i ∷ n ∷ 0 ∷ []

abbrev encode : TransactionCursor → Text
encode c = written c.id c.timestamp

abbrev decode : Text → Option Json
decode (i ∷ n ∷ []) = some (object (some i) (some (int (pos n))))
decode (i ∷ n ∷ _ ∷ []) = some (object (some i) (some (int (negsuc n))))
decode _ = some not_an_object

decode-written : (i : ℕ) (t : ℤ) → decode (written i t) ≡ some (object (some i) (some (int t)))
decode-written i (pos n) = refl
decode-written i (negsuc n) = refl

-- "Ka", "50%" and "5%" as character codes.
abbrev kava : Text
kava = 75 ∷ 97 ∷ []

abbrev fifty : Text
fifty = 53 ∷ 48 ∷ 37 ∷ []

abbrev five : Text
five = 53 ∷ 37 ∷ []

-- The search "5%" does not find "50%": its '%' is no wildcard.
like-literal : like (search_pattern five) fifty ≡ false
unfolding like search_pattern
like-literal = refl

like-search_pattern_example : like (search_pattern five) fifty ≡ contains five fifty
like-search_pattern_example = like-search_pattern five fifty

abbrev first_row : JoinedRow
first_row = record {
  id = 1;
  user_id = 7;
  account_id = 10;
  account_type = 0;
  card_masked_pan = none;
  direction = expense;
  original_amount_minor = negsuc 99;
  original_currency_code = 980;
  currency_minor_unit = 2;
  original_description = kava;
  original_mcc = none;
  original_timestamp = 1_700_000_000;
  original_category_code = none;
  original_category_name = none;
  adjustment = none;
  exclusion = none;
  custom_category = none;
  mapped_category = none;
}

-- Two rows of the same second, one later, and one of another user.
abbrev rows : List JoinedRow
rows =
    first_row
    ∷ record first_row { id = 2 }
    ∷ record first_row { id = 3; original_timestamp = 1_700_000_060 }
    ∷ record first_row { id = 4; user_id = 8 }
    ∷ []

abbrev tables : ListingTables
tables = record { rows = rows; links = [] }

abbrev every : TransactionListInput
every = record {
  account_ids = [];
  category_identity = none;
  category = none;
  cursor = none;
  currency = none;
  date_from = none;
  date_to = none;
  direction = none;
  excluded = none;
  has_adjustment = none;
  has_compensation = none;
  limit = 2;
  search = none;
  user_id = 7;
}

rows_order : map (λ r. r.id) (all_rows (λ t. t) tables every) ≡ 3 ∷ 2 ∷ 1 ∷ []
unfolding sort_by insert_by matches
rows_order = refl

follow-all_rows_example :
    follow encode decode (λ t. t) (suc (length rows)) tables (record every { cursor = none })
    ≡ some (map (item tables) (all_rows (λ t. t) tables every))
follow-all_rows_example =
    follow-all_rows encode decode (λ t. t) (λ c. decode-written c.id c.timestamp) tables every
      (
        (omega arith, (omega arith, (omega arith, tt))),
        ((omega arith, (omega arith, tt)), ((omega arith, tt), (tt, tt))),
      )
      (omega arith, (omega arith, (omega arith, (omega arith, tt)))) (omega arith)

-- The limit "1", after the row 3.
abbrev asked : Query
asked = record {
  account_id = none;
  direction = none;
  excluded = none;
  has_adjustment = none;
  has_compensation = none;
  date_from = none;
  date_to = none;
  limit = some ((49 ∷ []) ∷ []);
  currency = none;
  category = none;
  category_id = none;
  uncategorized = none;
  cursor = some ((3 ∷ 1_700_000_060 ∷ []) ∷ []);
  search = none;
}

list_transactions-IsAnswer_example :
    IsAnswer (list_transactions encode decode (λ t. t) (λ t. t) length tables asked 7)
list_transactions-IsAnswer_example =
    list_transactions-IsAnswer encode decode (λ t. t) (λ t. t) length tables asked 7
