-- ===== src/Listing/Filters/Accepted.antt =====
-- What `listTransactionsHandler` (worker/routes/transaction-list.ts) answers to any query.
use mono_finance.Common.{
  Ident, ℕ, zero, suc, ◌≤◌, ◌≡◌, ◌⊎◌, refl, false, Option, none, some, get_or, List, [], ◌∷◌, map,
  ltb, length, take, Bool-cases, Option-cases, inl, inr, arith, not_ltb→le, le→not_ltb,
}
use mono_finance.Compensation.Tables.{Text, Link}
use mono_finance.Listing.Rows.{JoinedRow, map_transaction_row}
use mono_finance.Listing.Query.{
  ListingTables, TransactionListInput, TransactionCursor, Json, cursor_of, page_of, decode_cursor,
  list, list_from, compensation_exists,
}
use mono_finance.Listing.Filters.{
  Query, ParsedQuery, Response, refused, page, failed, parse_query, is_refused, parse_filters,
  list_transactions, answer, input_of, is_bad_cursor,
}
use mono_finance.Listing.Parse.{
  Parsed, absent, invalid, value, max_page_size, positive_of, nullable_positive_integer, single,
  default_page_size, value_of,
}

not_refused :
    (parsed : Text → Option Json) (q : ParsedQuery)
    → is_refused parsed q ≡ false
    → (ltb max_page_size q.limit ≡ false) × (is_bad_cursor parsed q.cursor ≡ false)
unfolding is_refused
not_refused parsed q h = (ground arith, ground arith)

positive_of-positive : (v : Option Text) → 1 ≤ positive_of v
positive_of-positive none = omega arith
positive_of-positive (some v) = ground arith

limit_positive :
    (values : Option (List Text)) → 1 ≤ get_or (nullable_positive_integer values) default_page_size
unfolding nullable_positive_integer
limit_positive none = omega arith
limit_positive (some vs) = positive_of-positive (single vs)

-- An answer is no failure; a page has at most 100 items, and one that a cursor follows has an item.
abbrev pub IsAnswer : Response → Type 0
IsAnswer refused = Unit
IsAnswer (page r) =
    (length r.transactions ≤ max_page_size) × ((r.next_cursor ≡ none) ⊎ (1 ≤ length r.transactions))
IsAnswer failed = ⊥

length-map-take : {A B : Type 0} (f : A → B) (n : ℕ) (xs : List A) → length (map f (take n xs)) ≤ n
length-map-take f zero xs = omega arith
length-map-take f (suc n) [] = omega arith
length-map-take f (suc n) (x ∷ xs) = omega (arith, length-map-take f n xs)

module _ (encode_cursor : TransactionCursor → Text) (parsed : Text → Option Json)
    (lowered : Text → Text) where
  page_of-IsAnswer :
      (links : List Link) (limit : ℕ) (rows : List JoinedRow)
      → 1 ≤ limit
      → limit ≤ max_page_size
      → IsAnswer (page (page_of encode_cursor parsed lowered links limit rows))
  page_of-IsAnswer links zero rows low high = ground arith
  page_of-IsAnswer links (suc n) [] low high =
      (omega arith, rw (le→not_ltb 0 (suc n) (omega arith)) (inl refl))
  page_of-IsAnswer links (suc n) (x ∷ rows) low high = (
    omega (
      arith,
      length-map-take (map_transaction_row (compensation_exists links)) (suc n) (x ∷ rows),
      high,
    ),
    inr (omega arith),
  )

  -- A cursor that `isCursor` accepts is one that `decodeCursor` accepts.
  list_from-IsAnswer :
      (tables : ListingTables) (input : TransactionListInput) (cursor : Parsed Text)
      → is_bad_cursor parsed cursor ≡ false
      → 1 ≤ input.limit
      → input.limit ≤ max_page_size
      → IsAnswer (answer (list_from encode_cursor parsed lowered tables input (value_of cursor)))
  unfolding decode_cursor
  list_from-IsAnswer tables input absent good low high =
      page_of-IsAnswer tables.links input.limit _ low high
  list_from-IsAnswer tables input invalid good low high =
      page_of-IsAnswer tables.links input.limit _ low high
  list_from-IsAnswer tables input (value v) good low high =
      elim (Option-cases (cursor_of (parsed v))) [
        | inl e ↦ cc (rw e at good)
        | inr (c, e) ↦ rw e (page_of-IsAnswer tables.links input.limit _ low high)
      ]

-- Whatever the query: its filters are refused, or a page is given. A page has at most 100 items and
-- never a next cursor without an item, and no cursor that the filters accept makes the query fail.
pub list_transactions-IsAnswer :
    (encode_cursor : TransactionCursor → Text) (parsed : Text → Option Json)
    (lowered trim : Text → Text) (ident : Text → Ident) (tables : ListingTables) (query : Query)
    (user : Ident)
    → IsAnswer (list_transactions encode_cursor parsed lowered trim ident tables query user)
unfolding list_transactions parse_filters parse_query list
list_transactions-IsAnswer encode_cursor parsed lowered trim ident tables query user =
    let q = parse_query trim query in
    elim (Bool-cases (is_refused parsed q)) [
      | inl e ↦ rw e tt
      | inr e ↦
          let (short, good) = not_refused parsed q e in
          rw e (
            list_from-IsAnswer encode_cursor parsed lowered tables (input_of ident q user) q.cursor
              good (limit_positive query.limit) (not_ltb→le max_page_size q.limit short))
    ]
