-- ===== src/Listing/Query/Pages.antt =====
-- Following the cursors of worker/repositories/transactions-repository.ts from page to page.
use mono_finance.Common.{
  ℕ, zero, suc, ◌-◌, ◌≤◌, ◌<◌, ◌≡◌, refl, sym, ap, subst, ◌∙◌, Bool, true, Option, none, some, List,
  [], ◌∷◌, ◌++◌, map, lt→ltb, le→not_ltb, le→leb, length-append, filter, take, length, All, arith,
}
use mono_finance.Common.Int.{int, pos, abs, max_safe_integer}
use mono_finance.Common.Sort.{sort_by}
use mono_finance.Common.Sort.Sorted.{
  All-filter, All-sort_by, filter-sort_by, length-sort_by, length-filter,
}
use mono_finance.Compensation.Tables.{Text, Link}
use mono_finance.Listing.Rows.{JoinedRow, TransactionListItem, map_transaction_row}
use mono_finance.Listing.Query.{
  ListingTables, TransactionListInput, TransactionListResult, TransactionCursor, Json, object,
  matches, compensation_exists, is_past, row_precedes, cursor_at, selected, decode_cursor, list,
  page_of,
}
use mono_finance.Listing.Query.Cuts.{
  FirstPage, whole, part, first_page, take-all, take-take, take-before, length-take,
  last_row-append, filter-&&, filter-true, map-append, append_assoc,
}
use mono_finance.Listing.Query.Suffix.{
  HasDistinctIds, IsStrict, HasDistinctIds-filter, All-middle, sort_by-IsStrict, filter-is_past,
  row_precedes-flip, row_precedes-chain,
}

-- The rows of all pages, in their order.
abbrev pub all_rows : (Text → Text) → ListingTables → TransactionListInput → List JoinedRow
all_rows lowered tables input =
    sort_by row_precedes (filter (matches lowered tables.links input) tables.rows)

selected-past :
    (lowered : Text → Text) (tables : ListingTables) (input : TransactionListInput)
    (past : JoinedRow → Bool)
    → selected lowered tables input past ≡ filter past (all_rows lowered tables input)
unfolding selected
selected-past lowered tables input past =
    ap (sort_by row_precedes) (filter-&& (matches lowered tables.links input) past tables.rows)
    ∙ sym (
        filter-sort_by row_precedes row_precedes-flip row_precedes-chain past
          (filter (matches lowered tables.links input) tables.rows))

-- The cursor is not among the conditions of `matches`.
selected-cursor :
    (lowered : Text → Text) (tables : ListingTables) (input : TransactionListInput)
    (cursor : Option Text) (past : JoinedRow → Bool)
    → selected lowered tables (record input { cursor = cursor }) past
      ≡ selected lowered tables input past
unfolding selected matches
selected-cursor lowered tables input cursor past = refl

abbrev pub item : ListingTables → JoinedRow → TransactionListItem
item tables = map_transaction_row (compensation_exists tables.links)

abbrev pub in_front :
    List TransactionListItem → Option (List TransactionListItem) → Option (List TransactionListItem)
in_front items none = none
in_front items (some later) = some (items ++ later)

-- A client that asks for page after page: at most `fuel` pages, `none` where that is not enough or
-- where a request fails.
module _ (encode_cursor : TransactionCursor → Text) (parsed : Text → Option Json)
    (lowered : Text → Text) where
  abbrev pub after_page :
      (Text → Option (List TransactionListItem))
      → List TransactionListItem
      → Option Text
      → Option (List TransactionListItem)
  after_page rest items none = some items
  after_page rest items (some cursor) = in_front items (rest cursor)

  abbrev pub after_answer :
      (Text → Option (List TransactionListItem))
      → Option TransactionListResult
      → Option (List TransactionListItem)
  after_answer rest none = none
  after_answer rest (some r) = after_page rest r.transactions r.next_cursor

  unfoldable pub follow :
      ℕ → ListingTables → TransactionListInput → Option (List TransactionListItem)
  follow zero tables input = none
  follow (suc fuel) tables input =
      after_answer (λ cursor. follow fuel tables (record input { cursor = some cursor }))
        (list encode_cursor parsed lowered tables input)

-- `atob` undoes `btoa` and `JSON.parse` undoes `JSON.stringify`, on what a cursor holds.
abbrev pub RoundTrips : (TransactionCursor → Text) → (Text → Option Json) → Type 0
RoundTrips encode_cursor parsed =
    (c : TransactionCursor)
    → parsed (encode_cursor c) ≡ some (object (some c.id) (some (int c.timestamp)))

abbrev pub IsSafeRow : JoinedRow → Type 0
IsSafeRow row = row.original_timestamp ≤ max_safe_integer

module _ (encode_cursor : TransactionCursor → Text) (parsed : Text → Option Json)
    (lowered : Text → Text) (trips : RoundTrips encode_cursor parsed) where
  decode-encode :
      (x : JoinedRow)
      → IsSafeRow x
      → decode_cursor encode_cursor parsed lowered (encode_cursor (cursor_at x))
        ≡ some (cursor_at x)
  unfolding decode_cursor
  decode-encode x safe =
      rw
        (
          trips (cursor_at x),
          le→leb (abs (pos x.original_timestamp)) max_safe_integer (omega (arith, safe)),
        )
        refl

  -- What a page holds and whether another follows.
  page_of-whole :
      (links : List Link) (n : ℕ) (xs : List JoinedRow)
      → length xs ≤ suc n
      → page_of encode_cursor parsed lowered links (suc n) (take (suc (suc n)) xs) ≡ record {
        next_cursor = none;
        transactions = map (map_transaction_row (compensation_exists links)) xs;
      }
  page_of-whole links n xs short =
      rw
        (
          take-all (suc (suc n)) xs (omega (arith, short)),
          take-all (suc n) xs short,
          le→not_ltb (length xs) (suc n) short,
        )
        refl

  page_of-part :
      (links : List Link) (n : ℕ) (before : List JoinedRow) (x : JoinedRow) (later : List JoinedRow)
      → length before ≡ n
      → 1 ≤ length later
      → page_of encode_cursor parsed lowered links
          (suc n)
          (take (suc (suc n)) (before ++ x ∷ later))
        ≡ record {
          next_cursor = some (encode_cursor (cursor_at x));
          transactions = map (map_transaction_row (compensation_exists links)) (before ++ x ∷ []);
        }
  page_of-part links n before x later long more =
      let size = length-append before (x ∷ later) in
      let count : length (take (suc (suc n)) (before ++ x ∷ later)) ≡ suc (suc n) =
        length-take (suc (suc n)) (before ++ x ∷ later) (omega (arith, size, long, more)) in
      rw
        (
          take-take (suc n) (before ++ x ∷ later),
          take-before n before x later long,
          last_row-append before x,
          lt→ltb (suc n) (length (take (suc (suc n)) (before ++ x ∷ later))) (omega (arith, count)),
        )
        refl

  module _ (tables : ListingTables) (input : TransactionListInput) (n : ℕ)
      (sized : input.limit ≡ suc n) (ordered : IsStrict (all_rows lowered tables input))
      (safe : All IsSafeRow (all_rows lowered tables input)) where
    -- The request with a row's cursor gives the page after it.
    list-past :
        (before : List JoinedRow) (x : JoinedRow) (later : List JoinedRow)
        → all_rows lowered tables input ≡ before ++ x ∷ later
        → list encode_cursor parsed lowered tables
            (record input { cursor = some (encode_cursor (cursor_at x)) })
          ≡ some
              (page_of encode_cursor parsed lowered tables.links (suc n) (take (suc (suc n)) later))
    unfolding list
    list-past before x later rows =
        let safe_x = All-middle IsSafeRow before x later (subst (All IsSafeRow) rows safe) in
        let left =
          selected-cursor lowered tables input (some (encode_cursor (cursor_at x)))
            (is_past (cursor_at x))
          ∙ selected-past lowered tables input (is_past (cursor_at x))
          ∙ ap (filter (is_past (cursor_at x))) rows
          ∙ filter-is_past before x later (subst IsStrict rows ordered) in
        rw (decode-encode x safe_x) (rw (left, sized) refl)

    -- From a page on, where the rows that are left are a suffix of all.
    abbrev FollowsFrom : ℕ → Type 0
    FollowsFrom fuel =
        (before xs : List JoinedRow) (cursor : Option Text)
        → all_rows lowered tables input ≡ before ++ xs
        → list encode_cursor parsed lowered tables (record input { cursor = cursor })
          ≡ some (page_of encode_cursor parsed lowered tables.links (suc n) (take (suc (suc n)) xs))
        → length xs < fuel
        → follow encode_cursor parsed lowered fuel tables (record input { cursor = cursor })
          ≡ some (map (item tables) xs)

    abbrev asked : ℕ → Text → Option (List TransactionListItem)
    asked fuel c =
        follow encode_cursor parsed lowered fuel tables (record input { cursor = some c })

    follow-page :
        (fuel : ℕ)
        → FollowsFrom fuel
        → (before xs : List JoinedRow) → all_rows lowered tables input ≡ before ++ xs
        → length xs < suc fuel
        → FirstPage n xs
        → after_answer encode_cursor parsed lowered (asked fuel) (
            some
              (page_of encode_cursor parsed lowered tables.links (suc n) (take (suc (suc n)) xs)))
          ≡ some (map (item tables) xs)
    follow-page fuel follows before _ rows short (whole xs fits) =
        ap (λ r. after_answer encode_cursor parsed lowered (asked fuel) (some r))
          (page_of-whole tables.links n xs fits)
    follow-page fuel follows before _ rows short (part first x later long more) =
        let size = length-append first (x ∷ later) in
        let next =
          follows (before ++ (first ++ x ∷ [])) later (some (encode_cursor (cursor_at x)))
            (rows
              ∙ ap (λ ys. before ++ ys) (sym (append_assoc first (x ∷ []) later))
              ∙ sym (append_assoc before (first ++ x ∷ []) later))
            (list-past (before ++ first) x later
              (rows ∙ sym (append_assoc before first (x ∷ later))))
            (omega (arith, size, short)) in
        ap (λ r. after_answer encode_cursor parsed lowered (asked fuel) (some r))
          (page_of-part tables.links n first x later long more)
        ∙ ap (in_front (map (item tables) (first ++ x ∷ []))) next
        ∙ ap some (
            sym (map-append (item tables) (first ++ x ∷ []) later)
            ∙ ap (map (item tables)) (append_assoc first (x ∷ []) later))

    follow-suffix : (fuel : ℕ) → FollowsFrom fuel
    unfolding follow
    follow-suffix zero before xs cursor rows answer short = ground arith
    follow-suffix (suc fuel) before xs cursor rows answer short =
        rw answer (follow-page fuel (follow-suffix fuel) before xs rows short (first_page n xs))

  list-first :
      (tables : ListingTables) (input : TransactionListInput) (n : ℕ)
      → input.limit ≡ suc n
      → list encode_cursor parsed lowered tables (record input { cursor = none })
        ≡ some (
            page_of encode_cursor parsed lowered tables.links
              (suc n)
              (take (suc (suc n)) (all_rows lowered tables input)))
  unfolding list
  list-first tables input n limit =
      let every =
        selected-cursor lowered tables input none (λ _. true)
        ∙ selected-past lowered tables input (λ _. true)
        ∙ filter-true (all_rows lowered tables input) in
      rw (every, limit) refl

  -- Parsing undoes the encoding of a cursor, the rows' ids are distinct, their times are safe integers,
  -- and a page holds one row or more. Then a client that starts without a cursor and follows each
  -- answer's one gets, in at most as many pages as there are rows, and one, every matching row exactly
  -- once, in their order, and the last answer has no cursor. No request fails.
  pub follow-all_rows :
      (tables : ListingTables) (input : TransactionListInput)
      → HasDistinctIds tables.rows
      → All IsSafeRow tables.rows
      → 1 ≤ input.limit
      → follow encode_cursor parsed lowered
          (suc (length tables.rows))
          tables
          (record input { cursor = none })
        ≡ some (map (item tables) (all_rows lowered tables input))
  follow-all_rows tables input distinct safe sized =
      let p = matches lowered tables.links input in
      let n = input.limit - 1 in
      let limit : input.limit ≡ suc n = omega (arith, sized) in
      let ordered =
        sort_by-IsStrict (filter p tables.rows) (HasDistinctIds-filter p tables.rows distinct) in
      let safe_all =
        All-sort_by row_precedes IsSafeRow (filter p tables.rows)
          (All-filter IsSafeRow p tables.rows safe) in
      let sorted = length-sort_by row_precedes (filter p tables.rows) in
      let kept = length-filter p tables.rows in
      follow-suffix tables input n limit ordered safe_all (suc (length tables.rows)) []
        (all_rows lowered tables input) none refl (list-first tables input n limit)
        (omega (arith, sorted, kept))
