-- ===== src/Listing/Query/Suffix.antt =====
-- Where a page of worker/repositories/transactions-repository.ts ends, the rows past its last one
-- are the rows that are left.
use mono_finance.Common.{
  All-both, ◌≡◌, ◌≢◌, refl, sym, ap, ◌∙◌, Bool, true, false, List, [], ◌∷◌, ◌++◌, filter, All,
  All-mono, Bool-cases, inl, inr, arith,
}
use mono_finance.Common.Sort.{sort_by, insert_by, IsSortedBy}
use mono_finance.Common.Sort.Sorted.{All-filter, All-insert_by, All-sort_by, sort_by-IsSortedBy}
use mono_finance.Listing.Rows.{JoinedRow}
use mono_finance.Listing.Query.{row_precedes, is_past, cursor_at}

-- The rows that `past` a row come after it.
pub row_precedes-flip : (x y : JoinedRow) → row_precedes x y ≡ true → row_precedes y x ≡ false
row_precedes-flip x y h = ground arith

pub row_precedes-chain :
    (x y z : JoinedRow)
    → row_precedes y x ≡ false
    → row_precedes z y ≡ false
    → row_precedes z x ≡ false
row_precedes-chain x y z h k = ground arith

is_past-precedes : (x y : JoinedRow) → is_past (cursor_at x) y ≡ row_precedes x y
is_past-precedes x y = ground arith

row_precedes-total :
    (x y : JoinedRow) → row_precedes y x ≡ false → y.id ≢ x.id → row_precedes x y ≡ true
row_precedes-total x y h differ = ground arith

row_precedes_self : (x : JoinedRow) → row_precedes x x ≡ false
row_precedes_self x = ground arith

-- No two rows have one id: `transactions.id` is the primary key.
abbrev pub HasDistinctIds : List JoinedRow → Type 0
HasDistinctIds [] = Unit
HasDistinctIds (x ∷ xs) = All (λ y. y.id ≢ x.id) xs × HasDistinctIds xs

-- Each row stands strictly before the later ones.
abbrev pub IsStrict : List JoinedRow → Type 0
IsStrict [] = Unit
IsStrict (x ∷ xs) = All (λ y. row_precedes x y ≡ true) xs × IsStrict xs

pub HasDistinctIds-filter :
    (p : JoinedRow → Bool) (xs : List JoinedRow) → HasDistinctIds xs → HasDistinctIds (filter p xs)
HasDistinctIds-filter p [] h = tt
HasDistinctIds-filter p (x ∷ xs) (first, rest) = elim (Bool-cases (p x)) [
  | inl e ↦ rw e (All-filter (λ y. y.id ≢ x.id) p xs first, HasDistinctIds-filter p xs rest)
  | inr e ↦ rw e (HasDistinctIds-filter p xs rest)
]

HasDistinctIds-insert_by :
    (x : JoinedRow) (ys : List JoinedRow)
    → All (λ y. y.id ≢ x.id) ys
    → HasDistinctIds ys
    → HasDistinctIds (insert_by row_precedes x ys)
unfolding insert_by
HasDistinctIds-insert_by x [] new h = (tt, tt)
HasDistinctIds-insert_by x (y ∷ ys) (differ, new) (first, rest) =
    elim (Bool-cases (row_precedes y x)) [
      | inl e ↦ rw e (
        All-insert_by row_precedes (λ z. z.id ≢ y.id) x ys (λ same. differ (sym same)) first,
        HasDistinctIds-insert_by x ys new rest,
      )
      | inr e ↦ rw e ((differ, new), (first, rest))
    ]

HasDistinctIds-sort_by :
    (xs : List JoinedRow) → HasDistinctIds xs → HasDistinctIds (sort_by row_precedes xs)
unfolding sort_by
HasDistinctIds-sort_by [] h = tt
HasDistinctIds-sort_by (x ∷ xs) (first, rest) =
    HasDistinctIds-insert_by x (sort_by row_precedes xs)
      (All-sort_by row_precedes (λ y. y.id ≢ x.id) xs first) (HasDistinctIds-sort_by xs rest)

strict : (xs : List JoinedRow) → IsSortedBy row_precedes xs → HasDistinctIds xs → IsStrict xs
strict [] h d = tt
strict (x ∷ xs) (first, rest) (differ, distinct) = (
  All-both (λ y. row_precedes y x ≡ false) (λ y. y.id ≢ x.id) (λ y. row_precedes x y ≡ true) xs
      (row_precedes-total x) first differ,
  strict xs rest distinct,
)

pub sort_by-IsStrict :
    (xs : List JoinedRow) → HasDistinctIds xs → IsStrict (sort_by row_precedes xs)
sort_by-IsStrict xs h =
    strict (sort_by row_precedes xs)
      (sort_by-IsSortedBy row_precedes row_precedes-flip row_precedes-chain xs)
      (HasDistinctIds-sort_by xs h)

filter_keeping :
    {A : Type 0} (p : A → Bool) (xs : List A) → All (λ x. p x ≡ true) xs → filter p xs ≡ xs
filter_keeping p [] h = refl
filter_keeping p (x ∷ xs) h = rw h.0 (ap (λ ys. x ∷ ys) (filter_keeping p xs h.1))

pub All-middle :
    (P : JoinedRow → Type 0) (before : List JoinedRow) (x : JoinedRow) (later : List JoinedRow)
    → All P (before ++ x ∷ later)
    → P x
All-middle P [] x later h = h.0
All-middle P (y ∷ before) x later h = All-middle P before x later h.1

-- Past a row of a strictly ordered list are the rows that follow it there.
pub filter-is_past :
    (before : List JoinedRow) (x : JoinedRow) (later : List JoinedRow)
    → IsStrict (before ++ x ∷ later)
    → filter (is_past (cursor_at x)) (before ++ x ∷ later) ≡ later
filter-is_past [] x later (first, rest) = rw (is_past-precedes x x ∙ row_precedes_self x) (
    filter_keeping (is_past (cursor_at x)) later (
      All-mono (λ y. row_precedes x y ≡ true) (λ y. is_past (cursor_at x) y ≡ true)
        (λ y h. is_past-precedes x y ∙ h) later first))
filter-is_past (y ∷ before) x later (first, rest) =
    let ahead = All-middle (λ z. row_precedes y z ≡ true) before x later first in
    rw (is_past-precedes x y ∙ row_precedes-flip y x ahead) (filter-is_past before x later rest)
