-- ===== src/Listing/Query/Cuts.antt =====
-- Lists of rows cut into pages (worker/repositories/transactions-repository.ts).
use mono_finance.Common.{
  ℕ, zero, suc, ◌≤◌, ◌≡◌, refl, ap, Bool, true, ◌&&◌, some, List, [], ◌∷◌, ◌++◌, map, filter, take,
  length, Bool-cases, inl, inr, arith,
}
use mono_finance.Listing.Rows.{JoinedRow}
use mono_finance.Listing.Query.{last_row}

-- A list is no longer than a page, or an element ends its first page and others follow.
pub data FirstPage (n : ℕ) : List JoinedRow → Type 0 where
  whole : (xs : List JoinedRow) → length xs ≤ suc n → FirstPage n xs
  part :
      (before : List JoinedRow) (x : JoinedRow) (later : List JoinedRow)
      → length before ≡ n
      → 1 ≤ length later
      → FirstPage n (before ++ x ∷ later)

longer_page :
    (n : ℕ) (x : JoinedRow) (xs : List JoinedRow) → FirstPage n xs → FirstPage (suc n) (x ∷ xs)
longer_page n x _ (whole xs short) = whole (x ∷ xs) (omega (arith, short))
longer_page n x _ (part before y later long more) = part (x ∷ before) y later (ap suc long) more

pub first_page : (n : ℕ) (xs : List JoinedRow) → FirstPage n xs
first_page n [] = whole [] (omega arith)
first_page zero (x ∷ []) = whole (x ∷ []) (omega arith)
first_page zero (x ∷ y ∷ ys) = part [] x (y ∷ ys) refl (omega arith)
first_page (suc n) (x ∷ xs) = longer_page n x xs (first_page n xs)

pub take-all : (n : ℕ) (xs : List JoinedRow) → length xs ≤ n → take n xs ≡ xs
take-all zero [] h = refl
take-all zero (x ∷ xs) h = ground arith
take-all (suc n) [] h = refl
take-all (suc n) (x ∷ xs) h = ap (λ ys. x ∷ ys) (take-all n xs (omega (arith, h)))

pub take-take : (n : ℕ) (xs : List JoinedRow) → take n (take (suc n) xs) ≡ take n xs
take-take zero xs = refl
take-take (suc n) [] = refl
take-take (suc n) (x ∷ xs) = ap (λ ys. x ∷ ys) (take-take n xs)

pub take-before :
    (n : ℕ) (before : List JoinedRow) (x : JoinedRow) (later : List JoinedRow)
    → length before ≡ n
    → take (suc n) (before ++ x ∷ later) ≡ before ++ x ∷ []
take-before zero [] x later h = refl
take-before zero (y ∷ before) x later h = ground arith
take-before (suc n) [] x later h = ground arith
take-before (suc n) (y ∷ before) x later h =
    ap (λ ys. y ∷ ys) (take-before n before x later (omega (arith, h)))

pub length-take : (n : ℕ) (xs : List JoinedRow) → n ≤ length xs → length (take n xs) ≡ n
length-take zero xs h = refl
length-take (suc n) [] h = ground arith
length-take (suc n) (x ∷ xs) h = ap suc (length-take n xs (omega (arith, h)))

pub last_row-append :
    (before : List JoinedRow) (x : JoinedRow) → last_row (before ++ x ∷ []) ≡ some x
last_row-append [] x = refl
last_row-append (y ∷ []) x = refl
last_row-append (y ∷ z ∷ before) x = last_row-append (z ∷ before) x

pub filter-&& :
    (p q : JoinedRow → Bool) (xs : List JoinedRow)
    → filter (λ x. p x && q x) xs ≡ filter q (filter p xs)
filter-&& p q [] = refl
filter-&& p q (x ∷ xs) = elim (Bool-cases (p x)) [
  | inl e ↦ elim (Bool-cases (q x)) [
    | inl f ↦ rw (e, f) (ap (λ ys. x ∷ ys) (filter-&& p q xs))
    | inr f ↦ rw (e, f) (filter-&& p q xs)
  ]
  | inr e ↦ rw e (filter-&& p q xs)
]

pub filter-true : (xs : List JoinedRow) → filter (λ _. true) xs ≡ xs
filter-true [] = refl
filter-true (x ∷ xs) = ap (λ ys. x ∷ ys) (filter-true xs)

pub map-append :
    {A B : Type 0} (f : A → B) (xs ys : List A) → map f (xs ++ ys) ≡ map f xs ++ map f ys
map-append f [] ys = refl
map-append f (x ∷ xs) ys = ap (λ zs. f x ∷ zs) (map-append f xs ys)

pub append_assoc : {A : Type 0} (xs ys zs : List A) → (xs ++ ys) ++ zs ≡ xs ++ (ys ++ zs)
append_assoc [] ys zs = refl
append_assoc (x ∷ xs) ys zs = ap (λ ws. x ∷ ws) (append_assoc xs ys zs)
