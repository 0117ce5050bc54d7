-- ===== src/Categories/Tables/Owned.antt =====
-- What the statements of worker/repositories/categories-repository.ts keep true: each override and
-- each mapping refers to a category of its own user.
use mono_finance.Common.{
  Ident, ℕ, ◌≡◌, refl, sym, Bool, true, false, ◌&&◌, some, List, [], ◌∷◌, ltb, ◌==◌, ==_to,
  and_parts, or_true, any, filter, length, All, Bool-cases, Option-cases, inl, inr, arith,
}
use mono_finance.Compensation.Tables.{Text}
use mono_finance.Categories.Tables.{
  CustomCategory, CategoryRow, CategoryTables, CategoryInput, first_where, update_where,
  delete_where, is_category, find_category,
}
use mono_finance.Categories.Statements.{renamed}

abbrev pub owns : Ident → Ident → List CategoryRow → Bool
owns id user rows = any (is_category id user) rows

pub record AreSound (t : CategoryTables) : Type 0 where
  pub overrides_owned : All (λ o. owns o.category_id o.user_id t.categories ≡ true) t.overrides
  pub mappings_owned : All (λ m. owns m.category_id m.user_id t.categories ≡ true) t.mappings
  pub one_owner :
      (id u v : Ident) → owns id u t.categories ≡ true → owns id v t.categories ≡ true → u ≡ v

pub first_where-any :
    {A : Type 0} (p : A → Bool) (xs : List A) (x : A) → first_where p xs ≡ some x → any p xs ≡ true
unfolding first_where
first_where-any p [] x h = cc h
first_where-any p (y ∷ ys) x h = elim (Bool-cases (p y)) [
  | inl e ↦ rw e refl
  | inr e ↦ rw e (first_where-any p ys x (rw e at h))
]

pub find_category-owns :
    (id user : Ident) (t : CategoryTables) (c : CustomCategory)
    → find_category id user t ≡ some c
    → owns id user t.categories ≡ true
unfolding find_category
find_category-owns id user t c h =
    elim (Option-cases (first_where (is_category id user) t.categories)) [
      | inl e ↦ cc (rw e at h)
      | inr (row, e) ↦ first_where-any (is_category id user) t.categories row e
    ]

pub All-update_where :
    {A : Type 0} (P : A → Type 0) (p : A → Bool) (f : A → A) (xs : List A)
    → ((x : A) → p x ≡ true → P x → P (f x))
    → All P xs
    → All P (update_where p f xs)
unfolding update_where
All-update_where P p f [] h all = tt
All-update_where P p f (x ∷ xs) h all = elim (Bool-cases (p x)) [
  | inl e ↦ rw e (h x e all.0, All-update_where P p f xs h all.1)
  | inr e ↦ rw e (all.0, All-update_where P p f xs h all.1)
]

pub none_counted :
    {A : Type 0} (p : A → Bool) (xs : List A)
    → ltb 0 (length (filter p xs)) ≡ false
    → All (λ x. p x ≡ false) xs
none_counted p [] h = tt
none_counted p (x ∷ xs) h = elim (Bool-cases (p x)) [
  | inl e ↦ let full = rw e at h in ground arith
  | inr e ↦ (e, none_counted p xs (rw e at h))
]

pub owns-delete_where :
    (i u id user : Ident) (rows : List CategoryRow)
    → (i == id && u == user) ≡ false
    → owns i u (delete_where (is_category id user) rows) ≡ owns i u rows
owns-delete_where i u id user [] other = refl
owns-delete_where i u id user (row ∷ rows) other =
    let rest = owns-delete_where i u id user rows other in
    elim (Bool-cases (is_category id user row)) [
      | inl e ↦
          let (same, same_user) = and_parts (row.category.id == id) (row.user_id == user) e in
          rw (e, rest)
            (elim (Bool-cases (is_category i u row)) [
              | inl here ↦
                  let (s, s_user) = and_parts (row.category.id == i) (row.user_id == u) here in
                  cc (
                    rw
                      (
                        sym (==_to row.category.id i s),
                        sym (==_to row.user_id u s_user),
                        same,
                        same_user,
                      )
                      at other)
              | inr there ↦ rw there refl
            ])
      | inr e ↦ rw (e, rest) refl
    ]

pub owns-deleted :
    (i u id user : Ident) (rows : List CategoryRow)
    → owns i u (delete_where (is_category id user) rows) ≡ true
    → owns i u rows ≡ true
owns-deleted i u id user [] h = h
owns-deleted i u id user (row ∷ rows) h = elim (Bool-cases (is_category id user row)) [
  | inl e ↦ rw (owns-deleted i u id user rows (rw e at h)) (or_true (is_category i u row))
  | inr e ↦ elim (Bool-cases (is_category i u row)) [
    | inl here ↦ rw here refl
    | inr there ↦ rw there (owns-deleted i u id user rows (rw (e, there) at h))
  ]
]

pub owns-update_where :
    (i u : Ident) (p : CategoryRow → Bool) (input : CategoryInput) (trimmed : Text) (now : ℕ)
    (rows : List CategoryRow)
    → owns i u (update_where p (renamed input trimmed now) rows) ≡ owns i u rows
unfolding update_where
owns-update_where i u p input trimmed now [] = refl
owns-update_where i u p input trimmed now (row ∷ rows) = elim (Bool-cases (p row)) [
  | inl e ↦ rw (e, owns-update_where i u p input trimmed now rows) refl
  | inr e ↦ rw (e, owns-update_where i u p input trimmed now rows) refl
]
