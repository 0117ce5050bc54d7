-- ===== src/Categories/Tables.antt =====
-- The tables `categories`, `transaction_category_overrides` and `category_source_mappings`
-- (migrations/0001_initial_schema.sql, migrations/0006_category_source_mappings.sql) and what
-- worker/repositories/categories-repository.ts reads from them. A table is the list of its rows. The
-- random ids of overrides and mappings, which nothing reads, and the users' table are left out.
pub mod Owned
pub mod Lookup
use mono_finance.Common.{
  Ident, ℕ, suc, Bool, true, false, ◌&&◌, ◌||◌, not, Option, none, some, get_or, is_none, List, [],
  ◌∷◌, ◌++◌, map, ltb, ◌==◌, any, filter, length, if◌then◌else◌,
}
use mono_finance.Common.Action.{Action, ◌>>=◌, ◌>>◌, pure, gets, throw_if, modify}
use mono_finance.Compensation.Tables.{Text}
use mono_finance.Listing.Parse.{same_text}

pub record CustomCategory : Type 0 where
  pub color_token : Option Text
  pub icon : Option Text
  pub id : Ident
  pub name : Text

pub record CategoryRow : Type 0 where
  pub category : CustomCategory
  pub user_id : Ident
  pub created_at : ℕ
  pub updated_at : ℕ

pub record CategoryOverride : Type 0 where
  pub transaction_id : Ident
  pub category_id : Ident
  pub user_id : Ident
  pub created_at : ℕ
  pub updated_at : ℕ

pub record SourceMapping : Type 0 where
  pub user_id : Ident
  pub original_category_code : Text
  pub category_id : Ident
  pub created_at : ℕ
  pub updated_at : ℕ

-- The columns of `transactions` that are read.
pub record CategorizedTransaction : Type 0 where
  pub id : Ident
  pub user_id : Ident
  pub original_category_code : Option Text
  pub original_category_name : Option Text

pub record CategoryTables : Type 0 where
  pub categories : List CategoryRow
  pub overrides : List CategoryOverride
  pub mappings : List SourceMapping
  pub transactions : List CategorizedTransaction

-- The codes of `CategoryError`, and the database's error of a broken constraint.
pub data CategoryError : Type 0 where
  category_not_found category_referenced invalid_category transaction_not_found constraint_failed :
      CategoryError

abbrev pub Statement : Type 0 → Type 0
Statement A = Action CategoryTables CategoryError A

-- `SELECT … WHERE …`, its first row.
unfoldable pub first_where : {A : Type 0} → (A → Bool) → List A → Option A
first_where p [] = none
first_where p (x ∷ xs) = let rest = first_where p xs in if p x then some x else rest

-- `UPDATE … SET … WHERE …`
unfoldable pub update_where : {A : Type 0} → (A → Bool) → (A → A) → List A → List A
update_where p f [] = []
update_where p f (x ∷ xs) = (if p x then f x else x) ∷ update_where p f xs

-- `DELETE … WHERE …`
abbrev pub delete_where : {A : Type 0} → (A → Bool) → List A → List A
delete_where p xs = filter (λ x. not (p x)) xs

abbrev pub is_category : Ident → Ident → CategoryRow → Bool
is_category id user row = row.category.id == id && row.user_id == user

abbrev pub category_in : Option CategoryRow → Option CustomCategory
category_in none = none
category_in (some row) = some row.category

-- `findCategory`
unfoldable pub find_category : Ident → Ident → CategoryTables → Option CustomCategory
unfolding first_where
find_category id user t = category_in (first_where (is_category id user) t.categories)

pub record CategoryInput : Type 0 where
  pub name : Text
  pub icon : Option Text
  pub color_token : Option Text

-- `countOverrides` and `countSourceMappings`
unfoldable pub count_overrides : Ident → Ident → CategoryTables → ℕ
count_overrides id user t =
    length (filter (λ o. o.category_id == id && o.user_id == user) t.overrides)

unfoldable pub count_source_mappings : Ident → Ident → CategoryTables → ℕ
count_source_mappings id user t =
    length (filter (λ m. m.category_id == id && m.user_id == user) t.mappings)

pub record OwnedTransactionForCategory : Type 0 where
  pub id : Ident
  pub original_category_code : Option Text
  pub original_category_name : Option Text
  pub mapped_category : Option CustomCategory
  pub override_category : Option CustomCategory

-- LEFT JOIN categories ON categories.id = …
abbrev pub category_by_id : Ident → CategoryTables → Option CustomCategory
category_by_id id t = category_in (first_where (λ row. row.category.id == id) t.categories)

abbrev pub overriding : CategoryTables → Option CategoryOverride → Option CustomCategory
overriding t none = none
overriding t (some o) = category_by_id o.category_id t

-- The joins over `transaction_category_overrides`.
unfoldable pub override_of : Ident → CategoryTables → Option CustomCategory
unfolding first_where
override_of id t = overriding t (first_where (λ o. o.transaction_id == id) t.overrides)

abbrev pub is_mapping : Ident → Text → SourceMapping → Bool
is_mapping user code m = m.user_id == user && same_text m.original_category_code code

abbrev pub mapping_category : CategoryTables → Option SourceMapping → Option CustomCategory
mapping_category t none = none
mapping_category t (some m) = category_by_id m.category_id t

abbrev pub mapped_of : Ident → Option Text → CategoryTables → Option CustomCategory
mapped_of user none t = none
mapped_of user (some code) t = mapping_category t (first_where (is_mapping user code) t.mappings)

abbrev pub joined :
    CategoryTables → Option CategorizedTransaction → Option OwnedTransactionForCategory
joined t none = none
joined t (some x) = some (record {
  id = x.id;
  original_category_code = x.original_category_code;
  original_category_name = x.original_category_name;
  mapped_category = mapped_of x.user_id x.original_category_code t;
  override_category = override_of x.id t;
})

-- `findOwnedTransaction`
unfoldable pub find_categorized :
    Ident → Ident → CategoryTables → Option OwnedTransactionForCategory
unfolding first_where override_of
find_categorized id user t =
    joined t (first_where (λ x. x.id == id && x.user_id == user) t.transactions)
