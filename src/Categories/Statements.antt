-- ===== src/Categories/Statements.antt =====
-- The statements of worker/repositories/categories-repository.ts that change the tables. One that breaks
-- a UNIQUE or a FOREIGN KEY constraint throws and changes nothing.
pub mod Keeps
pub mod Calls
use mono_finance.Common.{
  Ident, ℕ, suc, Bool, true, false, ◌&&◌, ◌||◌, not, Option, none, some, get_or, is_none, List, [],
  ◌∷◌, ◌++◌, map, ltb, ◌==◌, any, filter, length, if◌then◌else◌,
}
use mono_finance.Common.Action.{Action, ◌>>=◌, ◌>>◌, pure, gets, throw_if, modify}
use mono_finance.Compensation.Tables.{Text}
use mono_finance.Listing.Parse.{same_text}
use mono_finance.Categories.Tables.{
  CustomCategory, CategoryRow, CategoryOverride, SourceMapping, CategorizedTransaction,
  CategoryTables, CategoryError, Statement, first_where, update_where, delete_where, is_category,
  category_in, find_category, CategoryInput, count_overrides, count_source_mappings,
  OwnedTransactionForCategory, category_by_id, overriding, override_of, is_mapping,
  mapping_category, mapped_of, joined, find_categorized, category_not_found, category_referenced,
  invalid_category, transaction_not_found, constraint_failed,
}

-- UNIQUE (user_id, name), on a row that stands beside another.
abbrev pub has_name : Ident → Text → CategoryRow → Bool
has_name user name row = row.user_id == user && same_text row.category.name name

-- `createCategory`, with the random id and the trimmed name.
unfoldable pub create_category : Ident → Ident → CategoryInput → Text → ℕ → Statement CustomCategory
create_category new_id user input trimmed now = do
  taken ←
      gets (λ t. any (λ row. row.category.id == new_id || has_name user trimmed row) t.categories)
  throw_if taken constraint_failed
  modify (λ t. record t { categories = t.categories ++ row ∷ [] })
  pure row.category
  where
    row : CategoryRow
    row = record {
      category = record {
        color_token = input.color_token;
        icon = input.icon;
        id = new_id;
        name = trimmed;
      };
      user_id = user;
      created_at = now;
      updated_at = now;
    }

abbrev pub renamed : CategoryInput → Text → ℕ → CategoryRow → CategoryRow
renamed input trimmed now row = record row {
  category = record row.category {
    color_token = input.color_token;
    icon = input.icon;
    name = trimmed;
  };
  updated_at = now;
}

-- `updateCategory`
unfoldable pub update_category :
    Ident → Ident → CategoryInput → Text → ℕ → Statement (Option CustomCategory)
unfolding find_category update_where
update_category id user input trimmed now = do
  found ← gets (find_category id user)
  taken ←
      gets (λ t. any (λ row. not (row.category.id == id) && has_name user trimmed row) t.categories)
  throw_if (not (is_none found) && taken) constraint_failed
  modify (λ t. record t {
    categories = update_where (is_category id user) (renamed input trimmed now) t.categories;
  })
  gets (find_category id user)

-- FOREIGN KEY (category_id) … ON DELETE RESTRICT: a row that is deleted is referenced.
abbrev pub is_referenced : Ident → CategoryTables → Bool
is_referenced id t =
    any (λ o. o.category_id == id) t.overrides || any (λ m. m.category_id == id) t.mappings

-- `deleteCategory`
unfoldable pub delete_category : Ident → Ident → Statement (Unit {0})
unfolding find_category
delete_category id user = do
  found ← gets (find_category id user)
  referenced ← gets (is_referenced id)
  throw_if (not (is_none found) && referenced) constraint_failed
  modify (λ t. record t { categories = delete_where (is_category id user) t.categories })

-- FOREIGN KEY (category_id) REFERENCES categories(id)
abbrev pub lacks_category : Ident → CategoryTables → Bool
lacks_category id t = not (any (λ row. row.category.id == id) t.categories)

-- `setTransactionOverride`
unfoldable pub upsert_override : Ident → Ident → Ident → ℕ → Statement (Unit {0})
unfolding update_where
upsert_override transaction_id category_id user now = do
  lacking ← gets (lacks_category category_id)
  throw_if lacking constraint_failed
  modify (λ t.
      if any (λ o. o.transaction_id == transaction_id) t.overrides
      then record t {
        overrides =
            update_where (λ o. o.transaction_id == transaction_id && o.user_id == user)
              (λ o. record o { category_id = category_id; updated_at = now }) t.overrides;
      }
      else record t { overrides = t.overrides ++ row ∷ [] })
  where
    row : CategoryOverride
    row = record {
      transaction_id = transaction_id;
      category_id = category_id;
      user_id = user;
      created_at = now;
      updated_at = now;
    }

-- `removeTransactionOverride`
unfoldable pub remove_override : Ident → Ident → Statement (Unit {0})
remove_override transaction_id user = modify (λ t. record t {
  overrides =
      delete_where (λ o. o.transaction_id == transaction_id && o.user_id == user) t.overrides;
})

-- `setSourceMapping`
unfoldable pub upsert_mapping : Text → Ident → Ident → ℕ → Statement (Unit {0})
unfolding update_where
upsert_mapping code category_id user now = do
  lacking ← gets (lacks_category category_id)
  throw_if lacking constraint_failed
  modify (λ t.
      if any (is_mapping user code) t.mappings
      then record t {
        mappings =
            update_where (is_mapping user code)
              (λ m. record m { category_id = category_id; updated_at = now }) t.mappings;
      }
      else record t { mappings = t.mappings ++ row ∷ [] })
  where
    row : SourceMapping
    row = record {
      user_id = user;
      original_category_code = code;
      category_id = category_id;
      created_at = now;
      updated_at = now;
    }

-- `removeSourceMapping`
unfoldable pub remove_mapping : Text → Ident → Statement (Unit {0})
remove_mapping code user =
    modify (λ t. record t { mappings = delete_where (is_mapping user code) t.mappings })

-- The two UPDATEs of `mergeCategories`.
abbrev pub redirected : Ident → Ident → Ident → ℕ → CategoryTables → CategoryTables
redirected source target user now t = record t {
  overrides =
      update_where (λ o. o.category_id == source && o.user_id == user)
        (λ o. record o { category_id = target; updated_at = now }) t.overrides;
  mappings =
      update_where (λ m. m.category_id == source && m.user_id == user)
        (λ m. record m { category_id = target; updated_at = now }) t.mappings;
}

-- `mergeCategories`: a batch, so that a broken constraint leaves nothing of it.
unfoldable pub merge_categories : Ident → Ident → Ident → ℕ → Statement (Unit {0})
unfolding update_where find_category
merge_categories source target user now = do
  found ← gets (find_category source user)
  referenced ← gets (λ t. is_referenced source (redirected source target user now t))
  throw_if (not (is_none found) && referenced) constraint_failed
  modify (λ t. record (redirected source target user now t) {
    categories = delete_where (is_category source user) t.categories;
  })
