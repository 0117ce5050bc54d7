-- ===== src/Categories/Tests.antt =====
-- Runs of the categories (worker/services/category-service.ts) on concrete tables.
use mono_finance.Common.{false, Ident, ◌≡◌, refl, Option, none, some, [], ◌∷◌, arith}
use mono_finance.Common.Action.{ok, err}
use mono_finance.Compensation.Tables.{Text}
use mono_finance.Categories.Tables.{
  CustomCategory, CategoryRow, CategoryTables, category_referenced, find_category, override_of,
  mapped_of,
}
use mono_finance.Categories.Tables.Owned.{AreSound}
use mono_finance.Categories.Lists.{only_mapped, list_sources}
use mono_finance.Categories.Service.{deletes, merges, overrides, merge, delete, handle_all}
use mono_finance.Categories.Service.Soundness.{handle_all-AreSound}
use mono_finance.Categories.Service.Merging.{redirect, merge_lem}

abbrev food : CustomCategory
food = record { color_token = none; icon = none; id = 1; name = 70 ∷ [] }

abbrev cafes : CustomCategory
cafes = record { color_token = none; icon = none; id = 2; name = 67 ∷ [] }

abbrev of_user : CustomCategory → CategoryRow
of_user c = record { category = c; user_id = 7; created_at = 0; updated_at = 0 }

-- The transaction 10 is overridden with `cafes`, the source code "4" is mapped to it.
abbrev tables : CategoryTables
tables = record {
  categories = of_user food ∷ of_user cafes ∷ [];
  overrides =
      record { transaction_id = 10; category_id = 2; user_id = 7; created_at = 0; updated_at = 0 }
      ∷ [];
  mappings =
      record {
        user_id = 7;
        original_category_code = 52 ∷ [];
        category_id = 2;
        created_at = 0;
        updated_at = 0;
      }
      ∷ [];
  transactions =
      record {
        id = 10;
        user_id = 7;
        original_category_code = some (52 ∷ []);
        original_category_name = none;
      }
      ∷ [];
}

tables-AreSound : AreSound tables
tables-AreSound = record {
  overrides_owned = (refl, tt);
  mappings_owned = (refl, tt);
  one_owner = λ id u v hu hv. ground arith;
}

-- A category that is in use is not deleted.
delete-referenced : (delete 7 2 tables).0 ≡ err category_referenced
unfolding delete
delete-referenced = refl

-- Merged into `food`, it is found there by the transaction and by the source code.
override_of-merged : override_of 10 (merge 100 7 2 1 tables).1 ≡ some food
unfolding override_of merge
override_of-merged = refl

cafes_found : find_category 2 7 tables ≡ some cafes
unfolding find_category
cafes_found = refl

food_found : find_category 1 7 tables ≡ some food
unfolding find_category
food_found = refl

handle_all-AreSound_example : AreSound (
    handle_all
      (λ s. s)
      (overrides 50 7 10 1 ∷ deletes 7 1 ∷ merges 100 7 2 1 ∷ deletes 7 1 ∷ [])
      tables)
handle_all-AreSound_example =
    handle_all-AreSound (λ s. s)
      (overrides 50 7 10 1 ∷ deletes 7 1 ∷ merges 100 7 2 1 ∷ deletes 7 1 ∷ []) tables
      tables-AreSound

merge_lem_example :
    let (answer, t') = merge 100 7 2 1 tables in
    (answer ≡ ok food)
    × (find_category 2 7 t' ≡ none)
    × ((id : Ident) → override_of id t' ≡ redirect 2 food (override_of id tables))
    × ((u : Ident) (code : Option Text)
        → mapped_of u code t' ≡ redirect 2 food (mapped_of u code tables))
merge_lem_example =
    merge_lem tables tables-AreSound 100 7 2 1 cafes food refl cafes_found food_found

-- One source category, mapped to `cafes`, on the first page.
list_sources-first :
    (list_sources
      (λ a b. false)
      (λ s. s)
      (λ s. s)
      7
      (record { mapping = only_mapped; page = 1; page_size = 20; query = [] })
      tables).total_items
    ≡ 1
unfolding list_sources
list_sources-first = refl
