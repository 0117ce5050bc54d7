-- ===== src/Categories/Lists.antt =====
-- The lists of worker/services/category-service.ts: the categories, and the pages of the source
-- categories, with their queries in worker/repositories/categories-repository.ts. The order of names
-- without their case is a parameter, as are `trim` and `toLocaleLowerCase`.
use mono_finance.Common.{
  Ident, ℕ, ◌-◌, ◌*◌, Bool, true, false, ◌&&◌, ◌||◌, not, Option, none, some, is_none, List, [],
  ◌∷◌, ◌++◌, map, ltb, ◌==◌, any, filter, take, length, if◌then◌else◌, zero, suc,
}
use mono_finance.Common.Sort.{sort_by}
use mono_finance.Compensation.Tables.{Text}
use mono_finance.Listing.Parse.{same_text, is_empty}
use mono_finance.Listing.Search.{at_some}
use mono_finance.Categories.Tables.{CustomCategory, CategoryTables, CategorizedTransaction}
use mono_finance.Categories.Service.{SourceCategory, find_source_category}

pub data MappingFilter : Type 0 where
  all_sources only_mapped only_unmapped : MappingFilter

pub record SourceCategoryQuery : Type 0 where
  pub mapping : MappingFilter
  pub page : ℕ
  pub page_size : ℕ
  pub query : Text

pub record SourceCategoryPage : Type 0 where
  pub page : ℕ
  pub page_size : ℕ
  pub sources : List SourceCategory
  pub total_items : ℕ

abbrev pub is_prefix : Text → Text → Bool
is_prefix [] t = true
is_prefix (c ∷ s) [] = false
is_prefix (c ∷ s) (d ∷ t) = c == d && is_prefix s t

-- `text.includes(part)`
abbrev pub includes_text : Text → Text → Bool
includes_text part t = at_some (is_prefix part) t

-- `slice(start)`
abbrev pub slice_from : {A : Type 0} → ℕ → List A → List A
slice_from zero xs = xs
slice_from (suc n) [] = []
slice_from (suc n) (x ∷ xs) = slice_from n xs

-- The codes that GROUP BY finds among a user's transactions.
abbrev pub add_code : Option Text → List Text → List Text
add_code none codes = codes
add_code (some code) codes = if any (same_text code) codes then codes else codes ++ code ∷ []

unfoldable pub codes_of : Ident → List CategorizedTransaction → List Text → List Text
codes_of user [] codes = codes
codes_of user (x ∷ xs) codes =
    codes_of user xs (if x.user_id == user then add_code x.original_category_code codes else codes)

abbrev pub found_sources : List (Option SourceCategory) → List SourceCategory
found_sources [] = []
found_sources (none ∷ xs) = found_sources xs
found_sources (some s ∷ xs) = s ∷ found_sources xs

module _ (name_before : Text → Text → Bool) where
  -- `listCategories`
  unfoldable pub list_categories : Ident → CategoryTables → List CustomCategory
  unfolding sort_by
  list_categories user t =
      map (λ row. row.category)
        (sort_by (λ a b. name_before a.category.name b.category.name)
          (filter (λ row. row.user_id == user) t.categories))

  abbrev pub source_precedes : SourceCategory → SourceCategory → Bool
  source_precedes a b =
      ltb b.transaction_count a.transaction_count
      || (a.transaction_count == b.transaction_count && name_before a.original_name b.original_name)

  -- `listSourceCategories`
  unfoldable pub list_source_categories : Ident → CategoryTables → List SourceCategory
  unfolding sort_by codes_of find_source_category
  list_source_categories user t = sort_by source_precedes (
      found_sources
        (map (λ code. find_source_category code user t) (codes_of user t.transactions [])))

  abbrev pub fits_mapping : MappingFilter → SourceCategory → Bool
  fits_mapping all_sources s = true
  fits_mapping only_mapped s = not (is_none s.mapped_category)
  fits_mapping only_unmapped s = is_none s.mapped_category

  abbrev pub fits_query : (Text → Text) → Text → SourceCategory → Bool
  fits_query lowered query s =
      is_empty query
      || includes_text query (lowered s.code)
      || includes_text query (lowered s.original_name)

  -- `listSources`
  unfoldable pub list_sources :
      (Text → Text)
      → (Text → Text)
      → Ident
      → SourceCategoryQuery
      → CategoryTables
      → SourceCategoryPage
  unfolding list_source_categories at_some
  list_sources trim lowered user input t =
      let query = lowered (trim input.query) in
      let matching =
        filter (λ s. fits_mapping input.mapping s && fits_query lowered query s)
          (list_source_categories user t) in
      let start = (input.page - 1) * input.page_size in
      record {
        page = input.page;
        page_size = input.page_size;
        sources = take input.page_size (slice_from start matching);
        total_items = length matching;
      }
