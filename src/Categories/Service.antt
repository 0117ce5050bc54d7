-- ===== src/Categories/Service.antt =====
-- `CategoryService` of worker/services/category-service.ts. The list of the categories and that of
-- their sources are left out. `trim` is the platform's.
pub mod Soundness
pub mod Merging
use mono_finance.Common.{
  Ident, ℕ, suc, Bool, true, false, ◌&&◌, ◌||◌, not, Option, none, some, get_or, is_none, List, [],
  ◌∷◌, ltb, leb, ◌==◌, any, filter, length, if◌then◌else◌,
}
use mono_finance.Common.Action.{◌>>=◌, ◌>>◌, pure, gets, or_throw, throw_if, modify, Result, next}
use mono_finance.Compensation.Tables.{Text}
use mono_finance.Listing.Parse.{same_text, is_empty, is_letter, is_digit}
use mono_finance.Categories.Tables.{
  CustomCategory, CategoryInput, CategoryTables, CategoryError, CategorizedTransaction,
  OwnedTransactionForCategory, Statement, category_not_found, category_referenced, invalid_category,
  transaction_not_found, find_category, count_overrides, count_source_mappings, find_categorized,
  mapped_of, first_where,
}
use mono_finance.Categories.Statements.{
  create_category, update_category, delete_category, upsert_override, remove_override,
  upsert_mapping, remove_mapping, merge_categories,
}

pub data EffectiveSource : Type 0 where
  custom mapped original : EffectiveSource

pub record OriginalCategory : Type 0 where
  pub id : Option Text
  pub name : Option Text

-- An effective category that is the source's own has the source's code for its id.
pub data EffectiveCategoryResult : Type 0 where
  chosen :
      (category : CustomCategory) (source : EffectiveSource) (from : OriginalCategory)
      → EffectiveCategoryResult
  unchanged : (source : Option EffectiveSource) (from : OriginalCategory) → EffectiveCategoryResult

abbrev pub original_source : Option Text → Option EffectiveSource
original_source none = none
original_source (some _) = some original

abbrev pub effective_of :
    OriginalCategory → Option CustomCategory → Option CustomCategory → EffectiveCategoryResult
effective_of from (some c) _ = chosen c custom from
effective_of from none (some c) = chosen c mapped from
effective_of from none none = unchanged (original_source from.name) from

-- `resolveEffectiveCategory`, and `resolveForAnalytics` with it.
unfoldable pub resolve_effective_category : OwnedTransactionForCategory → EffectiveCategoryResult
resolve_effective_category x =
    effective_of (record { id = x.original_category_code; name = x.original_category_name })
      x.override_category x.mapped_category

pub record SourceCategory : Type 0 where
  pub code : Text
  pub original_name : Text
  pub transaction_count : ℕ
  pub mapped_category : Option CustomCategory

abbrev pub same_code : Text → Option Text → Bool
same_code code none = false
same_code code (some other) = same_text other code

-- The order of texts that MAX takes.
unfoldable pub text_before : Text → Text → Bool
text_before [] [] = false
text_before [] (_ ∷ _) = true
text_before (_ ∷ _) [] = false
text_before (c ∷ s) (d ∷ t) = ltb c d || (c == d && text_before s t)

abbrev pub greater_text : Option Text → Option Text → Option Text
greater_text none t = t
greater_text (some s) none = some s
greater_text (some s) (some t) = some (if text_before s t then t else s)

-- MAX(original_category_name), which takes no notice of NULL.
unfoldable pub greatest_name : List CategorizedTransaction → Option Text
unfolding text_before
greatest_name [] = none
greatest_name (x ∷ xs) = greater_text x.original_category_name (greatest_name xs)

abbrev pub source_of :
    Ident → Text → CategoryTables → List CategorizedTransaction → Option SourceCategory
source_of user code t [] = none
source_of user code t (x ∷ xs) = some (record {
  code = code;
  original_name = get_or (greatest_name (x ∷ xs)) code;
  transaction_count = length (x ∷ xs);
  mapped_category = mapped_of user (some code) t;
})

-- `findSourceCategory`: the group of the user's transactions with the code.
unfoldable pub find_source_category : Text → Ident → CategoryTables → Option SourceCategory
unfolding greatest_name first_where
find_source_category code user t =
    source_of user code t
      (filter (λ x. x.user_id == user && same_code code x.original_category_code) t.transactions)

-- /^[a-z0-9-]+$/i
abbrev pub is_token : Text → Bool
is_token s = not (is_empty s) && not (any (λ c. not (is_letter c || is_digit c || c == 45)) s)

abbrev pub is_optional_token : (Text → Text) → Option Text → ℕ → Bool
is_optional_token trim none maximum = true
is_optional_token trim (some s) maximum =
    not (is_empty (trim s)) && leb (length s) maximum && is_token s

-- The tests of `assertCategoryInput` and `assertSourceCode`.
abbrev pub is_bad_input : (Text → Text) → CategoryInput → Bool
is_bad_input trim input =
    is_empty (trim input.name)
    || ltb 80 (length input.name)
    || not (is_optional_token trim input.icon 32)
    || not (is_optional_token trim input.color_token 32)

abbrev pub is_bad_code : (Text → Text) → Text → Bool
is_bad_code trim code = is_empty (trim code) || ltb 128 (length code)

unfoldable pub create : (Text → Text) → ℕ → Ident → Ident → CategoryInput → Statement CustomCategory
unfolding create_category
create trim now new_id user input = do
  throw_if (is_bad_input trim input) invalid_category
  create_category new_id user input (trim input.name) now

unfoldable pub update : (Text → Text) → ℕ → Ident → Ident → CategoryInput → Statement CustomCategory
unfolding update_category
update trim now user id input = do
  throw_if (is_bad_input trim input) invalid_category
  category ← update_category id user input (trim input.name) now
  or_throw category category_not_found

unfoldable pub delete : Ident → Ident → Statement (Unit {0})
unfolding find_category count_overrides count_source_mappings delete_category
delete user id = do
  found ← gets (find_category id user)
  throw_if (is_none found) category_not_found
  overrides ← gets (count_overrides id user)
  mappings ← gets (count_source_mappings id user)
  throw_if (ltb 0 overrides || ltb 0 mappings) category_referenced
  delete_category id user

unfoldable pub merge : ℕ → Ident → Ident → Ident → Statement CustomCategory
unfolding find_category merge_categories
merge now user source_id target_id = do
  throw_if (source_id == target_id) invalid_category
  source ← gets (find_category source_id user)
  found ← gets (find_category target_id user)
  throw_if (is_none source) category_not_found
  target ← or_throw found category_not_found
  merge_categories source_id target_id user now
  pure target

unfoldable pub set_transaction_override :
    ℕ → Ident → Ident → Ident → Statement EffectiveCategoryResult
unfolding find_categorized find_category upsert_override resolve_effective_category
set_transaction_override now user transaction_id category_id = do
  found ← gets (find_categorized transaction_id user)
  x ← or_throw found transaction_not_found
  wanted ← gets (find_category category_id user)
  category ← or_throw wanted category_not_found
  upsert_override transaction_id category_id user now
  pure (resolve_effective_category (record x { override_category = some category }))

unfoldable pub reset_transaction_override : Ident → Ident → Statement EffectiveCategoryResult
unfolding find_categorized remove_override resolve_effective_category
reset_transaction_override user transaction_id = do
  found ← gets (find_categorized transaction_id user)
  x ← or_throw found transaction_not_found
  remove_override transaction_id user
  pure (resolve_effective_category (record x { override_category = none }))

unfoldable pub set_source_mapping :
    (Text → Text) → ℕ → Ident → Text → Ident → Statement SourceCategory
unfolding find_source_category find_category upsert_mapping
set_source_mapping trim now user code category_id = do
  throw_if (is_bad_code trim code) invalid_category
  found ← gets (find_source_category code user)
  wanted ← gets (find_category category_id user)
  source ← or_throw found category_not_found
  category ← or_throw wanted category_not_found
  upsert_mapping code category_id user now
  pure (record source { mapped_category = some category })

unfoldable pub reset_source_mapping : (Text → Text) → Ident → Text → Statement SourceCategory
unfolding find_source_category remove_mapping
reset_source_mapping trim user code = do
  throw_if (is_bad_code trim code) invalid_category
  found ← gets (find_source_category code user)
  source ← or_throw found category_not_found
  remove_mapping code user
  pure (record source { mapped_category = none })

-- One call of the service.
pub data Request : Type 0 where
  creates : (now : ℕ) (new_id user : Ident) (input : CategoryInput) → Request
  updates : (now : ℕ) (user id : Ident) (input : CategoryInput) → Request
  deletes : (user id : Ident) → Request
  merges : (now : ℕ) (user source_id target_id : Ident) → Request
  overrides : (now : ℕ) (user transaction_id category_id : Ident) → Request
  resets_override : (user transaction_id : Ident) → Request
  maps_source : (now : ℕ) (user : Ident) (code : Text) (category_id : Ident) → Request
  resets_mapping : (user : Ident) (code : Text) → Request

-- The tables after a call.
unfoldable pub handle : (Text → Text) → Request → CategoryTables → CategoryTables
unfolding create update delete merge set_transaction_override reset_transaction_override
    set_source_mapping reset_source_mapping
handle trim (creates now new_id user input) t = (create trim now new_id user input t).1
handle trim (updates now user id input) t = (update trim now user id input t).1
handle trim (deletes user id) t = (delete user id t).1
handle trim (merges now user source_id target_id) t = (merge now user source_id target_id t).1
handle trim (overrides now user transaction_id category_id) t =
    (set_transaction_override now user transaction_id category_id t).1
handle trim (resets_override user transaction_id) t =
    (reset_transaction_override user transaction_id t).1
handle trim (maps_source now user code category_id) t =
    (set_source_mapping trim now user code category_id t).1
handle trim (resets_mapping user code) t = (reset_source_mapping trim user code t).1

unfoldable pub handle_all : (Text → Text) → List Request → CategoryTables → CategoryTables
unfolding handle
handle_all trim [] t = t
handle_all trim (r ∷ rs) t = handle_all trim rs (handle trim r t)
