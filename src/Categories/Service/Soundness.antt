-- ===== src/Categories/Service/Soundness.antt =====
-- What the calls of worker/services/category-service.ts keep true of the tables.
use mono_finance.Common.{
  Ident, ℕ, ◌≡◌, refl, false, ◌&&◌, Option, none, some, List, [], ◌∷◌, ltb, ◌==◌, All, Bool-cases,
  Option-cases, inl, inr,
}
use mono_finance.Common.Sort.Sorted.{All-filter}
use mono_finance.Common.Action.{Result, ok, err, next, or_throw}
use mono_finance.Compensation.Tables.{Text}
use mono_finance.Categories.Tables.{
  CategoryTables, CategoryInput, Statement, CategoryError, category_not_found, find_category,
  count_overrides, count_source_mappings, find_categorized,
}
use mono_finance.Categories.Statements.{
  is_referenced, redirected, update_category, delete_category, upsert_override, remove_override,
  upsert_mapping, remove_mapping, merge_categories,
}
use mono_finance.Categories.Tables.Owned.{AreSound, find_category-owns, none_counted}
use mono_finance.Categories.Statements.Keeps.{
  delete-AreSound, override-AreSound, mapping-AreSound, merge-AreSound,
}
use mono_finance.Categories.Service.{
  Request, creates, updates, deletes, merges, overrides, resets_override, maps_source,
  resets_mapping, handle, handle_all, create, update, delete, merge, set_transaction_override,
  reset_transaction_override, set_source_mapping, reset_source_mapping, is_bad_input, is_bad_code,
  find_source_category,
}
use mono_finance.Categories.Statements.Calls.{
  create_category-AreSound, update_category-AreSound, upsert_override-AreSound,
  upsert_mapping-AreSound,
}

-- What follows a statement and changes nothing.
answered :
    {A B : Type 0} (f : A → Statement B) (r : Result CategoryError A × CategoryTables)
    → AreSound r.1
    → ((a : A) (t : CategoryTables) → (f a t).1 ≡ t)
    → AreSound (next f r).1
answered f (ok a, t) h still = rw (still a t) h
answered f (err e, t) h still = h

or_throw_still :
    {A : Type 0} (e : CategoryError) (o : Option A) (t : CategoryTables) → (or_throw o e t).1 ≡ t
or_throw_still e none t = refl
or_throw_still e (some a) t = refl

module _ (t : CategoryTables) (h : AreSound t) where
  create-call :
      (trim : Text → Text) (now : ℕ) (new_id user : Ident) (input : CategoryInput)
      → AreSound (create trim now new_id user input t).1
  unfolding create
  create-call trim now new_id user input = elim (Bool-cases (is_bad_input trim input)) [
    | inl bad ↦ rw bad h
    | inr good ↦ rw good (create_category-AreSound t h new_id user input (trim input.name) now)
  ]

  no_overrides :
      (id user : Ident)
      → ltb 0 (count_overrides id user t) ≡ false
      → All (λ o. (o.category_id == id && o.user_id == user) ≡ false) t.overrides
  unfolding count_overrides
  no_overrides id user e = none_counted _ t.overrides e

  no_mappings :
      (id user : Ident)
      → ltb 0 (count_source_mappings id user t) ≡ false
      → All (λ m. (m.category_id == id && m.user_id == user) ≡ false) t.mappings
  unfolding count_source_mappings
  no_mappings id user e = none_counted _ t.mappings e

  delete-call : (user id : Ident) → AreSound (delete user id t).1
  unfolding delete delete_category
  delete-call user id = elim (Option-cases (find_category id user t)) [
    | inl e ↦ rw e h
    | inr (c, e) ↦ elim (Bool-cases (ltb 0 (count_overrides id user t))) [
      | inl some_override ↦ rw (e, some_override) h
      | inr no_override ↦ elim (Bool-cases (ltb 0 (count_source_mappings id user t))) [
        | inl some_mapping ↦ rw (e, no_override, some_mapping) h
        | inr no_mapping ↦ elim (Bool-cases (is_referenced id t)) [
          | inl referenced ↦ rw (e, no_override, no_mapping, e, referenced) h
          | inr free ↦
              rw (e, no_override, no_mapping, e, free)
                (delete-AreSound t h id user (no_overrides id user no_override)
                  (no_mappings id user no_mapping))
        ]
      ]
    ]
  ]

  update-call :
      (trim : Text → Text) (now : ℕ) (user id : Ident) (input : CategoryInput)
      → AreSound (update trim now user id input t).1
  unfolding update
  update-call trim now user id input = elim (Bool-cases (is_bad_input trim input)) [
    | inl bad ↦ rw bad h
    | inr good ↦ rw good (
        answered _ (update_category id user input (trim input.name) now t)
          (update_category-AreSound t h id user input (trim input.name) now)
          (or_throw_still category_not_found))
  ]

  merge-call :
      (now : ℕ) (user source_id target_id : Ident)
      → AreSound (merge now user source_id target_id t).1
  unfolding merge merge_categories
  merge-call now user source_id target_id = elim (Bool-cases (source_id == target_id)) [
    | inl same ↦ rw same h
    | inr differ ↦ elim (Option-cases (find_category source_id user t)) [
      | inl e ↦ rw (differ, e) h
      | inr (source, e) ↦ elim (Option-cases (find_category target_id user t)) [
        | inl f ↦ rw (differ, e, f) h
        | inr (target, f) ↦
            elim (Bool-cases
              (is_referenced source_id (redirected source_id target_id user now t))) [
                | inl referenced ↦ rw (differ, e, f, e, referenced) h
                | inr free ↦
                    rw (differ, e, f, e, free)
                      (merge-AreSound t h source_id target_id user now differ
                        (find_category-owns target_id user t target f))
              ]
      ]
    ]
  ]

  override-call :
      (now : ℕ) (user transaction_id category_id : Ident)
      → AreSound (set_transaction_override now user transaction_id category_id t).1
  unfolding set_transaction_override
  override-call now user transaction_id category_id =
      elim (Option-cases (find_categorized transaction_id user t)) [
        | inl e ↦ rw e h
        | inr (x, e) ↦ elim (Option-cases (find_category category_id user t)) [
          | inl f ↦ rw (e, f) h
          | inr (category, f) ↦
              rw (e, f)
                (answered _ (upsert_override transaction_id category_id user now t)
                  (upsert_override-AreSound t h transaction_id category_id user now
                    (find_category-owns category_id user t category f))
                  (λ _ _. refl))
        ]
      ]

  reset_override-call :
      (user transaction_id : Ident) → AreSound (reset_transaction_override user transaction_id t).1
  unfolding reset_transaction_override remove_override
  reset_override-call user transaction_id =
      elim (Option-cases (find_categorized transaction_id user t)) [
        | inl e ↦ rw e h
        | inr (x, e) ↦ rw e (override-AreSound t h _ (All-filter _ _ t.overrides h.overrides_owned))
      ]

  mapping-call :
      (trim : Text → Text) (now : ℕ) (user : Ident) (code : Text) (category_id : Ident)
      → AreSound (set_source_mapping trim now user code category_id t).1
  unfolding set_source_mapping
  mapping-call trim now user code category_id = elim (Bool-cases (is_bad_code trim code)) [
    | inl bad ↦ rw bad h
    | inr good ↦ elim (Option-cases (find_source_category code user t)) [
      | inl e ↦ rw (good, e) h
      | inr (source, e) ↦ elim (Option-cases (find_category category_id user t)) [
        | inl f ↦ rw (good, e, f) h
        | inr (category, f) ↦
            rw (good, e, f)
              (answered _ (upsert_mapping code category_id user now t)
                (upsert_mapping-AreSound t h code category_id user now
                  (find_category-owns category_id user t category f))
                (λ _ _. refl))
      ]
    ]
  ]

  reset_mapping-call :
      (trim : Text → Text) (user : Ident) (code : Text)
      → AreSound (reset_source_mapping trim user code t).1
  unfolding reset_source_mapping remove_mapping
  reset_mapping-call trim user code = elim (Bool-cases (is_bad_code trim code)) [
    | inl bad ↦ rw bad h
    | inr good ↦ elim (Option-cases (find_source_category code user t)) [
      | inl e ↦ rw (good, e) h
      | inr (source, e) ↦
          rw (good, e) (mapping-AreSound t h _ (All-filter _ _ t.mappings h.mappings_owned))
    ]
  ]

handle-AreSound :
    (trim : Text → Text) (r : Request) (t : CategoryTables)
    → AreSound t
    → AreSound (handle trim r t)
unfolding handle
handle-AreSound trim (creates now new_id user input) t h =
    create-call t h trim now new_id user input
handle-AreSound trim (updates now user id input) t h = update-call t h trim now user id input
handle-AreSound trim (deletes user id) t h = delete-call t h user id
handle-AreSound trim (merges now user source_id target_id) t h =
    merge-call t h now user source_id target_id
handle-AreSound trim (overrides now user transaction_id category_id) t h =
    override-call t h now user transaction_id category_id
handle-AreSound trim (resets_override user transaction_id) t h =
    reset_override-call t h user transaction_id
handle-AreSound trim (maps_source now user code category_id) t h =
    mapping-call t h trim now user code category_id
handle-AreSound trim (resets_mapping user code) t h = reset_mapping-call t h trim user code

-- Calls of the service, in any number and order, on tables where each override and each mapping refers
-- to a category of its own user and no category id has two owners, leave tables where that is so: no
-- reference is left behind by a deletion or a merge, or leads to another user's category.
pub handle_all-AreSound :
    (trim : Text → Text) (rs : List Request) (t : CategoryTables)
    → AreSound t
    → AreSound (handle_all trim rs t)
unfolding handle_all
handle_all-AreSound trim [] t h = h
handle_all-AreSound trim (r ∷ rs) t h =
    handle_all-AreSound trim rs (handle trim r t) (handle-AreSound trim r t h)
