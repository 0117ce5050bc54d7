-- ===== src/Categories/Statements/Calls.antt =====
-- Single statements of worker/repositories/categories-repository.ts leave each reference its category.
use mono_finance.Common.{
  Ident, ℕ, ◌≡◌, refl, true, false, ◌&&◌, ◌||◌, not, is_none, List, [], ◌∷◌, ◌==◌, ==_to, and_parts,
  any, All-append, Bool-cases, inl, inr,
}
use mono_finance.Compensation.Tables.{Text}
use mono_finance.Categories.Tables.{
  CategoryRow, CategoryTables, CategoryInput, is_category, is_mapping, find_category,
}
use mono_finance.Categories.Statements.{
  has_name, lacks_category, create_category, update_category, upsert_override, upsert_mapping,
}
use mono_finance.Listing.Parse.{same_text}
use mono_finance.Categories.Tables.Owned.{AreSound, owns, All-update_where}
use mono_finance.Categories.Statements.Keeps.{
  create-AreSound, update-AreSound, override-AreSound, mapping-AreSound,
}

-- No row has the id that a new category gets.
fresh_id :
    (id : Ident) (user : Ident) (name : Text) (rows : List CategoryRow)
    → any (λ row. row.category.id == id || has_name user name row) rows ≡ false
    → (v : Ident) → owns id v rows ≡ false
fresh_id id user name [] h v = refl
fresh_id id user name (row ∷ rows) h v = elim (Bool-cases (row.category.id == id)) [
  | inl e ↦ cc (rw e at h)
  | inr e ↦ rw e (elim (Bool-cases (has_name user name row)) [
    | inl n ↦ cc (rw (e, n) at h)
    | inr n ↦ fresh_id id user name rows (rw (e, n) at h) v
  ])
]

module _ (t : CategoryTables) (h : AreSound t) where
  pub create_category-AreSound :
      (new_id user : Ident) (input : CategoryInput) (trimmed : Text) (now : ℕ)
      → AreSound (create_category new_id user input trimmed now t).1
  unfolding create_category
  create_category-AreSound new_id user input trimmed now =
      elim (Bool-cases
        (any (λ row. row.category.id == new_id || has_name user trimmed row) t.categories)) [
          | inl taken ↦ rw taken h
          | inr free ↦
              rw free (create-AreSound t h _ (fresh_id new_id user trimmed t.categories free))
        ]

  pub update_category-AreSound :
      (id user : Ident) (input : CategoryInput) (trimmed : Text) (now : ℕ)
      → AreSound (update_category id user input trimmed now t).1
  unfolding update_category
  update_category-AreSound id user input trimmed now =
      elim (Bool-cases (
        not (is_none (find_category id user t))
        && any (λ row. not (row.category.id == id) && has_name user trimmed row) t.categories)) [
          | inl taken ↦ rw taken h
          | inr free ↦ rw free (update-AreSound t h (is_category id user) input trimmed now)
        ]

  pub upsert_override-AreSound :
      (transaction_id category_id user : Ident) (now : ℕ)
      → owns category_id user t.categories ≡ true
      → AreSound (upsert_override transaction_id category_id user now t).1
  unfolding upsert_override
  upsert_override-AreSound transaction_id category_id user now owned =
      elim (Bool-cases (lacks_category category_id t)) [
        | inl lacking ↦ rw lacking h
        | inr there ↦
            elim (Bool-cases (any (λ o. o.transaction_id == transaction_id) t.overrides)) [
              | inl known ↦
                  rw (there, known)
                    (override-AreSound t h _ (
                      All-update_where (λ o. owns o.category_id o.user_id t.categories ≡ true)
                        (λ o. o.transaction_id == transaction_id && o.user_id == user)
                        (λ o. record o { category_id = category_id; updated_at = now }) t.overrides
                        (λ o e _.
                          rw
                            (==_to o.user_id user
                              (and_parts (o.transaction_id == transaction_id) (o.user_id == user)
                                e).1)
                            owned)
                        h.overrides_owned))
              | inr new ↦
                  rw (there, new)
                    (override-AreSound t h _ (
                      All-append (λ o. owns o.category_id o.user_id t.categories ≡ true) t.overrides
                        _ h.overrides_owned (owned, tt)))
            ]
      ]

  pub upsert_mapping-AreSound :
      (code : Text) (category_id user : Ident) (now : ℕ)
      → owns category_id user t.categories ≡ true
      → AreSound (upsert_mapping code category_id user now t).1
  unfolding upsert_mapping
  upsert_mapping-AreSound code category_id user now owned =
      elim (Bool-cases (lacks_category category_id t)) [
        | inl lacking ↦ rw lacking h
        | inr there ↦ elim (Bool-cases (any (is_mapping user code) t.mappings)) [
          | inl known ↦
              rw (there, known)
                (mapping-AreSound t h _ (
                  All-update_where (λ m. owns m.category_id m.user_id t.categories ≡ true)
                    (is_mapping user code)
                    (λ m. record m { category_id = category_id; updated_at = now }) t.mappings
                    (λ m e _.
                      rw
                        (==_to m.user_id user
                          (and_parts (m.user_id == user) (same_text m.original_category_code code)
                            e).0)
                        owned)
                    h.mappings_owned))
          | inr new ↦
              rw (there, new)
                (mapping-AreSound t h _ (
                  All-append (λ m. owns m.category_id m.user_id t.categories ≡ true) t.mappings _
                    h.mappings_owned (owned, tt)))
        ]
      ]
