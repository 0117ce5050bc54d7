-- ===== src/Categories/Statements/Keeps.antt =====
-- The changes of the tables that worker/repositories/categories-repository.ts makes, where each
-- reference still has its category.
use mono_finance.Common.{
  Ident, ℕ, ◌≡◌, refl, sym, ◌∙◌, Bool, true, false, ◌&&◌, ◌||◌, List, [], ◌∷◌, ◌++◌, ◌==◌, ==_to,
  and_parts, any-append, All, All-mono, All-both, Bool-cases, inl, inr, arith, or_false,
}
use mono_finance.Compensation.Tables.{Text}
use mono_finance.Categories.Tables.{
  CategoryRow, CategoryOverride, SourceMapping, CategoryTables, CategoryInput, update_where,
  delete_where, is_category,
}
use mono_finance.Categories.Statements.{renamed, redirected}
use mono_finance.Categories.Tables.Owned.{
  AreSound, owns, All-update_where, owns-delete_where, owns-deleted, owns-update_where,
}

All-updated :
    {A : Type 0} (P : A → Type 0) (p : A → Bool) (f : A → A) (xs : List A)
    → ((x : A) → p x ≡ true → P (f x))
    → ((x : A) → p x ≡ false → P x)
    → All P (update_where p f xs)
unfolding update_where
All-updated P p f [] hit miss = tt
All-updated P p f (x ∷ xs) hit miss = elim (Bool-cases (p x)) [
  | inl e ↦ rw e (hit x e, All-updated P p f xs hit miss)
  | inr e ↦ rw e (miss x e, All-updated P p f xs hit miss)
]

module _ (t : CategoryTables) (h : AreSound t) where
  -- More categories, of an id that no row has.
  pub create-AreSound :
      (row : CategoryRow)
      → ((v : Ident) → owns row.category.id v t.categories ≡ false)
      → AreSound (record t { categories = t.categories ++ row ∷ [] })
  create-AreSound row fresh = record {
    overrides_owned =
        All-mono _ _ (λ o e. still o.category_id o.user_id e) t.overrides h.overrides_owned;
    mappings_owned =
        All-mono _ _ (λ m e. still m.category_id m.user_id e) t.mappings h.mappings_owned;
    one_owner = λ id u v hu hv.
        one id u v (sym (any-append (is_category id u) t.categories (row ∷ [])) ∙ hu)
          (sym (any-append (is_category id v) t.categories (row ∷ [])) ∙ hv);
  }
    where
      still :
          (id u : Ident)
          → owns id u t.categories ≡ true
          → owns id u (t.categories ++ row ∷ []) ≡ true
      still id u e = any-append (is_category id u) t.categories (row ∷ []) ∙ rw e refl

      -- Who owns an id by the new row alone owns the row.
      by_row :
          (id u : Ident)
          → owns id u t.categories ≡ false
          → (owns id u t.categories || (is_category id u row || false)) ≡ true
          → (row.category.id ≡ id) × (row.user_id ≡ u)
      by_row id u absent h =
          let (i, w) = and_parts _ _ (sym (or_false (is_category id u row)) ∙ rw absent at h) in
          (==_to row.category.id id i, ==_to row.user_id u w)

      absent : (id u v : Ident) → row.category.id ≡ id → owns id v t.categories ≡ false
      absent id u v e = rw (sym e) (fresh v)

      one :
          (id u v : Ident)
          → (owns id u t.categories || (is_category id u row || false)) ≡ true
          → (owns id v t.categories || (is_category id v row || false)) ≡ true
          → u ≡ v
      one id u v hu hv = elim (Bool-cases (owns id u t.categories)) [
        | inl a ↦ elim (Bool-cases (owns id v t.categories)) [
          | inl b ↦ h.one_owner id u v a b
          | inr b ↦ cc (a, absent id v u (by_row id v b hv).0)
        ]
        | inr a ↦ elim (Bool-cases (owns id v t.categories)) [
          | inl b ↦ cc (b, absent id u v (by_row id u a hu).0)
          | inr b ↦ cc ((by_row id u a hu).1, (by_row id v b hv).1)
        ]
      ]

  pub update-AreSound :
      (p : CategoryRow → Bool) (input : CategoryInput) (trimmed : Text) (now : ℕ)
      → AreSound (record t { categories = update_where p (renamed input trimmed now) t.categories })
  update-AreSound p input trimmed now = record {
    overrides_owned =
        All-mono _ _ (λ o e. same o.category_id o.user_id ∙ e) t.overrides h.overrides_owned;
    mappings_owned =
        All-mono _ _ (λ m e. same m.category_id m.user_id ∙ e) t.mappings h.mappings_owned;
    one_owner = λ id u v hu hv. h.one_owner id u v (sym (same id u) ∙ hu) (sym (same id v) ∙ hv);
  }
    where
      same :
          (id u : Ident)
          → owns id u (update_where p (renamed input trimmed now) t.categories)
            ≡ owns id u t.categories
      same id u = owns-update_where id u p input trimmed now t.categories

  -- A category goes that no row of its user refers to.
  pub delete-AreSound :
      (id user : Ident)
      → All (λ o. (o.category_id == id && o.user_id == user) ≡ false) t.overrides
      → All (λ m. (m.category_id == id && m.user_id == user) ≡ false) t.mappings
      → AreSound (record t { categories = delete_where (is_category id user) t.categories })
  delete-AreSound id user no_override no_mapping = record {
    overrides_owned =
        All-both _ _ _ t.overrides
          (λ o other e. owns-delete_where o.category_id o.user_id id user t.categories other ∙ e)
          no_override h.overrides_owned;
    mappings_owned =
        All-both _ _ _ t.mappings
          (λ m other e. owns-delete_where m.category_id m.user_id id user t.categories other ∙ e)
          no_mapping h.mappings_owned;
    one_owner = λ i u v hu hv.
        h.one_owner i u v (owns-deleted i u id user t.categories hu)
          (owns-deleted i v id user t.categories hv);
  }

  pub override-AreSound :
      (os : List CategoryOverride)
      → All (λ o. owns o.category_id o.user_id t.categories ≡ true) os
      → AreSound (record t { overrides = os })
  override-AreSound os all = record {
    overrides_owned = all;
    mappings_owned = h.mappings_owned;
    one_owner = h.one_owner;
  }

  pub mapping-AreSound :
      (ms : List SourceMapping)
      → All (λ m. owns m.category_id m.user_id t.categories ≡ true) ms
      → AreSound (record t { mappings = ms })
  mapping-AreSound ms all = record {
    overrides_owned = h.overrides_owned;
    mappings_owned = all;
    one_owner = h.one_owner;
  }

  redirected-AreSound :
      (source target user : Ident) (now : ℕ)
      → owns target user t.categories ≡ true
      → AreSound (redirected source target user now t)
  redirected-AreSound source target user now owned = record {
    overrides_owned =
        All-update_where _ _ _ t.overrides
          (λ o e _. rw (==_to o.user_id user (and_parts (o.category_id == source) _ e).1) owned)
          h.overrides_owned;
    mappings_owned =
        All-update_where _ _ _ t.mappings
          (λ m e _. rw (==_to m.user_id user (and_parts (m.category_id == source) _ e).1) owned)
          h.mappings_owned;
    one_owner = h.one_owner;
  }

-- What refers to the source of a merge refers to its target.
pub merge-AreSound :
    (t : CategoryTables)
    → AreSound t
    → (source target user : Ident) (now : ℕ) → (source == target) ≡ false
    → owns target user t.categories ≡ true
    → AreSound (record (redirected source target user now t) {
      categories = delete_where (is_category source user) t.categories;
    })
merge-AreSound t h source target user now differ owned =
    delete-AreSound (redirected source target user now t)
      (redirected-AreSound t h source target user now owned) source user
      (All-updated _ _ _ t.overrides (λ o e. moved o.user_id) (λ o e. e))
      (All-updated _ _ _ t.mappings (λ m e. moved m.user_id) (λ m e. e))
  where
    moved : (u : Ident) → (target == source && u == user) ≡ false
    moved u = ground arith
