-- ===== src/Categories/Service/Merging.antt =====
-- What a merge of two categories (worker/services/category-service.ts) does to the transactions.
use mono_finance.Common.{
  Ident, ℕ, ◌≡◌, refl, sym, ap, ◌∙◌, Bool, true, false, ◌&&◌, Option, none, some, List, [], ◌∷◌,
  ◌==◌, ==_to, ==_self, and_parts, any, or_true, All, All-mono, if◌then◌else◌, Bool-cases,
  Option-cases, inl, inr, arith,
}
use mathlib.Core.Option.{some-injective}
use mono_finance.Common.Action.{ok}
use mono_finance.Compensation.Tables.{Text}
use mono_finance.Categories.Tables.{
  CustomCategory, CategoryRow, CategoryOverride, SourceMapping, CategoryTables, first_where,
  delete_where, is_category, is_mapping, find_category, category_in, category_by_id, overriding,
  override_of, mapping_category, mapped_of,
}
use mono_finance.Categories.Statements.{is_referenced, redirected, merge_categories}
use mono_finance.Categories.Tables.Owned.{AreSound, owns, find_category-owns}
use mono_finance.Categories.Tables.Lookup.{
  first_where-agree, first_where-holds, first_where-All, first_where-update_where,
  first_where-delete_where, any-none, All-changed, any-first_where,
}
use mono_finance.Categories.Service.{merge}

-- The source's category gives way to the target's.
abbrev pub redirect : Ident → CustomCategory → Option CustomCategory → Option CustomCategory
redirect source target none = none
redirect source target (some c) = if c.id == source then some target else some c

-- The rows of a table own their ids.
rows_own : (rows : List CategoryRow) → All (λ r. owns r.category.id r.user_id rows ≡ true) rows
rows_own [] = tt
rows_own (r ∷ rows) = (
  rw (==_self r.category.id, ==_self r.user_id) refl,
  All-mono _ _ (λ x e. rw e (or_true (is_category x.category.id x.user_id r))) rows (rows_own rows),
)

module _ (t : CategoryTables) (h : AreSound t) (source target user : Ident) (now : ℕ)
    (c : CustomCategory) (differ : (source == target) ≡ false)
    (has_source : owns source user t.categories ≡ true)
    (found : find_category target user t ≡ some c) where
  -- The category of an id is the one that its owner finds.
  target_by_id : category_by_id target t ≡ some c
  unfolding find_category
  target_by_id =
      ap category_in (
        first_where-agree (λ r. r.category.id == target) (is_category target user) t.categories
          (All-mono _ _ (λ r own. alike r own) t.categories (rows_own t.categories)))
      ∙ found
    where
      alike :
          (r : CategoryRow)
          → owns r.category.id r.user_id t.categories ≡ true
          → (r.category.id == target) ≡ is_category target user r
      alike r own = elim (Bool-cases (r.category.id == target)) [
        | inl e ↦
            let same =
              h.one_owner target r.user_id user (rw (==_to r.category.id target e) at own)
                (find_category-owns target user t c found) in
            rw (e, same) (sym (==_self user))
        | inr e ↦ rw e refl
      ]

  merged : CategoryTables
  merged = record (redirected source target user now t) {
    categories = delete_where (is_category source user) t.categories;
  }

  -- The deletion takes only the source away.
  kept_by_id : (i : Ident) → (i == source) ≡ false → category_by_id i merged ≡ category_by_id i t
  unfolding merged
  kept_by_id i other = ap category_in (
      first_where-delete_where (λ r. r.category.id == i) (is_category source user) t.categories
        (λ r e.
          let (same, _) = and_parts (r.category.id == source) (r.user_id == user) e in
          rw (==_to r.category.id source same) (other_way i other)))
    where
      other_way : (i : Ident) → (i == source) ≡ false → (source == i) ≡ false
      other_way i other = ground arith

  -- An id that leads to a category leads to one with that id.
  by_id-same : (i : Ident) (d : CustomCategory) → category_by_id i t ≡ some d → d.id ≡ i
  by_id-same i d e = elim (Option-cases (first_where (λ r. r.category.id == i) t.categories)) [
    | inl f ↦ cc (rw f at e)
    | inr (r, f) ↦
        let holds = first_where-holds (λ r. r.category.id == i) t.categories r f in
        let whole = rw f at e in
        ap (λ x. x.id) (sym (some-injective _ _ whole)) ∙ ==_to r.category.id i holds
  ]

  owned_by_id :
      (i u : Ident)
      → owns i u t.categories ≡ true
      → (d : CustomCategory) × (category_by_id i t ≡ some d)
  owned_by_id i u own =
      let (r, e) =
        any-first_where (λ r. r.category.id == i) t.categories (weaker t.categories own) in
      (r.category, ap category_in e)
    where
      weaker :
          (rows : List CategoryRow)
          → owns i u rows ≡ true
          → any (λ r. r.category.id == i) rows ≡ true
      weaker [] own = cc own
      weaker (r ∷ rows) own = elim (Bool-cases (r.category.id == i)) [
        | inl e ↦ rw e refl
        | inr e ↦ rw e (weaker rows (rw e at own))
      ]

  abbrev goes : Ident → Ident → Bool
  goes i u = i == source && u == user

  -- Where a reference leads after the merge.
  after :
      (i u : Ident)
      → owns i u t.categories ≡ true
      → category_by_id (if goes i u then target else i) merged
        ≡ redirect source c (category_by_id i t)
  after i u own = elim (Bool-cases (i == source)) [
    | inl e ↦
        let i_source = ==_to i source e in
        let u_user = h.one_owner source u user (rw i_source at own) has_source in
        let (d, f) = owned_by_id source user has_source in
        rw (i_source, u_user, ==_self source, ==_self user)
          (kept_by_id target (turned differ)
            ∙ target_by_id
            ∙ sym (ap (redirect source c) f ∙ rw (by_id-same source d f, ==_self source) refl))
    | inr e ↦ rw e (
        kept_by_id i e ∙ elim (Option-cases (category_by_id i t)) [
          | inl f ↦ rw f refl
          | inr (d, f) ↦ rw f (rw (by_id-same i d f, e) refl)
        ])
  ]
    where
      turned : (source == target) ≡ false → (target == source) ≡ false
      turned differ = ground arith

  override_after : (id : Ident) → override_of id merged ≡ redirect source c (override_of id t)
  unfolding override_of merged
  override_after id =
      ap (overriding merged) (
        first_where-update_where (λ o. o.transaction_id == id) (λ o. goes o.category_id o.user_id)
          (λ o. record o { category_id = target; updated_at = now }) t.overrides (λ o. refl))
      ∙ elim (Option-cases (first_where (λ o. o.transaction_id == id) t.overrides)) [
        | inl e ↦ rw e refl
        | inr (o, e) ↦
            let own =
              first_where-All (λ o. owns o.category_id o.user_id t.categories ≡ true)
                (λ o. o.transaction_id == id) t.overrides o h.overrides_owned e in
            rw e (led o (after o.category_id o.user_id own))
      ]
    where
      led :
          (o : CategoryOverride)
          → category_by_id (if goes o.category_id o.user_id then target else o.category_id) merged
            ≡ redirect source c (category_by_id o.category_id t)
          → category_by_id
              (if goes o.category_id o.user_id
                then record o { category_id = target; updated_at = now }
                else o).category_id
              merged
            ≡ redirect source c (category_by_id o.category_id t)
      led o e = elim (Bool-cases (goes o.category_id o.user_id)) [
        | inl g ↦ rw g (rw g at e)
        | inr g ↦ rw g (rw g at e)
      ]

  mapped_after :
      (u : Ident) (code : Option Text)
      → mapped_of u code merged ≡ redirect source c (mapped_of u code t)
  unfolding merged
  mapped_after u none = refl
  mapped_after u (some code) =
      ap (mapping_category merged) (
        first_where-update_where (is_mapping u code) (λ m. goes m.category_id m.user_id)
          (λ m. record m { category_id = target; updated_at = now }) t.mappings (λ m. refl))
      ∙ elim (Option-cases (first_where (is_mapping u code) t.mappings)) [
        | inl e ↦ rw e refl
        | inr (m, e) ↦
            let own =
              first_where-All (λ m. owns m.category_id m.user_id t.categories ≡ true)
                (is_mapping u code) t.mappings m h.mappings_owned e in
            rw e (led m (after m.category_id m.user_id own))
      ]
    where
      led :
          (m : SourceMapping)
          → category_by_id (if goes m.category_id m.user_id then target else m.category_id) merged
            ≡ redirect source c (category_by_id m.category_id t)
          → category_by_id
              (if goes m.category_id m.user_id
                then record m { category_id = target; updated_at = now }
                else m).category_id
              merged
            ≡ redirect source c (category_by_id m.category_id t)
      led m e = elim (Bool-cases (goes m.category_id m.user_id)) [
        | inl g ↦ rw g (rw g at e)
        | inr g ↦ rw g (rw g at e)
      ]

  -- A reference that stays is none to the source.
  stays : (i u : Ident) → owns i u t.categories ≡ true → goes i u ≡ false → (i == source) ≡ false
  stays i u own g = elim (Bool-cases (i == source)) [
    | inl e ↦
        let u_user = h.one_owner source u user (rw (==_to i source e) at own) has_source in
        cc (rw (e, u_user, ==_self user) at g)
    | inr e ↦ e
  ]

  not_referenced : is_referenced source (redirected source target user now t) ≡ false
  not_referenced =
      rw
        (any-none (λ o. o.category_id == source) _
          (All-changed (λ o. (o.category_id == source) ≡ false)
            (λ o. owns o.category_id o.user_id t.categories ≡ true)
            (λ o. goes o.category_id o.user_id)
            (λ o. record o { category_id = target; updated_at = now }) t.overrides
            (λ o own e. turned differ) (λ o own e. stays o.category_id o.user_id own e)
            h.overrides_owned))
        (any-none (λ m. m.category_id == source) _
          (All-changed (λ m. (m.category_id == source) ≡ false)
            (λ m. owns m.category_id m.user_id t.categories ≡ true)
            (λ m. goes m.category_id m.user_id)
            (λ m. record m { category_id = target; updated_at = now }) t.mappings
            (λ m own e. turned differ) (λ m own e. stays m.category_id m.user_id own e)
            h.mappings_owned))
    where
      turned : (source == target) ≡ false → (target == source) ≡ false
      turned differ = ground arith

  source_gone : find_category source user merged ≡ none
  unfolding find_category merged first_where
  source_gone = ap category_in (gone t.categories)
    where
      gone :
          (rows : List CategoryRow)
          → first_where (is_category source user) (delete_where (is_category source user) rows)
            ≡ none
      gone [] = refl
      gone (r ∷ rows) = elim (Bool-cases (is_category source user r)) [
        | inl e ↦ rw e (gone rows)
        | inr e ↦ rw e (rw e (gone rows))
      ]

-- A user merges a category into another one, both his, on tables where each reference leads to a
-- category of its own user and no id has two owners. The merge succeeds, no constraint stops it, and
-- answers the target. The source is then gone; every transaction whose override led to the source has
-- the target, so has every source code that was mapped to it, and all others lead where they did.
pub merge_lem :
    (t : CategoryTables)
    → AreSound t
    → (now : ℕ) (user source target : Ident) (s c : CustomCategory) → (source == target) ≡ false
    → find_category source user t ≡ some s
    → find_category target user t ≡ some c
    → let (answer, t') = merge now user source target t in
      (answer ≡ ok c)
      × (find_category source user t' ≡ none)
      × ((id : Ident) → override_of id t' ≡ redirect source c (override_of id t))
      × ((u : Ident) (code : Option Text)
          → mapped_of u code t' ≡ redirect source c (mapped_of u code t))
unfolding merge merge_categories merged
merge_lem t h now user source target s c differ found_s found_c =
    let own = find_category-owns source user t s found_s in
    rw
      (
        differ,
        found_s,
        found_c,
        found_s,
        not_referenced t h source target user now c differ own found_c,
      )
      (
        refl,
        source_gone t h source target user now c differ own found_c,
        override_after t h source target user now c differ own found_c,
        mapped_after t h source target user now c differ own found_c,
      )
