-- ===== src/Corrections/Service/Soundness.antt =====
-- What the calls of worker/services/transaction-correction-service.ts keep true of the tables.
use mono_finance.Common.{
  Ident, ℕ, false, Option, none, some, List, [], ◌∷◌, ◌==◌, ==_iff, ==_self, ◌≡◌, refl, ◌∙◌,
  Bool-cases, Option-cases, inl, inr, arith,
}
use mono_finance.Common.Int.{ℤ, Number, integer, pos, ◌≤ℤ◌}
use mono_finance.Common.Money.{Direction, income, expense}
use mono_finance.Corrections.Tables.{
  ImportedTransaction, Adjustment, Exclusion, CorrectionTables, find_owned, put, adjusted_row,
  excluded_row, restored_row, upsert_adjustment, remove_adjustment, set_excluded, set_restored,
}
use mono_finance.Corrections.Service.{
  Request, target, caller, saves, resets, excludes, restores, handle, required_transaction,
  is_incompatible, save_adjustment, reset_adjustment, exclude, restore,
}
use mono_finance.Corrections.Service.Answers.{found_x, handle_missing}
use mono_finance.Corrections.Tables.Rows.{
  IsOwned, OwnsAdjustment, OwnsExclusion, find_owned_lem, removed_row-none,
}

-- An expense is not above zero, an income not below it.
abbrev pub FitsDirection : Direction → ℤ → Type 0
FitsDirection expense amount = amount ≤ℤ pos 0
FitsDirection income amount = pos 0 ≤ℤ amount

abbrev pub FitsAdjustment : Option ImportedTransaction → Option Adjustment → Type 0
FitsAdjustment none adjustment = Unit
FitsAdjustment (some x) none = Unit
FitsAdjustment (some x) (some a) = FitsDirection x.direction a.adjusted_amount_minor

pub record IsSound (t : CorrectionTables) : Type 0 where
  pub owned : IsOwned t
  pub fits : (id : Ident) → FitsAdjustment (t.imported id) (t.adjustments id)

unfoldable pub handle_all : List Request → CorrectionTables → CorrectionTables
unfolding handle
handle_all [] t = t
handle_all (r ∷ rs) t = handle_all rs (handle r t).1

compatible-FitsDirection :
    (d : Direction) (amount : Number)
    → is_incompatible d amount ≡ false
    → FitsDirection d (integer amount)
compatible-FitsDirection income amount h = ground arith
compatible-FitsDirection expense amount h = ground arith

put_all :
    {A : Type 0} (P : Ident → Option A → Type 0) (id : Ident) (row : Option A)
    (table : Ident → Option A)
    → P id row
    → ((other : Ident) → P other (table other))
    → (other : Ident) → P other (put id row table other)
put_all P id row table new old other = elim (Bool-cases (other == id)) [
  | inl same ↦ rw (same, (==_iff _ _).0 same) new
  | inr differ ↦ rw differ (old other)
]

adjusted_row-OwnsAdjustment :
    (y : ImportedTransaction) (amount : ℤ) (remark : Option Ident) (now : ℕ)
    (row : Option Adjustment)
    → OwnsAdjustment (some y) row
    → OwnsAdjustment (some y) (adjusted_row y.user_id amount remark now row)
adjusted_row-OwnsAdjustment y amount remark now none h = refl
adjusted_row-OwnsAdjustment y amount remark now (some a) h = rw (h, ==_self y.user_id) refl

adjusted_row-FitsAdjustment :
    (y : ImportedTransaction) (amount : ℤ) (remark : Option Ident) (now : ℕ)
    (row : Option Adjustment)
    → FitsDirection y.direction amount
    → OwnsAdjustment (some y) row
    → FitsAdjustment (some y) (adjusted_row y.user_id amount remark now row)
adjusted_row-FitsAdjustment y amount remark now none fits h = fits
adjusted_row-FitsAdjustment y amount remark now (some a) fits h = rw (h, ==_self y.user_id) fits

excluded_row-OwnsExclusion :
    (y : ImportedTransaction) (reason : Option Ident) (now : ℕ) (row : Option Exclusion)
    → OwnsExclusion (some y) row
    → OwnsExclusion (some y) (excluded_row y.user_id reason now row)
excluded_row-OwnsExclusion y reason now none h = refl
excluded_row-OwnsExclusion y reason now (some a) h = rw (h, ==_self y.user_id) refl

restored_row-OwnsExclusion :
    (y : ImportedTransaction) (now : ℕ) (row : Option Exclusion)
    → OwnsExclusion (some y) row
    → OwnsExclusion (some y) (restored_row y.user_id now row)
restored_row-OwnsExclusion y now none h = tt
restored_row-OwnsExclusion y now (some a) h = rw (h, ==_self y.user_id) refl

module _ (t : CorrectionTables) (id : Ident) (y : ImportedTransaction) (h : IsSound t)
    (found : t.imported id ≡ some y) where
  -- A row that is the user's, and that fits, may be put into either table.
  adjustment-IsSound :
      (row : Option Adjustment)
      → OwnsAdjustment (some y) row
      → FitsAdjustment (some y) row
      → IsSound (record t { adjustments = put id row t.adjustments })
  adjustment-IsSound row owns fits = record {
    owned = record {
      adjustments =
          put_all (λ other. OwnsAdjustment (t.imported other)) id row t.adjustments (rw found owns)
            h.owned.adjustments;
      exclusions = h.owned.exclusions;
    };
    fits =
        put_all (λ other. FitsAdjustment (t.imported other)) id row t.adjustments (rw found fits)
          h.fits;
  }

  exclusion-IsSound :
      (row : Option Exclusion)
      → OwnsExclusion (some y) row
      → IsSound (record t { exclusions = put id row t.exclusions })
  exclusion-IsSound row owns = record {
    owned = record {
      adjustments = h.owned.adjustments;
      exclusions =
          put_all (λ other. OwnsExclusion (t.imported other)) id row t.exclusions (rw found owns)
            h.owned.exclusions;
    };
    fits = h.fits;
  }

  owns_adjustment : OwnsAdjustment (some y) (t.adjustments id)
  owns_adjustment = rw found at (h.owned.adjustments id)

  owns_exclusion : OwnsExclusion (some y) (t.exclusions id)
  owns_exclusion = rw found at (h.owned.exclusions id)

  -- The imported rows stay, and the corrections stay sound.
  abbrev Kept : CorrectionTables → Type 0
  Kept t' = IsSound t' × (t'.imported ≡ t.imported)

  save_keeps :
      (now : ℕ) (amount : Number) (remark : Option Ident)
      → Kept (save_adjustment now y.user_id id amount remark t).1
  unfolding save_adjustment required_transaction upsert_adjustment
  save_keeps now amount remark = elim (Bool-cases (is_incompatible y.direction amount)) [
    | inl bad ↦ rw (found_x t id y h.owned found, bad) (h, refl)
    | inr fits ↦
        rw (found_x t id y h.owned found, fits)
          (
            adjustment-IsSound _
                (adjusted_row-OwnsAdjustment y (integer amount) remark now (t.adjustments id)
                  owns_adjustment)
                (adjusted_row-FitsAdjustment y (integer amount) remark now (t.adjustments id)
                  (compatible-FitsDirection y.direction amount fits) owns_adjustment),
            refl,
          )
  ]

  reset_keeps : Kept (reset_adjustment y.user_id id t).1
  unfolding reset_adjustment required_transaction remove_adjustment
  reset_keeps =
      let gone = removed_row-none y (t.adjustments id) owns_adjustment in
      rw (found_x t id y h.owned found, gone) (adjustment-IsSound none tt tt, refl)

  exclude_keeps : (now : ℕ) (reason : Option Ident) → Kept (exclude now y.user_id id reason t).1
  unfolding exclude required_transaction set_excluded
  exclude_keeps now reason = rw (found_x t id y h.owned found) (
    exclusion-IsSound _ (excluded_row-OwnsExclusion y reason now (t.exclusions id) owns_exclusion),
    refl,
  )

  restore_keeps : (now : ℕ) → Kept (restore now y.user_id id t).1
  unfolding restore required_transaction set_restored
  restore_keeps now = rw (found_x t id y h.owned found) (
    exclusion-IsSound _ (restored_row-OwnsExclusion y now (t.exclusions id) owns_exclusion),
    refl,
  )

handle_keeps_found :
    (r : Request) (t : CorrectionTables) (y : ImportedTransaction)
    → IsSound t
    → t.imported (target r) ≡ some y
    → y.user_id ≡ caller r
    → IsSound (handle r t).1 × ((handle r t).1.imported ≡ t.imported)
unfolding handle
handle_keeps_found (saves now user id amount remark) t y h found own =
    rw (← own) (save_keeps t id y h found now amount remark)
handle_keeps_found (resets user id) t y h found own = rw (← own) (reset_keeps t id y h found)
handle_keeps_found (excludes now user id reason) t y h found own =
    rw (← own) (exclude_keeps t id y h found now reason)
handle_keeps_found (restores now user id) t y h found own =
    rw (← own) (restore_keeps t id y h found now)

handle_keeps :
    (r : Request) (t : CorrectionTables)
    → IsSound t
    → IsSound (handle r t).1 × ((handle r t).1.imported ≡ t.imported)
handle_keeps r t h = elim (Option-cases (find_owned (target r) (caller r) t)) [
  | inl missing ↦ rw (handle_missing r t missing) (h, refl)
  | inr (x, found) ↦
      let (y, present, own, _) = find_owned_lem (target r) (caller r) t x found in
      handle_keeps_found r t y h present own
]

-- From sound tables on, whatever calls are made, in whatever order, the imported transactions stay
-- what they were, every correction belongs to the user of its transaction, and every adjusted amount
-- keeps the direction of the original: no expense becomes an income, nor an income an expense.
pub handle_all-IsSound :
    (rs : List Request) (t : CorrectionTables)
    → IsSound t
    → IsSound (handle_all rs t) × ((handle_all rs t).imported ≡ t.imported)
unfolding handle_all
handle_all-IsSound [] t h = (h, refl)
handle_all-IsSound (r ∷ rs) t h =
    let (sound, same) = handle_keeps r t h in
    let (sound', same') = handle_all-IsSound rs (handle r t).1 sound in (sound', same' ∙ same)
