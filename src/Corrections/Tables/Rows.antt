-- ===== src/Corrections/Tables/Rows.antt =====
-- What a transaction looks like after one row of worker/repositories/
-- transaction-corrections-repository.ts has changed.
use mono_finance.Common.{
  Ident, ℕ, true, false, Option, none, some, ◌==◌, ==_iff, ==_self, ◌≡◌, ◌≢◌, refl, sym, Bool-cases,
  Option-cases, inl, inr,
}
use mono_finance.Common.Int.{ℤ}
use mathlib.Core.Option.{some-injective}
use mono_finance.Corrections.Tables.{
  ImportedTransaction, Adjustment, Exclusion, CorrectionTables, OwnedTransaction, find_owned,
  map_transaction, put, adjusted_row, removed_row, excluded_row, restored_row, adjusted_amount,
  excluded_flag,
}

-- The rows of both correction tables belong to the user of their transaction.
abbrev pub OwnsAdjustment : Option ImportedTransaction → Option Adjustment → Type 0
OwnsAdjustment x none = Unit
OwnsAdjustment none (some a) = ⊥
OwnsAdjustment (some x) (some a) = a.user_id ≡ x.user_id

abbrev pub OwnsExclusion : Option ImportedTransaction → Option Exclusion → Type 0
OwnsExclusion x none = Unit
OwnsExclusion none (some a) = ⊥
OwnsExclusion (some x) (some a) = a.user_id ≡ x.user_id

pub record IsOwned (t : CorrectionTables) : Type 0 where
  pub adjustments : (id : Ident) → OwnsAdjustment (t.imported id) (t.adjustments id)
  pub exclusions : (id : Ident) → OwnsExclusion (t.imported id) (t.exclusions id)

pub find_owned_lem :
    (id user : Ident) (t : CorrectionTables) (x : OwnedTransaction)
    → find_owned id user t ≡ some x
    → (y : ImportedTransaction) × (t.imported id ≡ some y)
      × (y.user_id ≡ user)
      × (x ≡ map_transaction id y (t.adjustments id) (t.exclusions id))
unfolding find_owned
find_owned_lem id user t x h = elim (Option-cases (t.imported id)) [
  | inl missing ↦ cc (rw (missing, find_owned) at h)
  | inr (y, found) ↦ elim (Bool-cases (y.user_id == user)) [
    | inl own ↦ (
      y,
      found,
      (==_iff _ _).0 own,
      sym (some-injective _ _ (rw own at (rw (found, find_owned) at h))),
    )
    | inr foreign ↦ cc (rw foreign at (rw (found, find_owned) at h))
  ]
]

put_other :
    {A : Type 0} (id other : Ident) (row : Option A) (table : Ident → Option A)
    → other ≢ id
    → put id row table other ≡ table other
put_other id other row table differ = elim (Bool-cases (other == id)) [
  | inl same ↦ absurd (differ ((==_iff _ _).0 same))
  | inr e ↦ rw e
]

put_self :
    {A : Type 0} (id : Ident) (row : Option A) (table : Ident → Option A)
    → put id row table id ≡ row
put_self id row table = rw (==_self id)

module _ (t : CorrectionTables) (id user : Ident) (y : ImportedTransaction)
    (found : t.imported id ≡ some y) (own : y.user_id ≡ user) where
  -- The tables with a new row for the transaction, on either side.
  abbrev with_adjustment : Option Adjustment → CorrectionTables
  with_adjustment row = record t { adjustments = put id row t.adjustments }

  abbrev with_exclusion : Option Exclusion → CorrectionTables
  with_exclusion row = record t { exclusions = put id row t.exclusions }

  pub with_adjustment_found :
      (row : Option Adjustment)
      → find_owned id user (with_adjustment row) ≡ some (map_transaction id y row (t.exclusions id))
  unfolding find_owned
  with_adjustment_found row =
      rw (found, find_owned) (rw (own, ==_self user, put_self id row t.adjustments) refl)

  pub with_exclusion_found :
      (row : Option Exclusion)
      → find_owned id user (with_exclusion row) ≡ some (map_transaction id y (t.adjustments id) row)
  unfolding find_owned
  with_exclusion_found row =
      rw (found, find_owned) (rw (own, ==_self user, put_self id row t.exclusions) refl)

  pub with_adjustment_others :
      (row : Option Adjustment) (other user' : Ident)
      → other ≢ id
      → find_owned other user' (with_adjustment row) ≡ find_owned other user' t
  unfolding find_owned
  with_adjustment_others row other user' differ = elim (Option-cases (t.imported other)) [
    | inl missing ↦ rw (missing, find_owned) refl
    | inr (_, present) ↦
        rw (present, find_owned) (rw (put_other id other row t.adjustments differ) refl)
  ]

  pub with_exclusion_others :
      (row : Option Exclusion) (other user' : Ident)
      → other ≢ id
      → find_owned other user' (with_exclusion row) ≡ find_owned other user' t
  unfolding find_owned
  with_exclusion_others row other user' differ = elim (Option-cases (t.imported other)) [
    | inl missing ↦ rw (missing, find_owned) refl
    | inr (_, present) ↦
        rw (present, find_owned) (rw (put_other id other row t.exclusions differ) refl)
  ]

pub adjusted_row_amount :
    (y : ImportedTransaction) (amount : ℤ) (remark : Option Ident) (now : ℕ)
    (row : Option Adjustment)
    → OwnsAdjustment (some y) row
    → adjusted_amount (adjusted_row y.user_id amount remark now row) ≡ some amount
adjusted_row_amount y amount remark now none h = refl
adjusted_row_amount y amount remark now (some a) h = rw (h, ==_self y.user_id) refl

pub removed_row-none :
    (y : ImportedTransaction) (row : Option Adjustment)
    → OwnsAdjustment (some y) row
    → removed_row y.user_id row ≡ none
removed_row-none y none h = refl
removed_row-none y (some a) h = rw (h, ==_self y.user_id) refl

pub excluded_row_flag :
    (y : ImportedTransaction) (reason : Option Ident) (now : ℕ) (row : Option Exclusion)
    → OwnsExclusion (some y) row
    → excluded_flag (excluded_row y.user_id reason now row) ≡ true
excluded_row_flag y reason now none h = refl
excluded_row_flag y reason now (some a) h = rw (h, ==_self y.user_id) refl

pub restored_row_flag :
    (y : ImportedTransaction) (now : ℕ) (row : Option Exclusion)
    → OwnsExclusion (some y) row
    → excluded_flag (restored_row y.user_id now row) ≡ false
restored_row_flag y now none h = refl
restored_row_flag y now (some a) h = rw (h, ==_self y.user_id) refl
