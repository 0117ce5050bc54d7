-- ===== src/Corrections/Tables.antt =====
-- The tables `transactions`, `transaction_adjustments` and `transaction_exclusions`
-- (migrations/0001_initial_schema.sql) as worker/repositories/transaction-corrections-repository.ts
-- reads and writes them. Both correction tables are functions from the transaction's id, which is
-- UNIQUE there; the random ids of their rows, which nothing reads, are left out.
pub mod Rows
use mono_finance.Common.{Ident, ℕ, Bool, true, false, Option, none, some, ◌==◌, if◌then◌else◌}
use mono_finance.Common.Int.{ℤ}
use mono_finance.Common.Money.{Direction}

pub record ImportedTransaction : Type 0 where
  pub user_id : Ident
  pub monobank_transaction_id : Ident
  pub direction : Direction
  pub original_amount_minor : ℤ
  pub original_currency_code : Ident
  pub original_description : Ident
  pub original_mcc : Option ℕ
  pub original_timestamp : ℕ

pub record Adjustment : Type 0 where
  pub user_id : Ident
  pub adjusted_amount_minor : ℤ
  pub note : Option Ident
  pub created_at : ℕ
  pub updated_at : ℕ

pub record Exclusion : Type 0 where
  pub user_id : Ident
  pub is_excluded : Bool
  pub reason : Option Ident
  pub excluded_at : ℕ
  pub restored_at : Option ℕ
  pub created_at : ℕ
  pub updated_at : ℕ

pub record CorrectionTables : Type 0 where
  pub imported : Ident → Option ImportedTransaction
  pub adjustments : Ident → Option Adjustment
  pub exclusions : Ident → Option Exclusion

pub record OwnedTransaction : Type 0 where
  pub adjustment_amount_minor : Option ℤ
  pub direction : Direction
  pub id : Ident
  pub is_excluded : Bool
  pub original_amount_minor : ℤ
  pub original_currency_code : Ident
  pub original_description : Ident
  pub original_mcc : Option ℕ
  pub original_timestamp : ℕ
  pub provider_transaction_id : Ident

-- The columns of the LEFT JOINs.
abbrev pub adjusted_amount : Option Adjustment → Option ℤ
adjusted_amount none = none
adjusted_amount (some a) = some a.adjusted_amount_minor

abbrev pub excluded_flag : Option Exclusion → Bool
excluded_flag none = false
excluded_flag (some x) = x.is_excluded

abbrev pub map_transaction :
    Ident → ImportedTransaction → Option Adjustment → Option Exclusion → OwnedTransaction
map_transaction id x adjustment exclusion = record {
  adjustment_amount_minor = adjusted_amount adjustment;
  direction = x.direction;
  id = id;
  is_excluded = excluded_flag exclusion;
  original_amount_minor = x.original_amount_minor;
  original_currency_code = x.original_currency_code;
  original_description = x.original_description;
  original_mcc = x.original_mcc;
  original_timestamp = x.original_timestamp;
  provider_transaction_id = x.monobank_transaction_id;
}

-- `findOwnedTransaction`
unfoldable pub find_owned : Ident → Ident → CorrectionTables → Option OwnedTransaction
find_owned id user t = elim (t.imported id) [
  | none ↦ none
  | some x ↦
      if x.user_id == user
      then some (map_transaction id x (t.adjustments id) (t.exclusions id))
      else none
]

abbrev pub put : {A : Type 0} → Ident → Option A → (Ident → Option A) → Ident → Option A
put id row table other = if other == id then row else table other

-- The row that the upsert of `upsertAdjustment` leaves, given the row that was there.
abbrev pub adjusted_row : Ident → ℤ → Option Ident → ℕ → Option Adjustment → Option Adjustment
adjusted_row user amount remark now none = some (record {
  user_id = user;
  adjusted_amount_minor = amount;
  note = remark;
  created_at = now;
  updated_at = now;
})
adjusted_row user amount remark now (some row) =
    if row.user_id == user
    then some (record row { adjusted_amount_minor = amount; note = remark; updated_at = now })
    else some row

unfoldable pub upsert_adjustment :
    Ident → Ident → ℤ → Option Ident → ℕ → CorrectionTables → CorrectionTables
upsert_adjustment id user amount remark now t = record t {
  adjustments = put id (adjusted_row user amount remark now (t.adjustments id)) t.adjustments;
}

abbrev pub removed_row : Ident → Option Adjustment → Option Adjustment
removed_row user none = none
removed_row user (some row) = if row.user_id == user then none else some row

unfoldable pub remove_adjustment : Ident → Ident → CorrectionTables → CorrectionTables
remove_adjustment id user t = record t {
  adjustments = put id (removed_row user (t.adjustments id)) t.adjustments;
}

abbrev pub excluded_row : Ident → Option Ident → ℕ → Option Exclusion → Option Exclusion
excluded_row user reason now none = some (record {
  user_id = user;
  is_excluded = true;
  reason = reason;
  excluded_at = now;
  restored_at = none;
  created_at = now;
  updated_at = now;
})
excluded_row user reason now (some row) =
    if row.user_id == user
    then some (record row {
      is_excluded = true;
      reason = reason;
      excluded_at = now;
      restored_at = none;
      updated_at = now;
    })
    else some row

unfoldable pub set_excluded : Ident → Ident → Option Ident → ℕ → CorrectionTables → CorrectionTables
set_excluded id user reason now t = record t {
  exclusions = put id (excluded_row user reason now (t.exclusions id)) t.exclusions;
}

abbrev pub restored_row : Ident → ℕ → Option Exclusion → Option Exclusion
restored_row user now none = none
restored_row user now (some row) =
    if row.user_id == user
    then some (record row { is_excluded = false; restored_at = some now; updated_at = now })
    else some row

unfoldable pub set_restored : Ident → Ident → ℕ → CorrectionTables → CorrectionTables
set_restored id user now t = record t {
  exclusions = put id (restored_row user now (t.exclusions id)) t.exclusions;
}
