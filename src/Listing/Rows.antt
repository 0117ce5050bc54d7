-- ===== src/Listing/Rows.antt =====
-- The rows that the query of worker/repositories/transactions-repository.ts joins, and the items
-- that it makes of them (worker/services/transaction-query-service.ts).
use mono_finance.Common.{Ident, ℕ, Bool, false, not, Option, none, some, is_none}
use mono_finance.Common.Int.{ℤ}
use mono_finance.Common.Money.{Direction}
use mono_finance.Compensation.Tables.{Text}

-- The columns of `transaction_adjustments`, `transaction_exclusions` and `categories` that are read.
pub record AdjustmentColumns : Type 0 where
  pub adjusted_amount_minor : ℤ
  pub note : Option Ident

pub record ExclusionColumns : Type 0 where
  pub is_excluded : Bool
  pub reason : Option Ident

pub record CategoryColumns : Type 0 where
  pub id : Ident
  pub name : Ident

-- A row of the joins: what a LEFT JOIN did not find is `none`.
pub record JoinedRow : Type 0 where
  pub id : Ident
  pub user_id : Ident
  pub account_id : Ident
  pub account_type : Ident
  pub card_masked_pan : Option Ident
  pub direction : Direction
  pub original_amount_minor : ℤ
  pub original_currency_code : Ident
  pub currency_minor_unit : ℕ
  pub original_description : Text
  pub original_mcc : Option ℕ
  pub original_timestamp : ℕ
  pub original_category_code : Option Ident
  pub original_category_name : Option Ident
  pub adjustment : Option AdjustmentColumns
  pub exclusion : Option ExclusionColumns
  pub custom_category : Option CategoryColumns
  pub mapped_category : Option CategoryColumns

pub data CategorySource : Type 0 where
  custom mapped original : CategorySource

pub record ItemCategory : Type 0 where
  pub id : Option Ident
  pub name : Option Ident
  pub source : Option CategorySource

pub record ItemAccount : Type 0 where
  pub id : Ident
  pub masked_pan : Option Ident
  pub type : Ident

pub record TransactionListItem : Type 0 where
  pub account : ItemAccount
  pub category : ItemCategory
  pub original_category_id : Option Ident
  pub original_category_name : Option Ident
  pub currency_code : Ident
  pub currency_minor_unit : ℕ
  pub effective_amount_minor : ℤ
  pub adjustment_note : Option Ident
  pub has_adjustment : Bool
  pub has_compensation : Bool
  pub id : Ident
  pub is_excluded : Bool
  pub exclusion_reason : Option Ident
  pub original_amount_minor : ℤ
  pub original_description : Text
  pub original_mcc : Option ℕ
  pub original_timestamp : ℕ

-- COALESCE(transaction_adjustments.adjusted_amount_minor, transactions.original_amount_minor)
abbrev pub effective_amount : Option AdjustmentColumns → ℤ → ℤ
effective_amount none original_amount = original_amount
effective_amount (some a) original_amount = a.adjusted_amount_minor

abbrev pub note_of : Option AdjustmentColumns → Option Ident
note_of none = none
note_of (some a) = a.note

-- COALESCE(transaction_exclusions.is_excluded, 0) = 1
abbrev pub excluded_of : Option ExclusionColumns → Bool
excluded_of none = false
excluded_of (some x) = x.is_excluded

abbrev pub reason_of : Option ExclusionColumns → Option Ident
reason_of none = none
reason_of (some x) = x.reason

-- An original category without a name has no identity here.
abbrev pub original_category : Option Ident → Option Ident → ItemCategory
original_category code none = record { id = none; name = none; source = none }
original_category code (some name) = record { id = code; name = some name; source = some original }

abbrev pub item_category :
    Option CategoryColumns → Option CategoryColumns → Option Ident → Option Ident → ItemCategory
item_category (some c) _ code name = record {
  id = some c.id;
  name = some c.name;
  source = some custom;
}
item_category none (some c) code name = record {
  id = some c.id;
  name = some c.name;
  source = some mapped;
}
item_category none none code name = original_category code name

-- `mapTransactionRow`
unfoldable pub map_transaction_row : (JoinedRow → Bool) → JoinedRow → TransactionListItem
map_transaction_row compensated row = record {
  account = record {
    id = row.account_id;
    masked_pan = row.card_masked_pan;
    type = row.account_type;
  };
  category =
      item_category row.custom_category row.mapped_category row.original_category_code
        row.original_category_name;
  original_category_id = row.original_category_code;
  original_category_name = row.original_category_name;
  currency_code = row.original_currency_code;
  currency_minor_unit = row.currency_minor_unit;
  effective_amount_minor = effective_amount row.adjustment row.original_amount_minor;
  adjustment_note = note_of row.adjustment;
  has_adjustment = not (is_none row.adjustment);
  has_compensation = compensated row;
  id = row.id;
  is_excluded = excluded_of row.exclusion;
  exclusion_reason = reason_of row.exclusion;
  original_amount_minor = row.original_amount_minor;
  original_description = row.original_description;
  original_mcc = row.original_mcc;
  original_timestamp = row.original_timestamp;
}
