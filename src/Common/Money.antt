-- ===== src/Common/Money.antt =====
-- The direction of a transaction, as every table and service of the Worker writes it.
use mathlib.Core.Bool.{Bool, true, false}

pub data Direction : Type 0 where
  income expense : Direction

abbrev pub is_expense : Direction → Bool
is_expense expense = true
is_expense income = false

abbrev pub is_income : Direction → Bool
is_income expense = false
is_income income = true
