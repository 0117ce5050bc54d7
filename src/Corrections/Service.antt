-- ===== src/Corrections/Service.antt =====
-- `TransactionCorrectionService` of worker/services/transaction-correction-service.ts.
pub mod Soundness
pub mod Answers
use mono_finance.Common.{Ident, ℕ, Bool, true, false, ◌||◌, ◌&&◌, not, Option, none, some, is_none}
use mono_finance.Common.Int.{ℤ, Number, integer, is_safe_integer, pos, ltb_ℤ}
use mono_finance.Common.Money.{Direction, is_income, is_expense}
use mono_finance.Common.Action.{◌>>=◌, ◌>>◌, Action, pure, gets, or_throw, throw_if, modify}
use mono_finance.Corrections.Tables.{
  CorrectionTables, OwnedTransaction, find_owned, upsert_adjustment, remove_adjustment,
  set_excluded, set_restored,
}

pub data CorrectionError : Type 0 where
  invalid_correction transaction_not_found : CorrectionError

pub record CorrectionResult : Type 0 where
  pub effective_amount_minor : ℤ
  pub has_adjustment : Bool
  pub id : Ident
  pub is_excluded : Bool

abbrev pub Call : Type 0
Call = Action CorrectionTables CorrectionError CorrectionResult

-- `a ?? b`
abbrev pub or_original : Option ℤ → ℤ → ℤ
or_original none original = original
or_original (some a) original = a

unfoldable pub to_correction_result : OwnedTransaction → Option ℤ → CorrectionResult
to_correction_result x adjustment = record {
  effective_amount_minor = or_original adjustment x.original_amount_minor;
  has_adjustment = not (is_none adjustment);
  id = x.id;
  is_excluded = x.is_excluded;
}

-- `resolveEffectiveAmount`, and `resolveForAnalytics` with it.
unfoldable pub resolve_effective_amount : OwnedTransaction → ℤ
resolve_effective_amount x = or_original x.adjustment_amount_minor x.original_amount_minor

unfoldable pub resolve_for_analytics : OwnedTransaction → ℤ × Bool
unfolding resolve_effective_amount
resolve_for_analytics x = (resolve_effective_amount x, not x.is_excluded)

-- The test of `assertCompatibleDirection`.
abbrev pub is_incompatible : Direction → Number → Bool
is_incompatible direction amount =
    not (is_safe_integer amount)
    || (is_expense direction && ltb_ℤ (pos 0) (integer amount))
    || (is_income direction && ltb_ℤ (integer amount) (pos 0))

unfoldable pub required_transaction :
    Ident → Ident → Action CorrectionTables CorrectionError OwnedTransaction
required_transaction id user = do
  found ← gets (find_owned id user)
  or_throw found transaction_not_found

unfoldable pub save_adjustment : ℕ → Ident → Ident → Number → Option Ident → Call
unfolding required_transaction
save_adjustment now user id amount remark = do
  x ← required_transaction id user
  throw_if (is_incompatible x.direction amount) invalid_correction
  modify (upsert_adjustment id user (integer amount) remark now)
  pure (to_correction_result x (some (integer amount)))

unfoldable pub reset_adjustment : Ident → Ident → Call
unfolding required_transaction
reset_adjustment user id = do
  x ← required_transaction id user
  modify (remove_adjustment id user)
  pure (to_correction_result x none)

unfoldable pub exclude : ℕ → Ident → Ident → Option Ident → Call
unfolding required_transaction
exclude now user id reason = do
  x ← required_transaction id user
  modify (set_excluded id user reason now)
  pure (record (to_correction_result x x.adjustment_amount_minor) { is_excluded = true })

unfoldable pub restore : ℕ → Ident → Ident → Call
unfolding required_transaction
restore now user id = do
  x ← required_transaction id user
  modify (set_restored id user now)
  pure (record (to_correction_result x x.adjustment_amount_minor) { is_excluded = false })

-- One call of the service.
pub data Request : Type 0 where
  saves : (now : ℕ) (user id : Ident) (amount : Number) (remark : Option Ident) → Request
  resets : (user id : Ident) → Request
  excludes : (now : ℕ) (user id : Ident) (reason : Option Ident) → Request
  restores : (now : ℕ) (user id : Ident) → Request

abbrev pub target : Request → Ident
target (saves now user id amount remark) = id
target (resets user id) = id
target (excludes now user id reason) = id
target (restores now user id) = id

abbrev pub caller : Request → Ident
caller (saves now user id amount remark) = user
caller (resets user id) = user
caller (excludes now user id reason) = user
caller (restores now user id) = user

unfoldable pub handle : Request → Call
unfolding save_adjustment reset_adjustment exclude restore
handle (saves now user id amount remark) = save_adjustment now user id amount remark
handle (resets user id) = reset_adjustment user id
handle (excludes now user id reason) = exclude now user id reason
handle (restores now user id) = restore now user id
