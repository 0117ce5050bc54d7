-- ===== src/Corrections/Service/Answers.antt =====
-- What a call of worker/services/transaction-correction-service.ts answers, and what it leaves in
-- the tables.
use mono_finance.Common.{Ident, none, some, ==_self, ◌≡◌, ◌≢◌, refl}
use mono_finance.Common.Action.{Result, ok, err}
use mono_finance.Corrections.Tables.{
  ImportedTransaction, CorrectionTables, OwnedTransaction, find_owned, map_transaction,
}
use mono_finance.Corrections.Service.{
  CorrectionError, CorrectionResult, Request, saves, resets, excludes, restores, target, caller,
  handle, to_correction_result, required_transaction, save_adjustment, reset_adjustment, exclude,
  restore, transaction_not_found,
}
use mono_finance.Corrections.Tables.Rows.{IsOwned}

-- A call throws and changes nothing, or what it answers is what the tables then say of the
-- transaction, and they say what they said of every other one.
abbrev pub Answered :
    CorrectionTables
    → Ident
    → Ident
    → Result CorrectionError CorrectionResult × CorrectionTables
    → Type 0
Answered t id user (err c, t') = t' ≡ t
Answered t id user (ok a, t') =
    ((x : OwnedTransaction) × (find_owned id user t' ≡ some x)
      × (a ≡ to_correction_result x x.adjustment_amount_minor))
    × ((other user' : Ident) → other ≢ id → find_owned other user' t' ≡ find_owned other user' t)

module _ (t : CorrectionTables) (id : Ident) (y : ImportedTransaction) (h : IsOwned t)
    (found : t.imported id ≡ some y) where
  abbrev x : OwnedTransaction
  x = map_transaction id y (t.adjustments id) (t.exclusions id)

  pub found_x : find_owned id y.user_id t ≡ some x
  unfolding find_owned
  found_x = rw (found, find_owned) (rw (==_self y.user_id) refl)

pub handle_missing :
    (r : Request) (t : CorrectionTables)
    → find_owned (target r) (caller r) t ≡ none
    → handle r t ≡ (Result.err transaction_not_found, t)
unfolding handle save_adjustment reset_adjustment exclude restore required_transaction
handle_missing (saves now user id amount remark) t missing = rw missing refl
handle_missing (resets user id) t missing = rw missing refl
handle_missing (excludes now user id reason) t missing = rw missing refl
handle_missing (restores now user id) t missing = rw missing refl
