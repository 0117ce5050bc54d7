-- ===== src/Sync/Tables.antt =====
-- The tables of the synchronization and the statements that worker/repositories/
-- transaction-sync-repository.ts runs on them. A table with a unique key is a function from the key
-- to its row: `sync_state` by account, `transactions` by the provider's transaction id,
-- `transaction_sync_windows` by account and interval. The columns `updated_at`, the random row ids,
-- the category columns, which are computed from the MCC, and the account's type are left out.
use mono_finance.Common.{Ident, ℕ, Bool, ◌&&◌, Option, none, some, List, ◌==◌, if◌then◌else◌}
use mono_finance.Common.Int.{ℤ}
use mono_finance.Common.Money.{Direction}
use mono_finance.Sync.Window.{SyncWindow}

pub data SyncStatus : Type 0 where
  idle running failed : SyncStatus

-- `MonobankErrorCode`, and the code for every other error.
pub data SyncErrorCode : Type 0 where
  invalid_request unauthorized_token rate_limit remote_api_error malformed_response timeout
        internal_error :
      SyncErrorCode

pub record Account : Type 0 where
  pub id : Ident
  pub user_id : Ident
  pub monobank_account_id : Ident
  pub currency_code : Ident
  pub is_active : Bool
  pub created_at : ℕ

pub record SyncState : Type 0 where
  pub status : SyncStatus
  pub last_attempt_at : Option ℕ
  pub last_successful_sync_at : Option ℕ
  pub last_synced_transaction_at : Option ℕ
  pub last_error_code : Option SyncErrorCode
  pub backfill_start_at : Option ℕ
  pub backfill_cursor_at : Option ℕ
  pub lease_expires_at : Option ℕ

-- What the provider's statement gives, as far as the import stores it.
pub record TransactionSource : Type 0 where
  pub provider_transaction_id : Ident
  pub account_amount_minor : ℤ
  pub description : Ident
  pub original_mcc : ℤ
  pub occurred_at_epoch_seconds : ℕ
  pub direction : Direction

pub record StoredTransaction : Type 0 where
  pub user_id : Ident
  pub account_id : Ident
  pub original_amount_minor : ℤ
  pub original_currency_code : Ident
  pub original_description : Ident
  pub original_mcc : ℤ
  pub original_timestamp : ℕ
  pub direction : Direction
  pub imported_at : ℕ

abbrev pub Transactions : Type 0
Transactions = Ident → Option StoredTransaction

pub record SyncTables : Type 0 where
  pub accounts : List Account
  pub sync_state : Ident → Option SyncState
  pub transactions : Transactions
  pub windows : Ident → ℕ → ℕ → Option ℕ

-- What a claim hands to the service.
pub record ClaimedAccount : Type 0 where
  pub account_id : Ident
  pub backfill_cursor_at : Option ℕ
  pub backfill_start_at : ℕ
  pub currency_code : Ident
  pub last_synced_transaction_at : Option ℕ
  pub monobank_account_id : Ident
  pub user_id : Ident

abbrev pub put_state : Ident → SyncState → SyncTables → SyncTables
put_state account_id s t = record t {
  sync_state = λ other. if other == account_id then some s else t.sync_state other;
}

-- UPDATE sync_state SET … WHERE account_id = ?
abbrev pub update_state : Ident → (SyncState → SyncState) → SyncTables → SyncTables
update_state account_id change t = elim (t.sync_state account_id) [
  | none ↦ t
  | some s ↦ put_state account_id (change s) t
]

abbrev pub put_window : Ident → SyncWindow → ℕ → SyncTables → SyncTables
put_window account_id w completed_at t = record t {
  windows = λ account from to.
      if account == account_id && (from == w.from_epoch_seconds && to == w.to_epoch_seconds)
      then some completed_at
      else t.windows account from to;
}

-- The two statements of `completeWindow`, one batch.
unfoldable pub complete_window : Ident → ℕ → SyncWindow → Option ℕ → ℕ → SyncTables → SyncTables
complete_window account_id cursor w last now t =
    update_state account_id
      (λ s. record s {
        status = idle;
        backfill_cursor_at = some cursor;
        last_synced_transaction_at = last;
        last_successful_sync_at = some now;
        last_error_code = none;
        lease_expires_at = none;
      })
      (put_window account_id w now t)

unfoldable pub complete_empty_window : Ident → SyncTables → SyncTables
complete_empty_window account_id t =
    update_state account_id
      (λ s. record s { status = idle; last_error_code = none; lease_expires_at = none }) t

unfoldable pub fail_window : Ident → SyncErrorCode → SyncTables → SyncTables
fail_window account_id code t =
    update_state account_id
      (λ s. record s { status = failed; last_error_code = some code; lease_expires_at = none }) t
