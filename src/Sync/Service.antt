-- ===== src/Sync/Service.antt =====
-- `TransactionSyncService.synchronizeNext` of worker/services/transaction-sync-service.ts, with the
-- claim, the provider's answer and every statement on the tables. The provider client is a
-- parameter (`MonobankClient`), D1 itself never fails, and the clock reads a time after 1971, so
-- that the start of the history, 365 days back, is not negative. Log entries are left out.
pub mod Branches
pub mod Progress
pub mod Newest
pub mod Claimed
use mono_finance.Common.{Ident, ℕ, ◌*◌, ◌-◌, Option, none, some, List, [], ◌∷◌, ltb, if◌then◌else◌}
use mono_finance.Common.Action.{Result, ok, err, Action}
use mono_finance.Sync.Window.{WindowInput, SyncWindow, next_transaction_sync_window}
use mono_finance.Sync.Tables.{
  SyncErrorCode, internal_error, SyncTables, ClaimedAccount, TransactionSource, complete_window,
  complete_empty_window, fail_window,
}
use mono_finance.Sync.Claim.{claim_next}
use mono_finance.Sync.Import.{import_transactions}

abbrev pub default_historical_backfill_days : ℕ
default_historical_backfill_days = 365

-- What the client throws: a `MonobankApiError` with its code, or anything else.
pub data ClientError : Type 0 where
  monobank_api_error : SyncErrorCode → ClientError
  other_error : ClientError

-- `MonobankClient.getStatement`: the provider's answer for an account and a window.
abbrev pub MonobankClient : Type 0
MonobankClient = Ident → SyncWindow → Result ClientError (List TransactionSource)

-- What other Worker isolates do to the tables meanwhile: in each attempt of the claim, and while
-- the request is under way.
pub record Others : Type 0 where
  pub during_claim : ℕ → SyncTables → SyncTables
  pub during_request : SyncTables → SyncTables

-- The readings of the clock: on entry, at the import, and after it.
pub record Clock : Type 0 where
  pub entry : ℕ
  pub import : ℕ
  pub completion : ℕ

pub data SyncResultStatus : Type 0 where
  completed no_accounts synchronized : SyncResultStatus

pub record SyncResult : Type 0 where
  pub account_id : Option Ident
  pub imported_count : ℕ
  pub skipped_duplicate_count : ℕ
  pub status : SyncResultStatus
  pub window : Option SyncWindow

-- `maximum === null || time > maximum`
abbrev pub later : Option ℕ → ℕ → Option ℕ
later none time = some time
later (some maximum) time = if ltb maximum time then some time else some maximum

unfoldable pub maximum_timestamp : Option ℕ → List TransactionSource → Option ℕ
maximum_timestamp current [] = current
maximum_timestamp current (x ∷ xs) =
    maximum_timestamp (later current x.occurred_at_epoch_seconds) xs

abbrev pub transaction_sync_error_code : ClientError → SyncErrorCode
transaction_sync_error_code (monobank_api_error code) = code
transaction_sync_error_code other_error = internal_error

abbrev pub window_input : ClaimedAccount → ℕ → WindowInput
window_input account now = record {
  backfill_cursor_at = account.backfill_cursor_at;
  historical_start_at = account.backfill_start_at;
  last_synced_transaction_at = account.last_synced_transaction_at;
  now_epoch_seconds = now;
}

-- The body of the `try` after the request, and its `catch`.
unfoldable pub store_statement :
    ClaimedAccount
    → SyncWindow
    → Clock
    → Result ClientError (List TransactionSource)
    → Action SyncTables ClientError SyncResult
store_statement account w clock (ok xs) t =
    let (imported, t') = import_transactions account clock.import xs t in
    (
      ok (record {
        account_id = some account.account_id;
        imported_count = imported.imported_count;
        skipped_duplicate_count = imported.skipped_duplicate_count;
        status = synchronized;
        window = some w;
      }),
      complete_window account.account_id w.from_epoch_seconds w
          (maximum_timestamp account.last_synced_transaction_at xs) clock.completion t',
    )
store_statement account w clock (err e) t =
    (err e, fail_window account.account_id (transaction_sync_error_code e) t)

-- `synchronizeAt` once an account is claimed.
unfoldable pub synchronize_account :
    (SyncTables → SyncTables)
    → MonobankClient
    → Clock
    → ClaimedAccount
    → Action SyncTables ClientError SyncResult
unfolding store_statement
synchronize_account during_request client clock account t =
    elim (next_transaction_sync_window (window_input account clock.entry)) [
      | none ↦ (
        ok (record {
          account_id = some account.account_id;
          imported_count = 0;
          skipped_duplicate_count = 0;
          status = completed;
          window = none;
        }),
        complete_empty_window account.account_id t,
      )
      | some w ↦
          store_statement account w clock (client account.monobank_account_id w) (during_request t)
    ]

unfoldable pub synchronize_next :
    Others → MonobankClient → Option Ident → Clock → Action SyncTables ClientError SyncResult
unfolding synchronize_account
synchronize_next others client user clock t =
    let (claim, t') =
      claim_next others.during_claim user clock.entry
        (clock.entry - default_historical_backfill_days * 86_400) t in
    elim claim [
      | none ↦ (
        ok (record {
          account_id = none;
          imported_count = 0;
          skipped_duplicate_count = 0;
          status = no_accounts;
          window = none;
        }),
        t',
      )
      | some account ↦ synchronize_account others.during_request client clock account t'
    ]
