-- ===== src/Sync/Service/Progress.antt =====
-- Where a successful and a failed run leave the account's progress
-- (worker/services/transaction-sync-service.ts).
use mono_finance.Common.{Ident, ℕ, ◌≡◌, refl, Option, none, some, List, arith, All}
use mono_finance.Common.Action.{ok}
use mono_finance.Sync.Window.{WindowInput, SyncWindow, next_transaction_sync_window}
use mono_finance.Sync.Window.Cycle.{after_window}
use mono_finance.Sync.Tables.{
  idle, failed, SyncErrorCode, SyncState, SyncTables, ClaimedAccount, TransactionSource,
  complete_window, put_state, put_window, update_state, Account,
}
use mono_finance.Sync.Claim.{claimed}
use mono_finance.Sync.Import.{import_transactions}
use mono_finance.Sync.Import.Once.{import_eq, import_complete, IsKnown}
use mono_finance.Sync.Service.{
  MonobankClient, Clock, maximum_timestamp, window_input, store_statement, synchronize_account,
}
use mono_finance.Sync.Service.Branches.{synchronize_window}

-- The account's progress as a later claim hands it to the service.
abbrev pub next_input : Account → SyncState → ℕ → ℕ → WindowInput
next_input account s start now =
    window_input (claimed (record { account = account; state = s }) start) now

-- The row holds the progress that was handed out with the claim.
pub record IsClaimOf (account : ClaimedAccount) (s : SyncState) : Type 0 where
  pub cursor : s.backfill_cursor_at ≡ account.backfill_cursor_at
  pub start : s.backfill_start_at ≡ some account.backfill_start_at
  pub last : s.last_synced_transaction_at ≡ account.last_synced_transaction_at

-- The row after `completeWindow`.
abbrev completed_row : SyncState → ℕ → Option ℕ → ℕ → SyncState
completed_row s cursor last now = record s {
  status = idle;
  backfill_cursor_at = some cursor;
  last_synced_transaction_at = last;
  last_successful_sync_at = some now;
  last_error_code = none;
  lease_expires_at = none;
}

update_state_lem :
    (a : Ident) (change : SyncState → SyncState) (t : SyncTables) (s : SyncState)
    → t.sync_state a ≡ some s
    → update_state a change t ≡ put_state a (change s) t
update_state_lem a change t s row = rw (row, update_state)

complete_window_lem :
    (a : Ident) (cursor : ℕ) (w : SyncWindow) (last : Option ℕ) (now : ℕ) (t : SyncTables)
    (s : SyncState)
    → t.sync_state a ≡ some s
    → let t' = complete_window a cursor w last now t in
      (t'.sync_state a ≡ some (completed_row s cursor last now))
      × (t'.windows a w.from_epoch_seconds w.to_epoch_seconds ≡ some now)
      × (t'.transactions ≡ t.transactions)
unfolding complete_window
complete_window_lem a cursor w last now t s row =
    let at : update_state a (λ s. completed_row s cursor last now) (put_window a w now t)
        ≡ put_state a (completed_row s cursor last now) (put_window a w now t) =
      update_state_lem a _ (put_window a w now t) s row in
    rw at (ground arith, ground arith, refl)

store_statement_success :
    (account : ClaimedAccount) (w : SyncWindow) (clock : Clock) (xs : List TransactionSource)
    (t : SyncTables) (s : SyncState)
    → t.sync_state account.account_id ≡ some s
    → let t' = (store_statement account w clock (ok xs) t).1 in
      let last = maximum_timestamp account.last_synced_transaction_at xs in
      (t'.sync_state account.account_id
        ≡ some (completed_row s w.from_epoch_seconds last clock.completion))
      × (t'.windows account.account_id w.from_epoch_seconds w.to_epoch_seconds
          ≡ some clock.completion)
      × (t'.transactions ≡ (import_transactions account clock.import xs t).1.transactions)
unfolding store_statement
store_statement_success account w clock xs t s row = rw (import_eq account clock.import xs t) (
    complete_window_lem account.account_id w.from_epoch_seconds w
      (maximum_timestamp account.last_synced_transaction_at xs) clock.completion _ s row)

-- When the row of the account is still the claimed one, then after a statement was read and stored,
-- the next run starts one window further on: its input is the one that follows this window in the
-- cycle of windows, at the newest transaction time known now. The interval is recorded as covered,
-- and every transaction that was read is stored.
pub synchronize_account_success :
    (during_request : SyncTables → SyncTables) (client : MonobankClient) (clock : Clock)
    (account : ClaimedAccount) (t : SyncTables) (w : SyncWindow) (xs : List TransactionSource)
    (s : SyncState)
    → next_transaction_sync_window (window_input account clock.entry) ≡ some w
    → client account.monobank_account_id w ≡ ok xs
    → (during_request t).sync_state account.account_id ≡ some s
    → IsClaimOf account s
    → let t' = (synchronize_account during_request client clock account t).1 in
      (s' : SyncState) × (t'.sync_state account.account_id ≡ some s')
      × ((a : Account) (start now : ℕ)
          → next_input a s' start now
            ≡ after_window w
                (maximum_timestamp account.last_synced_transaction_at xs, now)
                (window_input account clock.entry))
      × (t'.windows account.account_id w.from_epoch_seconds w.to_epoch_seconds
          ≡ some clock.completion)
      × All (IsKnown t'.transactions) xs
unfolding after_window
synchronize_account_success during_request client clock account t w xs s e answer row claim =
    let t1 = during_request t in
    let (row', window, transactions) = store_statement_success account w clock xs t1 s row in
    rw (synchronize_window during_request client clock account t w e, answer)
      (
        completed_row s w.from_epoch_seconds
            (maximum_timestamp account.last_synced_transaction_at xs) clock.completion,
        row',
        λ a start now. rw claim.start,
        window,
        rw transactions (import_complete account clock.import xs t1).1,
      )

-- What a failure with `code` makes of the account's row.
pub record IsFailedRow (s : SyncState) (code : SyncErrorCode) (s' : SyncState) : Type 0 where
  pub status : s'.status ≡ failed
  pub error : s'.last_error_code ≡ some code
  pub lease : s'.lease_expires_at ≡ none
  pub attempt : s'.last_attempt_at ≡ s.last_attempt_at
  pub success : s'.last_successful_sync_at ≡ s.last_successful_sync_at
  pub transaction : s'.last_synced_transaction_at ≡ s.last_synced_transaction_at
  pub start : s'.backfill_start_at ≡ s.backfill_start_at
  pub cursor : s'.backfill_cursor_at ≡ s.backfill_cursor_at
