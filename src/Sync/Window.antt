-- ===== src/Sync/Window.antt =====
-- worker/services/transaction-sync-window.ts, and the check that the provider client makes of each
-- statement request (`validateStatementRequest` of worker/monobank/client.ts).
-- Times are UTC epoch seconds. Each truncated difference stands under a `max` with a time, which
-- makes it the source's.
pub mod Bounds
pub mod Cycle
use mono_finance.Common.{
  ℕ, ◌-◌, max, Bool, ◌||◌, not, Option, none, some, leb, ltb, ◌==◌, if◌then◌else◌,
}
use mono_finance.Common.Int.{max_safe_integer}

abbrev pub maximum_statement_window_seconds : ℕ
maximum_statement_window_seconds = 2_682_000

abbrev pub incremental_sync_overlap_seconds : ℕ
incremental_sync_overlap_seconds = 86_400

pub record WindowInput : Type 0 where
  pub backfill_cursor_at : Option ℕ
  pub historical_start_at : ℕ
  pub last_synced_transaction_at : Option ℕ
  pub now_epoch_seconds : ℕ

pub record SyncWindow : Type 0 where
  pub from_epoch_seconds : ℕ
  pub to_epoch_seconds : ℕ

unfoldable pub historical_window : ℕ → ℕ → Option SyncWindow
historical_window historical_start_at to =
    if leb to historical_start_at
    then none
    else some (record {
      from_epoch_seconds = max historical_start_at (to - maximum_statement_window_seconds);
      to_epoch_seconds = to;
    })

-- The last part of `nextTransactionSyncWindow`, after the backfill.
unfoldable pub incremental_window : ℕ → Option ℕ → ℕ → Option SyncWindow
incremental_window historical_start_at none now = none
incremental_window historical_start_at (some last) now =
    if leb now last
    then none
    else some (record {
      from_epoch_seconds =
          max historical_start_at (
            max (last - incremental_sync_overlap_seconds) (now - maximum_statement_window_seconds));
      to_epoch_seconds = now;
    })

unfoldable pub next_transaction_sync_window : WindowInput → Option SyncWindow
unfolding historical_window incremental_window
next_transaction_sync_window input = elim input.backfill_cursor_at [
  | none ↦ historical_window input.historical_start_at input.now_epoch_seconds
  | some cursor ↦
      if ltb input.historical_start_at cursor
      then historical_window input.historical_start_at cursor
      else incremental_window input.historical_start_at input.last_synced_transaction_at
          input.now_epoch_seconds
]

-- `MAXIMUM_STATEMENT_PERIOD_SECONDS` of the client.
abbrev pub maximum_statement_period_seconds : ℕ
maximum_statement_period_seconds = 2_682_000

-- A request as the service makes it: both ends given, both whole numbers of seconds.
pub record StatementRequest : Type 0 where
  pub account_id_length : ℕ
  pub from_epoch_seconds : ℕ
  pub to_epoch_seconds : ℕ

-- `true` where `validateStatementRequest` throws `invalid_request`.
unfoldable pub is_invalid_request : StatementRequest → Bool
is_invalid_request r =
    r.account_id_length == 0
    || not (leb r.from_epoch_seconds max_safe_integer)
    || not (leb r.to_epoch_seconds max_safe_integer)
    || ltb r.to_epoch_seconds r.from_epoch_seconds
    || ltb maximum_statement_period_seconds (r.to_epoch_seconds - r.from_epoch_seconds)
