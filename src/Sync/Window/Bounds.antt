-- ===== src/Sync/Window/Bounds.antt =====
-- Every window that `nextTransactionSyncWindow` chooses lies in the wanted history, is not empty,
-- and passes the check that the provider client makes (worker/monobank/client.ts).
use mono_finance.Common.{ℕ, ◌+◌, ◌≤◌, ◌<◌, ◌≡◌, false, Option, none, some, arith}
use mono_finance.Common.Int.{max_safe_integer}
use mono_finance.Sync.Window.{
  WindowInput, SyncWindow, historical_window, incremental_window, next_transaction_sync_window,
  maximum_statement_window_seconds, is_invalid_request,
}

-- What the windows of one account keep to.
pub record IsWithin (start now : ℕ) (w : SyncWindow) : Type 0 where
  pub starts : start ≤ w.from_epoch_seconds
  pub proper : w.from_epoch_seconds < w.to_epoch_seconds
  pub ends : w.to_epoch_seconds ≤ now
  pub short : w.to_epoch_seconds ≤ w.from_epoch_seconds + maximum_statement_window_seconds

historical_window-IsWithin :
    (start to now : ℕ) (w : SyncWindow)
    → to ≤ now
    → historical_window start to ≡ some w
    → IsWithin start now w
unfolding historical_window
historical_window-IsWithin start to now w h e = ground arith

incremental_window-IsWithin :
    (start now : ℕ) (last : Option ℕ) (w : SyncWindow)
    → start < now
    → incremental_window start last now ≡ some w
    → IsWithin start now w
unfolding incremental_window
incremental_window-IsWithin start now none w h e = ground arith
incremental_window-IsWithin start now (some last) w h e = ground arith

-- The cursor, if there is one, is no later than the clock.
abbrev pub IsPast : ℕ → Option ℕ → Type 0
IsPast now none = Unit
IsPast now (some cursor) = cursor ≤ now

-- When the history starts before the clock and the cursor is no later than it, every window that is
-- asked for is not empty, starts no earlier than the history, ends no later than the clock, and is no
-- longer than the 2,682,000 seconds that one request may cover.
pub window-IsWithin :
    (input : WindowInput) (w : SyncWindow)
    → input.historical_start_at < input.now_epoch_seconds
    → IsPast input.now_epoch_seconds input.backfill_cursor_at
    → next_transaction_sync_window input ≡ some w
    → IsWithin input.historical_start_at input.now_epoch_seconds w
unfolding next_transaction_sync_window
window-IsWithin input w h past e = ground arith

-- When the history starts before the clock, the cursor is no later than it, and the clock is a safe
-- integer, the client refuses no window that the service asks for with an account's id.
pub window_is_valid_request :
    (input : WindowInput) (w : SyncWindow) (n : ℕ)
    → input.historical_start_at < input.now_epoch_seconds
    → IsPast input.now_epoch_seconds input.backfill_cursor_at
    → input.now_epoch_seconds ≤ max_safe_integer
    → next_transaction_sync_window input ≡ some w
    → is_invalid_request (record {
      account_id_length = n + 1;
      from_epoch_seconds = w.from_epoch_seconds;
      to_epoch_seconds = w.to_epoch_seconds;
    })
      ≡ false
unfolding is_invalid_request
window_is_valid_request input w n h past safe e =
    let v = window-IsWithin input w h past e in ground arith
