-- ===== src/Sync/WindowTests.antt =====
-- The windows of worker/services/transaction-sync-window.ts at concrete times.
use mono_finance.Common.{◌+◌, ◌≤◌, ◌≡◌, refl, false, none, some, List, [], ◌∷◌, arith, length}
use mono_finance.Sync.Window.{
  WindowInput, SyncWindow, next_transaction_sync_window, historical_window, is_invalid_request,
}
use mono_finance.Sync.Window.Bounds.{IsWithin, window-IsWithin, window_is_valid_request}
use mono_finance.Sync.Window.Cycle.{
  Round, follow, Tiles, position, after_window, backfill_covers, empty_history_stalls,
  incremental_restarts_backfill,
}

-- An account in the middle of its backfill.
abbrev middle : WindowInput
middle = record {
  backfill_cursor_at = some 1_706_000_000;
  historical_start_at = 1_700_000_000;
  last_synced_transaction_at = some 1_709_000_000;
  now_epoch_seconds = 1_710_000_000;
}

abbrev middle_window : SyncWindow
middle_window = record { from_epoch_seconds = 1_703_318_000; to_epoch_seconds = 1_706_000_000 }

window-IsWithin_example : IsWithin 1_700_000_000 1_710_000_000 middle_window
unfolding next_transaction_sync_window
window-IsWithin_example = window-IsWithin middle middle_window (omega arith) (omega arith) refl

window_is_valid_request_example :
    is_invalid_request (record {
      account_id_length = 21 + 1;
      from_epoch_seconds = 1_703_318_000;
      to_epoch_seconds = 1_706_000_000;
    })
    ≡ false
unfolding next_transaction_sync_window
window_is_valid_request_example =
    window_is_valid_request middle middle_window 21 (omega arith) (omega arith) (omega arith) refl

-- Three rounds, which the remaining six million seconds take.
abbrev rounds : List Round
rounds =
    (some 1_709_000_000, 1_710_000_060)
    ∷ (some 1_709_000_000, 1_710_000_120)
    ∷ (none, 1_710_000_180)
    ∷ []

backfill_covers_example :
    Tiles 1_706_000_000 1_700_000_000 (follow rounds middle).0
    × (length (follow rounds middle).0 ≡ 3)
    × (position (follow rounds middle).1 ≡ 1_700_000_000)
backfill_covers_example = backfill_covers rounds middle (omega arith) (omega arith) (omega arith)

abbrev empty_history : WindowInput
empty_history = record middle {
  backfill_cursor_at = some 1_700_000_000;
  last_synced_transaction_at = none;
}

empty_history_stalls_example : (follow rounds empty_history).0 ≡ []
empty_history_stalls_example =
    empty_history_stalls rounds empty_history 1_700_000_000 refl (omega arith) refl

abbrev finished : WindowInput
finished = record middle { backfill_cursor_at = some 1_700_000_000 }

abbrev finished_window : SyncWindow
finished_window = record { from_epoch_seconds = 1_708_913_600; to_epoch_seconds = 1_710_000_000 }

incremental_restarts_backfill_example :
    (finished_window.to_epoch_seconds ≡ 1_710_000_000)
    × (next_transaction_sync_window
          (after_window finished_window (some 1_709_900_000, 1_711_000_000) finished)
        ≡ historical_window 1_700_000_000 1_708_913_600)
    × (1_700_000_000 + 1 ≤ 1_708_913_600)
unfolding next_transaction_sync_window
incremental_restarts_backfill_example =
    incremental_restarts_backfill finished (some 1_709_900_000, 1_711_000_000) 1_700_000_000
      1_709_000_000 finished_window refl (omega arith) refl (omega arith) refl
